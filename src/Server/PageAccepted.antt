-- ===== src/Server/PageAccepted.antt =====
-- A page, with its tracker (packages/tracker/src/core.ts) and its collector of web vitals
-- (packages/tracker/src/vitals.ts), before the schema of internal/ingest/validator.go.
use webalytics.Common.{List, ◌≡◌, All}
use webalytics.Numbers.{Floats}
use webalytics.Tracker.Types.{InitConfig}
use webalytics.Tracker.Browser.{Globals}
use webalytics.Tracker.State.{State}
use webalytics.Tracker.Core.{init}
use webalytics.Tracker.Loop.{Action, run}
use webalytics.Tracker.Loop as Loop
use webalytics.Vitals.Core as Vitals
use webalytics.Vitals.Core.{VitalSample, observe_web_vitals}
use webalytics.Vitals.Positive.{IsPositive, IsGiven, IsSound}
use webalytics.Page.{PageAction, PageState, calls, delivers}
use webalytics.Server.Payload.{Decoding}
use webalytics.Server.Accepted.{IsProper, AreProper}

module _ (F : Floats) (G : Decoding F) (c : InitConfig) (g : Globals) where
  open F use {Number}

  -- A tracker as proper actions leave it.
  abbrev Ran : State Number → Type 0
  Ran t = (xs : List (Globals × Action Number)) × AreProper F G c xs × (run xs (init c g) ≡ t)

  abbrev ArePositive : List (VitalSample Number) → Type 0
  ArePositive vs = All (λ v. IsPositive F v.value) vs

  module _ (page : Vitals.Page Number) where
    -- What callers hand over is proper, and what the browser delivers is not negative.
    abbrev pub IsProperStep : PageAction Number → Type 0
    IsProperStep (calls a) = IsProper F G a
    IsProperStep (delivers x) = IsGiven F x

    abbrev IsFine : PageState Number → Type 0
    IsFine p = IsSound F p.vitals × Ran p.tracker
