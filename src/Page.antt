-- ===== src/Page.antt =====
-- One page: the tracker of packages/tracker/src/core.ts with the collector of the web vitals
-- (packages/tracker/src/vitals.ts) that its `init` starts, and the order in which the listeners of
-- the two run. On `pagehide` the collector's listeners come first, since `init` starts it before
-- it adds its own; on `visibilitychange` the tracker's comes first, since it listens on the document
-- and the collector on the window, which the event reaches later.
pub mod News
pub mod Recording
pub mod Closing
use webalytics.Common.{
  ℕ, zero, suc, ◌+◌, ◌≤◌, String, Bool, true, false, not, ◌&&◌, Option, none, some, List, [], ◌∷◌,
  ◌++◌, map, ◌≡◌, refl, sym, ap, ◌∙◌, subst, arith, length, drop, append_assoc, append-nil, All,
  if◌then◌else◌,
}
use webalytics.Numbers.{Floats}
use webalytics.Tracker.Types.{Vital, CollectPayload, InitConfig}
use webalytics.Tracker.Browser.{Globals}
use webalytics.Tracker.State.{State}
use webalytics.Tracker.Event.{vital_event}
use webalytics.Tracker.Core.{init}
use webalytics.Tracker.Loop.{Action, vital_reported, step}
use webalytics.Tracker.Loop as Loop
use webalytics.Vitals.Core.{
  VitalName, lcp, fcp, cls, ttfb, inp, Rating, good, needs_improvement, poor, VitalSample, Vitals,
  Signal, visibility_change, pagehide, observe_web_vitals, receive,
}
use webalytics.Vitals.Core as Vitals

abbrev pub vital_text : VitalName → String
vital_text lcp = "LCP"
vital_text fcp = "FCP"
vital_text cls = "CLS"
vital_text ttfb = "TTFB"
vital_text inp = "INP"

abbrev pub rating_text : Rating → String
rating_text good = "good"
rating_text needs_improvement = "needs-improvement"
rating_text poor = "poor"

-- What happens in a page: something calls the tracker, or the browser delivers something.
pub data PageAction (V : Type 0) : Type 0 where
  calls : Action V → PageAction V
  delivers : Signal V → PageAction V

pub record PageState (V : Type 0) : Type 0 where
  pub tracker : State V
  pub vitals : Vitals V

module _ {V : Type 0} where
  -- The sample as the callback of `init` writes it into the event.
  abbrev pub to_vital : VitalSample V → Vital V
  to_vital v = record {
    name = vital_text v.name;
    value = v.value;
    rating = some (rating_text v.rating);
    id = some v.id;
    nav_type = v.nav_type;
  }

  -- The callback, for each sample in order.
  unfoldable pub forward : Globals → List (VitalSample V) → State V → State V
  forward g [] t = t
  forward g (v ∷ vs) t = forward g vs (step g (vital_reported (to_vital v)) t)

module _ (F : Floats) (page : Vitals.Page F.Number) where
  open F use {Number}

  -- What the collector reports while it handles a signal.
  abbrev pub news : Signal Number → Vitals Number → List (VitalSample Number)
  news x v = drop (length v.reports) (receive F page x v).reports

  unfoldable pub page_step : Globals → PageAction Number → PageState Number → PageState Number
  unfolding forward
  page_step g (calls a) p = record p { tracker = step g a p.tracker }
  page_step g (delivers pagehide) p = record {
    vitals = receive F page pagehide p.vitals;
    tracker = step g Loop.pagehide (forward g (news pagehide p.vitals) p.tracker);
  }
  page_step g (delivers (visibility_change hidden)) p = record {
    vitals = receive F page (visibility_change hidden) p.vitals;
    tracker =
        forward g (news (visibility_change hidden) p.vitals)
          (step g (Loop.visibility_change hidden) p.tracker);
  }
  page_step g (delivers x) p = record {
    vitals = receive F page x p.vitals;
    tracker = forward g (news x p.vitals) p.tracker;
  }

  unfoldable pub page_run : List (Globals × PageAction Number) → PageState Number → PageState Number
  page_run [] p = p
  page_run ((g, a) ∷ rest) p = page_run rest (page_step g a p)

  -- `init`, which reports the time to first byte at once, where there is one.
  unfoldable pub open_page : InitConfig → Globals → PageState Number
  open_page c g = record {
    vitals = observe_web_vitals F page;
    tracker = forward g (observe_web_vitals F page).reports (init c g);
  }
