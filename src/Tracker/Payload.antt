-- ===== src/Tracker/Payload.antt =====
-- What every batch and every event that leaves a tracker carries.
use webalytics.Common.{
  String, Option, none, some, List, [], ◌∷◌, ◌≡◌, refl, sym, ◌∙◌, subst, arith, All, All-append,
  All-append_left, strip_slashes, if◌then◌else◌, truthy,
}
use webalytics.Tracker.Types.{CollectPayload, InitConfig}
use webalytics.Tracker.Browser.{Globals}
use webalytics.Tracker.Config.{resolve_config}
use webalytics.Tracker.State.{State}
use webalytics.Tracker.Event.{keep_truthy, base_event, pageview_event, track_event, vital_event}
use webalytics.Tracker.Core.{init}
use webalytics.Tracker.Loop.{Action, call_pageview, step, run}
use webalytics.Tracker.Invariant.{IsBatch, IsValid, init-IsValid, run-IsValid}
use webalytics.Tracker.Delivery.{delivered, offered, taken, recorded, history-run-init}
use webalytics.Tracker.Consent.{step-config}

-- The environment that events carry: an empty or missing one reads "production".
abbrev pub environment_of : Option String → String
environment_of none = "production"
environment_of (some e) = if truthy e then e else "production"

module _ {V : Type 0} where
  abbrev pub IsStamped : InitConfig → CollectPayload V → Type 0
  IsStamped c e =
      (e.site_id ≡ c.site_id)
      × (e.environment ≡ some (environment_of c.environment))
      × (e.release ≡ keep_truthy c.release)

  pub offered-IsStamped :
      (c : InitConfig) (g : Globals) (a : Action V) (s : State V)
      → s.config ≡ resolve_config c
      → All (IsStamped c) (offered g a s)
  unfolding base_event pageview_event track_event vital_event resolve_config
  offered-IsStamped c g (call_pageview url) s h = ground arith
  offered-IsStamped c g a s h = ground arith

  taken-IsStamped :
      (c : InitConfig) (g : Globals) (a : Action V) (s : State V)
      → s.config ≡ resolve_config c
      → All (IsStamped c) (taken g a s)
  taken-IsStamped c g a s h = ground (arith, offered-IsStamped c g a s h)

  recorded-IsStamped :
      (c : InitConfig) (as' : List (Globals × Action V)) (s : State V)
      → s.config ≡ resolve_config c
      → All (IsStamped c) (recorded as' s)
  unfolding recorded
  recorded-IsStamped c [] s h = tt
  recorded-IsStamped c ((g, a) ∷ rest) s h =
      All-append (IsStamped c) (taken g a s) (recorded rest (step g a s))
        (taken-IsStamped c g a s h) (recorded-IsStamped c rest (step g a s) (step-config g a s ∙ h))

  pub run-config : (as' : List (Globals × Action V)) (s : State V) → (run as' s).config ≡ s.config
  unfolding run
  run-config [] s = refl
  run-config ((g, a) ∷ rest) s = run-config rest (step g a s) ∙ step-config g a s

  -- Every batch that a tracker hands to its transport goes to the configured host without its
  -- trailing slashes and is not empty, and every event in it carries the configured site, the
  -- environment (by default "production") and the release, if there is one.
  pub sent_well_formed :
      (c : InitConfig) (g : Globals) (as' : List (Globals × Action V))
      → All (IsBatch (strip_slashes c.host)) (run as' (init c g)).sent
        × All (IsStamped c) (delivered (run as' (init c g)))
  unfolding init resolve_config
  sent_well_formed c g as' =
      let s = run as' (init c g) in
      let v : IsValid s = run-IsValid as' (init c g) (init-IsValid c g) in
      let all = recorded-IsStamped c as' (init c g) refl in
      (
        subst (λ k. All (IsBatch k.host) s.sent) (run-config as' (init c g)) v.batches,
        All-append_left (IsStamped c) (delivered s) s.buf
            (subst (All (IsStamped c)) (sym (history-run-init c g as')) all),
      )
