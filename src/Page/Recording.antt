-- ===== src/Page/Recording.antt =====
-- The vitals among the events that a tracker of packages/tracker/src/core.ts records.
use webalytics.Common.{
  true, false, Option, none, some, List, [], ◌∷◌, ◌++◌, map, ◌≡◌, ◌≢◌, refl, sym, ap, ◌∙◌, subst,
  arith, append_assoc, append-nil,
}
use webalytics.Tracker.Types.{Vital, CollectPayload}
use webalytics.Tracker.Browser.{Globals}
use webalytics.Tracker.Config.{is_excluded}
use webalytics.Tracker.State.{State}
use webalytics.Tracker.Event.{base_event, pageview_event, track_event, vital_event}
use webalytics.Tracker.Core.{on_vital, unload_flush}
use webalytics.Tracker.Loop.{Action, vital_reported, call_set_enabled, step}
use webalytics.Tracker.Loop as Loop
use webalytics.Tracker.Delivery.{
  delivered_of_empty, delivered, history, accepts, taken, offered, history-step, emit-buf,
}
use webalytics.Tracker.Invariant.{flush_buffer-buf}
use webalytics.Tracker.Liveness.{step-sent}
use webalytics.Tracker.Runs.{step-has_window}
use webalytics.Tracker.Consent.{step-config, step_keeps_on}
use webalytics.Vitals.Core.{VitalSample}
use webalytics.Page.{to_vital, forward}

-- The vitals that some events carry.
abbrev pub vital_list : {V : Type 0} → Option (Vital V) → List (Vital V)
vital_list none = []
vital_list (some v) = v ∷ []

unfoldable pub vitals_in : {V : Type 0} → List (CollectPayload V) → List (Vital V)
vitals_in [] = []
vitals_in (e ∷ es) = vital_list e.vital ++ vitals_in es

vitals_in-append :
    {V : Type 0} (xs ys : List (CollectPayload V))
    → vitals_in (xs ++ ys) ≡ vitals_in xs ++ vitals_in ys
unfolding vitals_in
vitals_in-append [] ys = refl
vitals_in-append (x ∷ xs) ys =
    ap (λ r. vital_list x.vital ++ r) (vitals_in-append xs ys)
    ∙ sym (append_assoc (vital_list x.vital) _ _)

module _ {V : Type 0} where
  -- A tracker in a window that takes every event, web vitals included.
  pub record IsReporting (t : State V) : Type 0 where
    pub on : t.enabled ≡ true
    pub window : t.has_window ≡ true
    pub web_vitals : t.config.auto_web_vitals ≡ true
    pub nothing_excluded : t.config.exclude_paths ≡ none

  -- The tracker stays switched on, and only the collector reports vitals.
  abbrev pub IsPlain : Action V → Type 0
  IsPlain (call_set_enabled false) = ⊥
  IsPlain (vital_reported v) = ⊥
  IsPlain _ = Unit

  reporting-accepts : (g : Globals) (t : State V) → IsReporting t → accepts g t ≡ true
  unfolding is_excluded
  reporting-accepts g t r = rw (r.on, r.nothing_excluded) refl

  step-IsReporting :
      (g : Globals) (a : Action V) (t : State V)
      → (a ≢ call_set_enabled false)
      → IsReporting t
      → IsReporting (step g a t)
  step-IsReporting g a t h r = record {
    on = step_keeps_on g a t h r.on;
    window = step-has_window g a t ∙ r.window;
    web_vitals = ap (λ c. c.auto_web_vitals) (step-config g a t) ∙ r.web_vitals;
    nothing_excluded = ap (λ c. c.exclude_paths) (step-config g a t) ∙ r.nothing_excluded;
  }

  taken-IsReporting :
      (g : Globals) (a : Action V) (t : State V) → IsReporting t → taken g a t ≡ offered g a t
  taken-IsReporting g a t r = rw (reporting-accepts g t r) refl

  -- Only a reported vital is in an event.
  plain-vitals :
      (g : Globals) (a : Action V) (t : State V) → IsPlain a → vitals_in (offered g a t) ≡ []
  unfolding vitals_in pageview_event track_event base_event
  plain-vitals g a t p = ground arith

  step-vitals :
      (g : Globals) (a : Action V) (t : State V)
      → IsReporting t
      → vitals_in (history (step g a t)) ≡ vitals_in (history t) ++ vitals_in (offered g a t)
  step-vitals g a t r =
      ap vitals_in (history-step g a t ∙ ap (λ es. history t ++ es) (taken-IsReporting g a t r))
      ∙ vitals_in-append (history t) (offered g a t)

  plain-on : (a : Action V) → IsPlain a → a ≢ call_set_enabled false
  plain-on a p h = subst IsPlain h p

  one-vital :
      (g : Globals) (v : VitalSample V) (t : State V)
      → IsReporting t
      → vitals_in (offered g (vital_reported (to_vital v)) t) ≡ to_vital v ∷ []
  unfolding vitals_in vital_event
  one-vital g v t r = rw (r.window, r.web_vitals) refl

  pub plain_step :
      (g : Globals) (a : Action V) (t : State V)
      → IsPlain a
      → IsReporting t
      → (vitals_in (history (step g a t)) ≡ vitals_in (history t)) × IsReporting (step g a t)
  plain_step g a t p r = (
    step-vitals g a t r
        ∙ ap (λ vs. vitals_in (history t) ++ vs) (plain-vitals g a t p)
        ∙ append-nil _,
    step-IsReporting g a t (plain-on a p) r,
  )

  pub forward-vitals :
      (g : Globals) (vs : List (VitalSample V)) (t : State V)
      → IsReporting t
      → (vitals_in (history (forward g vs t)) ≡ vitals_in (history t) ++ map to_vital vs)
        × IsReporting (forward g vs t)
  unfolding forward
  forward-vitals g [] t r = (sym (append-nil _), r)
  forward-vitals g (v ∷ vs) t r =
      let a = vital_reported (to_vital v) in
      let (later, s) = forward-vitals g vs (step g a t) (step-IsReporting g a t (λ h. cc) r) in
      (
        later
            ∙ ap (λ l. l ++ map to_vital vs)
                (step-vitals g a t r ∙ ap (λ l. vitals_in (history t) ++ l) (one-vital g v t r))
            ∙ append_assoc (vitals_in (history t)) (to_vital v ∷ []) (map to_vital vs),
        s,
      )

  pub forward-sent :
      (g : Globals) (vs : List (VitalSample V)) (t : State V) → (forward g vs t).sent ≡ t.sent
  unfolding forward
  forward-sent g [] t = refl
  forward-sent g (v ∷ vs) t =
      let a = vital_reported (to_vital v) in forward-sent g vs (step g a t) ∙ step-sent g a t refl

  vital-buf :
      (g : Globals) (v : Vital V) (t : State V)
      → (step g (vital_reported v) t).buf ≡ t.buf ++ taken g (vital_reported v) t
  unfolding step on_vital
  vital-buf g v t = ground (arith, emit-buf g (vital_event v t g) t, append-nil t.buf)

  pub forward-buf :
      (g : Globals) (vs : List (VitalSample V)) (t : State V)
      → IsReporting t
      → vitals_in (forward g vs t).buf ≡ vitals_in t.buf ++ map to_vital vs
  unfolding forward
  forward-buf g [] t r = sym (append-nil _)
  forward-buf g (v ∷ vs) t r =
      let a = vital_reported (to_vital v) in
      forward-buf g vs (step g a t) (step-IsReporting g a t (λ h. cc) r)
      ∙ ap (λ l. l ++ map to_vital vs)
          (ap vitals_in
              (vital-buf g (to_vital v) t ∙ ap (λ es. t.buf ++ es) (taken-IsReporting g a t r))
            ∙ vitals_in-append t.buf (offered g a t)
            ∙ ap (λ l. vitals_in t.buf ++ l) (one-vital g v t r))
      ∙ append_assoc (vitals_in t.buf) (to_vital v ∷ []) (map to_vital vs)

  -- When the page is hidden or left, a tracker in a window hands over all that it has.
  pub pagehide-buf : (g : Globals) (t : State V) → IsReporting t → (step g Loop.pagehide t).buf ≡ []
  unfolding step unload_flush
  pagehide-buf g t r = ground (arith, r.window, flush_buffer-buf t true)

  pub hidden-buf :
      (g : Globals) (t : State V)
      → IsReporting t
      → (step g (Loop.visibility_change true) t).buf ≡ []
  unfolding step unload_flush
  hidden-buf g t r = ground (arith, r.window, flush_buffer-buf t true)

  pub left-vitals :
      (g : Globals) (a : Action V) (t : State V)
      → IsPlain a
      → IsReporting t
      → (step g a t).buf ≡ []
      → vitals_in (delivered (step g a t)) ≡ vitals_in (history t)
  left-vitals g a t p r b =
      ap vitals_in (delivered_of_empty (step g a t) (history (step g a t)) b refl)
      ∙ (plain_step g a t p r).0
