-- ===== src/Tracker/Consent.antt =====
-- Do Not Track, the switch `setEnabled` and excluded paths: when a tracker stays silent.
use webalytics.Common.{
  String, Bool, true, false, List, [], ◌∷◌, ◌++◌, map, ◌≡◌, ◌≢◌, refl, sym, ap, ◌∙◌, arith, concat,
  append-nil, All, subst,
}
use webalytics.Tracker.Types.{CollectPayload, InitConfig}
use webalytics.Tracker.Browser.{Globals}
use webalytics.Tracker.Config.{
  Config, resolve_config, dnt_active, path_of, is_excluded, current_location,
}
use webalytics.Tracker.State.{Sent, State}
use webalytics.Tracker.Core.{
  flush_buffer, emit, pageview, track, flush, set_enabled, on_timer, on_microtask, dispatch,
  on_vital, on_click, unload_flush, init,
}
use webalytics.Tracker.Loop.{Action, call_set_enabled, timeout, step, run}
use webalytics.Tracker.Invariant.{IsBatch, IsValid, init-IsValid, run-IsValid}
use webalytics.Tracker.Delivery.{
  delivered, history, accepts, taken, recorded, history-run, history-run-init,
}

nothing_more {ℓ} : {A : Type ℓ} {xs ys : List A} → xs ≡ [] → ys ≡ [] → xs ++ ys ≡ []
nothing_more p q = rw (p, q)

append-nil_left {ℓ} : {A : Type ℓ} (xs ys : List A) → xs ++ ys ≡ [] → xs ≡ []
append-nil_left [] ys h = refl
append-nil_left (x ∷ xs) ys h = cc

module _ {V : Type 0} where
  taken_refused :
      (g : Globals) (a : Action V) (s : State V) → accepts g s ≡ false → taken g a s ≡ []
  taken_refused g a s h = rw h

  -- The configuration never changes; the switch changes by `setEnabled` alone.
  abbrev Keeps : State V → State V → Type 0
  Keeps s t = (t.config ≡ s.config) × (t.enabled ≡ s.enabled)

  emit-Keeps : (g : Globals) (p : CollectPayload V) (s : State V) → Keeps s (emit g p s)
  unfolding emit
  emit-Keeps g p s = (ground arith, ground arith)

  flush_buffer-Keeps : (s : State V) (unload : Bool) → Keeps s (flush_buffer s unload)
  unfolding flush_buffer
  flush_buffer-Keeps s unload = (ground arith, ground arith)

  on_timer-Keeps : (s : State V) → Keeps s (on_timer s)
  unfolding on_timer flush_buffer
  on_timer-Keeps s = (ground arith, ground arith)

  pub step-config : (g : Globals) (a : Action V) (s : State V) → (step g a s).config ≡ s.config
  unfolding step pageview track flush set_enabled on_microtask dispatch on_vital on_click
      unload_flush
  step-config g timeout s = (on_timer-Keeps s).0
  step-config g a s = grind (arith, emit-Keeps, flush_buffer-Keeps)

  step-enabled :
      (g : Globals) (a : Action V) (s : State V)
      → a ≢ call_set_enabled true
      → s.enabled ≡ false
      → (step g a s).enabled ≡ false
  unfolding step pageview track flush set_enabled on_microtask dispatch on_vital on_click
      unload_flush
  step-enabled g timeout s n h = (on_timer-Keeps s).1 ∙ h
  step-enabled g (call_set_enabled true) s n h = absurd (n refl)
  step-enabled g (call_set_enabled false) s n h = refl
  step-enabled g a s n h = grind (arith, emit-Keeps, flush_buffer-Keeps)

  -- Nothing but `setEnabled(false)` turns a tracker off.
  pub step_keeps_on :
      (g : Globals) (a : Action V) (s : State V)
      → a ≢ call_set_enabled false
      → s.enabled ≡ true
      → (step g a s).enabled ≡ true
  unfolding step pageview track flush set_enabled on_microtask dispatch on_vital on_click
      unload_flush
  step_keeps_on g timeout s n h = (on_timer-Keeps s).1 ∙ h
  step_keeps_on g (call_set_enabled false) s n h = absurd (n refl)
  step_keeps_on g (call_set_enabled true) s n h = refl
  step_keeps_on g a s n h = grind (arith, emit-Keeps, flush_buffer-Keeps)

  -- Nobody turns tracking on.
  abbrev pub NoOptIn : List (Globals × Action V) → Type 0
  NoOptIn as' = All (λ x. x.1 ≢ call_set_enabled true) as'

  recorded_disabled :
      (as' : List (Globals × Action V)) (s : State V)
      → NoOptIn as'
      → s.enabled ≡ false
      → recorded as' s ≡ []
  unfolding recorded
  recorded_disabled [] s n h = refl
  recorded_disabled ((g, a) ∷ rest) s (na, n) h =
      nothing_more (taken_refused g a s (ground arith))
        (recorded_disabled rest (step g a s) n (step-enabled g a s na h))

  -- The page shows an excluded path at every step.
  abbrev pub OnExcluded : Config → List (Globals × Action V) → Type 0
  OnExcluded cfg as' =
      All (λ x. is_excluded (path_of (current_location cfg x.0)) cfg.exclude_paths ≡ true) as'

  excluded-accepts :
      (cfg : Config) (g : Globals) (s : State V)
      → s.config ≡ cfg
      → is_excluded (path_of (current_location cfg g)) cfg.exclude_paths ≡ true
      → accepts g s ≡ false
  excluded-accepts cfg g s same e =
      let e' : is_excluded (path_of (current_location s.config g)) s.config.exclude_paths ≡ true =
        subst (λ k. is_excluded (path_of (current_location k g)) k.exclude_paths ≡ true) (sym same)
          e in
      ground arith

  recorded_excluded :
      (cfg : Config) (as' : List (Globals × Action V)) (s : State V)
      → s.config ≡ cfg
      → OnExcluded cfg as'
      → recorded as' s ≡ []
  unfolding recorded
  recorded_excluded cfg [] s same h = refl
  recorded_excluded cfg ((g, a) ∷ rest) s same (e, h) =
      nothing_more (taken_refused g a s (excluded-accepts cfg g s same e))
        (recorded_excluded cfg rest (step g a s) (step-config g a s ∙ same) h)

  nothing_sent :
      (host : String) (bs : List (Sent V))
      → All (IsBatch host) bs
      → concat (map (λ b. b.events) bs) ≡ []
      → bs ≡ []
  nothing_sent host [] h e = refl
  nothing_sent host (b ∷ bs) (p, h) e = absurd (p.1 (append-nil_left b.events _ e))

  silent :
      (c : InitConfig) (g : Globals) (as' : List (Globals × Action V))
      → recorded as' (init c g) ≡ []
      → (run as' (init c g)).sent ≡ []
  silent c g as' h =
      let s = run as' (init c g) in
      let none_taken : history s ≡ [] = history-run-init c g as' ∙ h in
      let v : IsValid s = run-IsValid as' (init c g) (init-IsValid c g) in
      nothing_sent s.config.host s.sent v.batches (append-nil_left (delivered s) s.buf none_taken)

  -- With an active opt-out signal (Do Not Track or Global Privacy Control, unless the configuration
  -- ignores them) nothing is ever sent, as long as nobody calls `setEnabled(true)`.
  pub dnt_silent :
      (c : InitConfig) (g : Globals) (as' : List (Globals × Action V))
      → dnt_active c g ≡ true
      → NoOptIn as'
      → (run as' (init c g)).sent ≡ []
  dnt_silent c g as' d n =
      silent c g as' (recorded_disabled as' (init c g) n (unfold init in ground arith))

  -- While the page shows excluded paths only, nothing is ever sent.
  pub excluded_silent :
      (c : InitConfig) (g : Globals) (as' : List (Globals × Action V))
      → OnExcluded (resolve_config c) as'
      → (run as' (init c g)).sent ≡ []
  excluded_silent c g as' h =
      silent c g as' (recorded_excluded (resolve_config c) as' (init c g) (unfold init in refl) h)

  -- After `setEnabled(false)` nothing more is taken, whatever happens until tracking is turned on:
  -- what was given to the transport and what is buffered together stay as they were.
  pub disabled_takes_nothing :
      (g : Globals) (as' : List (Globals × Action V)) (s : State V)
      → NoOptIn as'
      → history (run as' (step g (call_set_enabled false) s)) ≡ history s
  unfolding step set_enabled
  disabled_takes_nothing g as' s n =
      let off : State V = record s { enabled = false } in
      history-run as' off
      ∙ ap (λ es. history off ++ es) (recorded_disabled as' off n refl)
      ∙ append-nil (history s)
