-- ===== src/Tracker/Liveness.antt =====
-- What becomes of an event in the end: the actions on which a tracker hands its buffer over, and
-- what they leave to the transport. packages/tracker/src/core.ts.
use webalytics.Common.{
  Bool, true, false, ◌&&◌, none, List, [], ◌∷◌, ◌++◌, map, ◌≡◌, refl, sym, ap, ◌∙◌, subst, arith,
  concat, concat-append, append_assoc, append-nil, map-append, if_elim, List-cases, inl, inr,
}
use webalytics.Tracker.Types.{CollectPayload, InitConfig}
use webalytics.Tracker.Browser.{Globals}
use webalytics.Tracker.State.{Sent, State}
use webalytics.Tracker.Core.{
  has, send_batch, flush_buffer, pageview, track, flush, set_enabled, on_timer, on_microtask,
  dispatch, on_vital, on_click, unload_flush, init,
}
use webalytics.Tracker.Loop.{
  Action, call_pageview, call_track, call_identify, call_flush, call_set_enabled, timeout,
  microtask, history_change, vital_reported, click, pagehide, visibility_change, step, run,
}
use webalytics.Tracker.Invariant.{IsValid, init-IsValid, run-IsValid, flush_buffer-buf, emit-sent}
use webalytics.Tracker.Runs.{init-has_window, run-append, run-has_window}
use webalytics.Tracker.Delivery.{
  delivered_of_empty, delivered, history, recorded, taken, history-step, history-run-init,
  on_timer-buf,
}

-- The actions that hand the buffer over, in a tracker with or without a window.
abbrev pub hands_over : {V : Type 0} → Bool → Action V → Bool
hands_over has_window timeout = true
hands_over has_window call_flush = true
hands_over has_window pagehide = has_window
hands_over has_window (visibility_change hidden) = has_window && hidden
hands_over has_window _ = false

module _ {V : Type 0} where
  -- An action that hands over leaves nothing in the buffer of a valid tracker.
  pub hands_over-buf :
      (g : Globals) (a : Action V) (s : State V)
      → IsValid s
      → hands_over s.has_window a ≡ true
      → (step g a s).buf ≡ []
  unfolding step flush unload_flush
  hands_over-buf g timeout s v h = on_timer-buf s v
  hands_over-buf g call_flush s v h = flush_buffer-buf s false
  hands_over-buf g pagehide s v h = ground (arith, flush_buffer-buf s true)
  hands_over-buf g (visibility_change hidden) s v h = ground (arith, flush_buffer-buf s true)
  hands_over-buf g (call_pageview url) s v h = ground arith
  hands_over-buf g (call_track name props) s v h = ground arith
  hands_over-buf g (call_identify t) s v h = ground arith
  hands_over-buf g (call_set_enabled b) s v h = ground arith
  hands_over-buf g microtask s v h = ground arith
  hands_over-buf g history_change s v h = ground arith
  hands_over-buf g (vital_reported x) s v h = ground arith
  hands_over-buf g (click x) s v h = ground arith

  -- What the transport was given once stays given.
  abbrev pub Extends : State V → State V → Type 0
  Extends s t = (more : List (Sent V)) × (t.sent ≡ s.sent ++ more)

  Extends-refl : (s t : State V) → t.sent ≡ s.sent → Extends s t
  Extends-refl s t h = ([], h ∙ sym (append-nil s.sent))

  Extends-trans : (s t u : State V) → Extends s t → Extends t u → Extends s u
  Extends-trans s t u (xs, h) (ys, k) =
      (xs ++ ys, k ∙ ap (λ d. d ++ ys) h ∙ append_assoc s.sent xs ys)

  send_batch-Extends :
      (s : State V) (es : List (CollectPayload V)) (unload : Bool)
      → Extends s (send_batch s es unload)
  unfolding send_batch
  send_batch-Extends s [] unload = Extends-refl s s refl
  send_batch-Extends s (e ∷ es) unload =
      (record { host = s.config.host; events = e ∷ es; unload = unload } ∷ [], refl)

  -- Any other action gives the transport nothing.
  pub step-sent :
      (g : Globals) (a : Action V) (s : State V)
      → hands_over true a ≡ false
      → (step g a s).sent ≡ s.sent
  unfolding step set_enabled pageview track on_microtask dispatch on_vital on_click
  step-sent g a s h = grind (arith, emit-sent)

  on_timer-Extends : (s : State V) → Extends s (on_timer s)
  unfolding on_timer flush_buffer
  on_timer-Extends s = elim (List-cases s.timers) [
    | inl e ↦ Extends-refl s (on_timer s) (rw (e, on_timer) refl)
    | inr (t, ts, e) ↦
        rw (e, on_timer)
          (send_batch-Extends (record s { timers = ts; flush_timer = none }) s.buf false)
  ]

  pub step-Extends : (g : Globals) (a : Action V) (s : State V) → Extends s (step g a s)
  unfolding step flush unload_flush flush_buffer
  step-Extends g timeout s = on_timer-Extends s
  step-Extends g call_flush s = send_batch-Extends s s.buf false
  step-Extends g pagehide s =
      if_elim (Extends s) s.has_window (λ _. send_batch-Extends s s.buf true)
        (λ _. Extends-refl s s refl)
  step-Extends g (visibility_change hidden) s =
      if_elim (Extends s) (s.has_window && hidden) (λ _. send_batch-Extends s s.buf true)
        (λ _. Extends-refl s s refl)
  step-Extends g (call_pageview url) s =
      Extends-refl s (step g (call_pageview url) s) (step-sent g (call_pageview url) s refl)
  step-Extends g (call_track name props) s =
      Extends-refl s (step g (call_track name props) s) (step-sent g (call_track name props) s refl)
  step-Extends g (call_identify t) s = Extends-refl s s refl
  step-Extends g (call_set_enabled b) s =
      Extends-refl s (step g (call_set_enabled b) s) (step-sent g (call_set_enabled b) s refl)
  step-Extends g microtask s = Extends-refl s (step g microtask s) (step-sent g microtask s refl)
  step-Extends g history_change s =
      Extends-refl s (step g history_change s) (step-sent g history_change s refl)
  step-Extends g (vital_reported x) s =
      Extends-refl s (step g (vital_reported x) s) (step-sent g (vital_reported x) s refl)
  step-Extends g (click x) s = Extends-refl s (step g (click x) s) (step-sent g (click x) s refl)

  run-Extends : (xs : List (Globals × Action V)) (s : State V) → Extends s (run xs s)
  unfolding run
  run-Extends [] s = Extends-refl s s refl
  run-Extends ((g, a) ∷ xs) s =
      Extends-trans s (step g a s) (run xs (step g a s)) (step-Extends g a s)
        (run-Extends xs (step g a s))

  delivered_more :
      (s t : State V) (more : List (Sent V))
      → t.sent ≡ s.sent ++ more
      → delivered t ≡ delivered s ++ concat (map (λ x. x.events) more)
  delivered_more s t more h = rw h simp (map-append, concat-append)

  handed_over :
      (h : Globals) (a : Action V) (after : List (Globals × Action V)) (s : State V)
      → IsValid s
      → hands_over s.has_window a ≡ true
      → (more : List (CollectPayload V)) × (delivered (run ((h, a) ∷ after) s) ≡ history s ++ more)
  unfolding run
  handed_over h a after s v hands =
      let t = step h a s in
      let now : delivered t ≡ history s ++ taken h a s =
        delivered_of_empty t _ (hands_over-buf h a s v hands) (history-step h a s) in
      let (batches, grown) = run-Extends after t in
      let later = concat (map (λ x. x.events) batches) in
      (
        taken h a s ++ later,
        delivered_more t (run after t) batches grown
            ∙ ap (λ d. d ++ later) now
            ∙ append_assoc (history s) (taken h a s) later,
      )

  pub taken_nothing :
      (w : Bool) (g : Globals) (a : Action V) (s : State V)
      → hands_over w a ≡ true
      → taken g a s ≡ []
  taken_nothing w g a s h = ground arith

  hands-run-init :
      (c : InitConfig) (g : Globals) (a : Action V) (xs : List (Globals × Action V))
      → hands_over (has g.window) a ≡ true
      → hands_over (run xs (init c g)).has_window a ≡ true
  hands-run-init c g a xs =
      subst (λ w. hands_over w a ≡ true)
        (sym (run-has_window xs (init c g) ∙ init-has_window V c g))

  -- Every event that is taken is handed to the transport in the end: once a timeout runs, somebody
  -- calls `flush()`, or the page is hidden or left, all that was taken before has been given to the
  -- transport, once and in order, and whatever happens later only adds to it.
  pub eventually_delivered :
      (c : InitConfig) (g h : Globals) (a : Action V) (before after : List (Globals × Action V))
      → hands_over (has g.window) a ≡ true
      → (more : List (CollectPayload V)) × (delivered (run (before ++ (h, a) ∷ after) (init c g))
          ≡ recorded before (init c g) ++ more)
  eventually_delivered c g h a before after hands =
      let s = run before (init c g) in
      let (more, all) =
        handed_over h a after s (run-IsValid before (init c g) (init-IsValid c g))
          (hands-run-init c g a before hands) in
      (
        more,
        ap delivered (run-append before ((h, a) ∷ after) (init c g))
            ∙ all
            ∙ ap (λ es. es ++ more) (history-run-init c g before),
      )

  -- Right after an action that hands over, the transport was given all that was taken before.
  pub handed_now :
      (c : InitConfig) (g h : Globals) (a : Action V) (before : List (Globals × Action V))
      → hands_over (has g.window) a ≡ true
      → delivered (step h a (run before (init c g))) ≡ recorded before (init c g)
  handed_now c g h a before hands =
      let s = run before (init c g) in
      delivered_of_empty (step h a s) (recorded before (init c g))
        (hands_over-buf h a s (run-IsValid before (init c g) (init-IsValid c g))
          (hands-run-init c g a before hands))
        (history-step h a s
          ∙ ap (λ es. history s ++ es) (taken_nothing (has g.window) h a s hands)
          ∙ append-nil (history s)
          ∙ history-run-init c g before)

  recorded_then :
      (c : InitConfig) (g h : Globals) (a : Action V) (before : List (Globals × Action V))
      → recorded (before ++ (h, a) ∷ []) (init c g)
        ≡ recorded before (init c g) ++ taken h a (run before (init c g))
  unfolding run
  recorded_then c g h a before =
      let s = run before (init c g) in
      sym (history-run-init c g (before ++ (h, a) ∷ []))
      ∙ ap history (run-append before ((h, a) ∷ []) (init c g))
      ∙ history-step h a s
      ∙ ap (λ es. es ++ taken h a s) (history-run-init c g before)

  -- An action that hands over takes nothing itself.
  pub recorded_handed :
      (c : InitConfig) (g h : Globals) (a : Action V) (before : List (Globals × Action V))
      → hands_over (has g.window) a ≡ true
      → recorded (before ++ (h, a) ∷ []) (init c g) ≡ recorded before (init c g)
  recorded_handed c g h a before hands =
      recorded_then c g h a before
      ∙ ap (λ es. recorded before (init c g) ++ es)
          (taken_nothing (has g.window) h a (run before (init c g)) hands)
      ∙ append-nil _
