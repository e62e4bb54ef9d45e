-- ===== src/Tracker/Invariant.antt =====
-- What holds of a tracker between two steps of the event loop.
use webalytics.Common.{
  ℕ, String, Bool, true, false, Option, none, some, List, [], ◌∷◌, ◌≡◌, ◌≢◌, refl, sym, ◌∙◌,
  List-cases, arith, All, All-append, inl, inr,
}
use webalytics.Tracker.Types.{CollectPayload, Vital, Members, InitConfig}
use webalytics.Tracker.Browser.{Globals}
use webalytics.Tracker.State.{Sent, State}
use webalytics.Tracker.Core.{
  send_batch, flush_buffer, emit, pageview, track, flush, set_enabled, on_timer, on_microtask,
  dispatch, on_vital, on_click, unload_flush, init,
}
use webalytics.Tracker.Loop.{
  Action, call_pageview, call_track, call_identify, call_flush, call_set_enabled, timeout,
  microtask, history_change, vital_reported, click, pagehide, visibility_change, step, run,
}

abbrev pub armed_timers : Option ℕ → List ℕ
armed_timers none = []
armed_timers (some t) = t ∷ []

tail-armed_timers : (o : Option ℕ) (t : ℕ) (ts : List ℕ) → t ∷ ts ≡ armed_timers o → ts ≡ []
tail-armed_timers none t ts h = cc
tail-armed_timers (some u) t ts h = cc

module _ {V : Type 0} where
  -- A batch as the tracker sends it: to the configured host, with at least one event.
  abbrev pub IsBatch : String → Sent V → Type 0
  IsBatch host b = (b.host ≡ host) × (b.events ≢ [])

  -- A buffered event has a timeout that will send it; there is at most one timeout, the one that
  -- `flushTimer` names.
  pub record IsValid (s : State V) : Type 0 where
    pub armed : s.flush_timer ≡ none → s.buf ≡ []
    pub timers : s.timers ≡ armed_timers s.flush_timer
    pub batches : All (IsBatch s.config.host) s.sent

  pub init-IsValid : (c : InitConfig) (g : Globals) → IsValid (init c g)
  unfolding init
  init-IsValid c g = record { armed = λ _. refl; timers = refl; batches = tt }

  pub emit-IsValid :
      (g : Globals) (p : CollectPayload V) (s : State V) → IsValid s → IsValid (emit g p s)
  unfolding emit
  emit-IsValid g p s v = ground arith

  pub emit-sent : (g : Globals) (p : CollectPayload V) (s : State V) → (emit g p s).sent ≡ s.sent
  unfolding emit
  emit-sent g p s = ground arith

  -- Sending all that is buffered needs no timeout.
  send_batch-IsValid :
      (s : State V) (es : List (CollectPayload V)) (unload : Bool)
      → s.timers ≡ armed_timers s.flush_timer
      → All (IsBatch s.config.host) s.sent
      → (es ≡ [] → s.buf ≡ [])
      → IsValid (send_batch s es unload)
  unfolding send_batch
  send_batch-IsValid s [] unload t b h = record { armed = λ _. h refl; timers = t; batches = b }
  send_batch-IsValid s (e ∷ es) unload t b h = record {
    armed = λ _. refl;
    timers = t;
    batches = All-append (IsBatch s.config.host) s.sent _ b ((refl, λ p. cc), tt);
  }

  pub flush_buffer-IsValid :
      (s : State V) (unload : Bool) → IsValid s → IsValid (flush_buffer s unload)
  unfolding flush_buffer
  flush_buffer-IsValid s unload v = send_batch-IsValid s s.buf unload v.timers v.batches (λ e. e)

  -- A flush leaves nothing buffered.
  pub flush_buffer-buf : (s : State V) (unload : Bool) → (flush_buffer s unload).buf ≡ []
  unfolding flush_buffer
  flush_buffer-buf s unload = ground arith

  on_timer-IsValid : (s : State V) → IsValid s → IsValid (on_timer s)
  unfolding on_timer
  on_timer-IsValid s v = elim (List-cases s.timers) [
    | inl e ↦ rw (e, on_timer) v
    | inr (t, ts, e) ↦
        let rest : ts ≡ [] = tail-armed_timers s.flush_timer t ts (sym e ∙ v.timers) in
        rw (e, on_timer)
          (unfold flush_buffer in
            send_batch-IsValid (record s { timers = ts; flush_timer = none }) s.buf false rest
              v.batches (λ p. p))
  ]

  pageview-IsValid :
      (url : Option String) (g : Globals) (s : State V) → IsValid s → IsValid (pageview url g s)
  unfolding pageview
  pageview-IsValid url g s v = emit-IsValid g _ s v

  track-IsValid :
      (name : String) (props : Option Members) (g : Globals) (s : State V)
      → IsValid s
      → IsValid (track name props g s)
  unfolding track
  track-IsValid name props g s v = emit-IsValid g _ s v

  on_vital-IsValid :
      (x : Vital V) (g : Globals) (s : State V) → IsValid s → IsValid (on_vital x g s)
  unfolding on_vital
  on_vital-IsValid x g s v = emit-IsValid g _ s v

  pub step-IsValid : (g : Globals) (a : Action V) (s : State V) → IsValid s → IsValid (step g a s)
  unfolding step flush set_enabled on_microtask dispatch on_click unload_flush
  step-IsValid g timeout s v = on_timer-IsValid s v
  step-IsValid g (call_pageview url) s v = pageview-IsValid url g s v
  step-IsValid g (call_track name props) s v = track-IsValid name props g s v
  step-IsValid g (call_identify traits) s v = v
  step-IsValid g call_flush s v = flush_buffer-IsValid s false v
  step-IsValid g (call_set_enabled b) s v = ground arith
  step-IsValid g microtask s v = grind (arith, pageview-IsValid)
  step-IsValid g history_change s v = grind (arith, pageview-IsValid)
  step-IsValid g (vital_reported x) s v = ground (arith, on_vital-IsValid x g s)
  step-IsValid g (click target) s v = grind (arith, track-IsValid)
  step-IsValid g pagehide s v = ground (arith, flush_buffer-IsValid s true)
  step-IsValid g (visibility_change hidden) s v = ground (arith, flush_buffer-IsValid s true)

  -- Whatever happens to a tracker whose state satisfies the invariant, its state goes on satisfying
  -- it.
  pub run-IsValid :
      (as' : List (Globals × Action V)) (s : State V) → IsValid s → IsValid (run as' s)
  unfolding run
  run-IsValid [] s v = v
  run-IsValid ((g, a) ∷ rest) s v = run-IsValid rest (step g a s) (step-IsValid g a s v)
