-- ===== src/Tracker/Runs.antt =====
-- What every run of a tracker of packages/tracker/src/core.ts keeps: the window that `init` saw and
-- the transport that it chose.
use webalytics.Common.{Bool, List, [], ◌∷◌, ◌++◌, ◌≡◌, refl, ◌∙◌, arith}
use webalytics.Tracker.Types.{CollectPayload, InitConfig}
use webalytics.Tracker.Browser.{Globals}
use webalytics.Tracker.State.{State}
use webalytics.Tracker.Core.{
  has, schedule_flush, send_batch, flush_buffer, emit, pageview, track, flush, set_enabled,
  on_timer, on_microtask, dispatch, on_vital, on_click, unload_flush, init,
}
use webalytics.Tracker.Loop.{Action, step, run}

pub init-has_window :
    (E : Type 0) (c : InitConfig) (g : Globals) → (init {V = E} c g).has_window ≡ has g.window
unfolding init
init-has_window E c g = refl

module _ {V : Type 0} where
  pub run-append :
      (xs ys : List (Globals × Action V)) (s : State V) → run (xs ++ ys) s ≡ run ys (run xs s)
  unfolding run
  run-append [] ys s = refl
  run-append ((g, a) ∷ xs) ys s = run-append xs ys (step g a s)

  emit-has_window :
      (g : Globals) (p : CollectPayload V) (s : State V) → (emit g p s).has_window ≡ s.has_window
  unfolding emit schedule_flush
  emit-has_window g p s = ground arith

  flush_buffer-has_window :
      (s : State V) (unload : Bool) → (flush_buffer s unload).has_window ≡ s.has_window
  unfolding flush_buffer send_batch
  flush_buffer-has_window s unload = ground arith

  pub step-has_window :
      (g : Globals) (a : Action V) (s : State V) → (step g a s).has_window ≡ s.has_window
  unfolding step pageview track flush set_enabled on_timer on_microtask dispatch on_vital on_click
      unload_flush
  step-has_window g a s = grind (arith, emit-has_window, flush_buffer-has_window)

  pub run-has_window :
      (xs : List (Globals × Action V)) (s : State V) → (run xs s).has_window ≡ s.has_window
  unfolding run
  run-has_window [] s = refl
  run-has_window ((g, a) ∷ xs) s = run-has_window xs (step g a s) ∙ step-has_window g a s

  -- The transport stays the one that `init` chose.
  step-transport : (g : Globals) (a : Action V) (s : State V) → (step g a s).transport ≡ s.transport
  unfolding step pageview track flush set_enabled on_timer on_microtask dispatch on_vital on_click
      unload_flush emit schedule_flush flush_buffer send_batch
  step-transport g a s = ground arith

  pub run-transport :
      (xs : List (Globals × Action V)) (s : State V) → (run xs s).transport ≡ s.transport
  unfolding run
  run-transport [] s = refl
  run-transport ((g, a) ∷ xs) s = run-transport xs (step g a s) ∙ step-transport g a s
