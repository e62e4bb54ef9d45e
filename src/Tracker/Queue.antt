-- ===== src/Tracker/Queue.antt =====
-- The contract of a tracker of packages/tracker/src/core.ts: a queue of events from which everything
-- is handed over at once.
use webalytics.Common.{List, [], ◌∷◌, ◌++◌, if◌then◌else◌}
use webalytics.Tracker.Types.{CollectPayload}
use webalytics.Tracker.Browser.{Globals}
use webalytics.Tracker.State.{State}
use webalytics.Tracker.Loop.{Action, step}
use webalytics.Tracker.Delivery.{delivered, taken}
use webalytics.Tracker.Liveness.{hands_over}

-- What was given to the transport, and what waits.
pub record Queue (E : Type 0) : Type 0 where
  pub given : List E
  pub waiting : List E

-- One step: everything that waits is handed over, or some events come.
pub data QueueStep (E : Type 0) : Type 0 where
  hand_over : QueueStep E
  come : List E → QueueStep E

unfoldable pub queue_step : {E : Type 0} → QueueStep E → Queue E → Queue E
queue_step hand_over q = record { given = q.given ++ q.waiting; waiting = [] }
queue_step (come es) q = record q { waiting = q.waiting ++ es }

unfoldable pub queue_run : {E : Type 0} → List (QueueStep E) → Queue E → Queue E
unfolding queue_step
queue_run [] q = q
queue_run (x ∷ xs) q = queue_run xs (queue_step x q)

abbrev tail_of {ℓ} : {A : Type ℓ} → List A → List A
tail_of [] = []
tail_of (x ∷ xs) = xs

module _ {V : Type 0} where
  -- The queue that a tracker is.
  abbrev pub queue_of : State V → Queue (CollectPayload V)
  queue_of s = record { given = delivered s; waiting = s.buf }

  -- The step of the queue that an action is.
  abbrev pub label : Globals → Action V → State V → QueueStep (CollectPayload V)
  label g a s = if hands_over s.has_window a then hand_over else come (taken g a s)

  unfoldable pub labels : List (Globals × Action V) → State V → List (QueueStep (CollectPayload V))
  labels [] s = []
  labels ((g, a) ∷ xs) s = label g a s ∷ labels xs (step g a s)
