-- ===== src/Tracker/State.antt =====
-- packages/tracker/src/core.ts: the tracker's state. What leaves the tracker is kept in it: `sent`
-- lists the calls of `transport.send`, `timers` the timeouts that the event loop still has to run,
-- `microtasks` the queued initial pageviews.
use webalytics.Common.{ℕ, String, Bool, Option, List}
use webalytics.Tracker.Types.{CollectPayload}
use webalytics.Tracker.Config.{Config}

-- One call of `transport.send(host, events, unload)`.
pub record Sent (V : Type 0) : Type 0 where
  pub host : String
  pub events : List (CollectPayload V)
  pub unload : Bool

pub data Transport : Type 0 where
  custom : Transport
  default : (debug : Bool) → Transport

pub record State (V : Type 0) : Type 0 where
  pub config : Config
  pub transport : Transport
  pub buf : List (CollectPayload V)
  pub flush_timer : Option ℕ
  pub enabled : Bool
  pub last_url : String
  pub has_window : Bool
  pub sent : List (Sent V)
  pub timers : List ℕ
  pub next_timer : ℕ
  pub microtasks : ℕ
