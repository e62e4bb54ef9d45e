-- ===== src/Transport/Core.antt =====
-- packages/tracker/src/transport.ts: `createDefaultTransport`, its `send` and its set of promises
-- in flight. The network is kept in the state, as the list of calls made to it. `JSON.stringify`,
-- which may throw (`none`), the answers of `sendBeacon` and whether the browser has `sendBeacon` and
-- `fetch` are parameters.
use webalytics.Common.{
  ℕ, suc, String, Bool, true, false, not, ◌&&◌, Option, none, some, List, [], ◌∷◌, ◌++◌, ◌+++◌,
  ◌=ℕ◌, length, if◌then◌else◌,
}

-- `sendBeacon` answers whether the browser queued the request, or throws.
pub data BeaconResult : Type 0 where
  queued refused threw : BeaconResult

pub data Call : Type 0 where
  beacon : (url body : String) → BeaconResult → Call
  fetch : (url body : String) → (promise : ℕ) → Call

-- `pending` names the promises that `flush` waits for; `next` is a fresh name.
pub record Net : Type 0 where
  pub calls : List Call
  pub pending : List ℕ
  pub next : ℕ

pub record Browser : Type 0 where
  pub has_beacon : Bool
  pub has_fetch : Bool
  pub send_beacon : ℕ → BeaconResult  -- by the number of calls made before

unfoldable pub remove : ℕ → List ℕ → List ℕ
remove p [] = []
remove p (q ∷ qs) = if p =ℕ q then remove p qs else q ∷ remove p qs

unfoldable pub created : Net
created = record { calls = []; pending = []; next = 0 }

-- `track(fetch(url, …))`
unfoldable pub track_fetch : String → String → Net → Net
track_fetch url body n = record n {
  calls = n.calls ++ fetch url body n.next ∷ [];
  pending = n.pending ++ n.next ∷ [];
  next = suc n.next;
}

-- `finally(() => pending.delete(wrapped))`: a promise has settled, either way.
unfoldable pub settle : ℕ → Net → Net
unfolding remove
settle p n = record n { pending = remove p n.pending }

module _ (b : Browser) where
  unfoldable pub post_fetch : String → String → Net → Net
  unfolding track_fetch
  post_fetch url body n = if b.has_fetch then track_fetch url body n else n

  abbrev log_beacon : String → String → BeaconResult → Net → Net
  log_beacon url body r n = record n { calls = n.calls ++ beacon url body r ∷ [] }

  -- The `try` block; its handler goes on to `fetch`.
  unfoldable pub after_beacon : String → String → BeaconResult → Net → Net
  after_beacon url body queued n = log_beacon url body queued n
  after_beacon url body refused n = log_beacon url body refused n
  after_beacon url body threw n = post_fetch url body (log_beacon url body threw n)

  -- One round of the loop of `send`, once the body is there.
  unfoldable pub post : String → Bool → String → Net → Net
  post url unload body n =
      if unload && b.has_beacon
      then after_beacon url body (b.send_beacon (length n.calls)) n
      else post_fetch url body n

  module _ {E : Type 0} (stringify : E → Option String) where
    -- The loop of `send`; the flag says that an exception left it.
    unfoldable pub send_loop : String → Bool → List E → Net → Net × Bool
    send_loop url unload [] n = (n, false)
    send_loop url unload (ev ∷ events) n = elim (stringify ev) [
      | none ↦ (n, true)
      | some body ↦ send_loop url unload events (post url unload body n)
    ]

    unfoldable pub send : String → List E → Bool → Net → Net × Bool
    unfolding send_loop
    send host events unload n = send_loop (host +++ "/collect") unload events n

unfoldable pub member : ℕ → List ℕ → Bool
member p [] = false
member p (q ∷ qs) = if p =ℕ q then true else member p qs

-- `flush()`: the promises that its `Promise.all` is given.
unfoldable pub flush : Net → List ℕ
flush n = n.pending

-- Whether the promise of a `flush()` that found `waiting` in flight is resolved by now.
unfoldable pub flushed : List ℕ → Net → Bool
flushed [] n = true
flushed (p ∷ waiting) n = not (member p n.pending) && flushed waiting n
