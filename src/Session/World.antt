-- ===== src/Session/World.antt =====
-- A tracker with its default transport and the network between it and the server: a request that
-- packages/tracker/src/transport.ts makes is under way until it arrives or fails, requests overtake
-- one another, and one that fails or is refused is not made again: `send` swallows the rejection and
-- does not read what `sendBeacon` answers.
use webalytics.Common.{String, Option, List, [], ◌∷◌, ◌++◌, ◌+++◌, ◌≡◌, length, drop, strip_slashes}
use webalytics.Tracker.Types.{CollectPayload, InitConfig}
use webalytics.Tracker.Browser.{Globals}
use webalytics.Tracker.State.{State}
use webalytics.Tracker.Core.{init}
use webalytics.Tracker.Loop.{Action, run}
use webalytics.Transport.Core.{Browser, Call}
use webalytics.Transport.Sending.{accepted, refusals}
use webalytics.Session.{network}

-- What happened in the page, and the requests: those under way, those that reached the server, in
-- the order in which they did, and those that failed or that the browser refused.
pub record World (V : Type 0) : Type 0 where
  pub trace : List (Globals × Action V)
  pub waiting : List (String × String)
  pub arrived : List (String × String)
  pub lost : List (String × String)

module _ {V : Type 0} where
  -- Nothing has happened yet.
  abbrev pub opening : World V
  opening = record { trace = []; waiting = []; arrived = []; lost = [] }

  abbrev pub page : InitConfig → Globals → World V → State V
  page c g w = run w.trace (init c g)

abbrev pub collect_url : InitConfig → String
collect_url c = strip_slashes c.host +++ "/collect"

module _ {V : Type 0} (b : Browser) (stringify : CollectPayload V → Option String) (c : InitConfig)
    (g : Globals) where
  -- The calls that a page has made to the network after some actions.
  abbrev pub made : List (Globals × Action V) → List Call
  made trace = (network b stringify (run trace (init c g))).calls

  -- The page does something. Of the requests it makes, those that the browser takes are under way,
  -- and the beacons that it refuses are lost.
  abbrev pub act : Globals → Action V → World V → World V
  act h a w =
      let trace = w.trace ++ (h, a) ∷ [] in
      let calls = drop (length (made w.trace)) (made trace) in
      record w {
        trace = trace;
        waiting = w.waiting ++ accepted calls;
        lost = w.lost ++ refusals calls;
      }

  pub data Move : World V → World V → Type 0 where
    acts : (h : Globals) (a : Action V) (w : World V) → Move w (act h a w)
    arrives :
        (xs ys : List (String × String)) (r : String × String) (w : World V)
        → w.waiting ≡ xs ++ r ∷ ys
        → Move w (record w { waiting = xs ++ ys; arrived = w.arrived ++ r ∷ [] })
    fails :
        (xs ys : List (String × String)) (r : String × String) (w : World V)
        → w.waiting ≡ xs ++ r ∷ ys
        → Move w (record w { waiting = xs ++ ys; lost = w.lost ++ r ∷ [] })

  pub data Reach (w : World V) : World V → Type 0 where
    here : Reach w w
    next : {u v : World V} → Reach w u → Move u v → Reach w v
