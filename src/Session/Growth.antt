-- ===== src/Session/Growth.antt =====
-- The calls that a page makes to the network are only added to, and each request among them is one
-- that the browser took or refused: packages/tracker/src/transport.ts, packages/tracker/src/core.ts.
use webalytics.Common.{
  String, Option, Bool, false, if_elim, Option-cases, inl, inr, ◌&&◌, List, [], ◌∷◌, ◌++◌, ◌+++◌,
  ◌≡◌, refl, sym, ap, ◌∙◌, length, append_assoc, append-nil, Perm, perm_middle,
}
use mathlib.Core.List.Perm
use webalytics.Tracker.Types.{CollectPayload, InitConfig}
use webalytics.Tracker.Browser.{Globals}
use webalytics.Tracker.State.{Sent}
use webalytics.Tracker.Core.{init}
use webalytics.Tracker.Loop.{Action, run}
use webalytics.Tracker.Liveness.{step-Extends}
use webalytics.Tracker.Runs.{run-append}
use webalytics.Transport.Core.{
  BeaconResult, queued, refused, threw, Call, beacon, fetch, Browser, Net, track_fetch, post_fetch,
  after_beacon, post, send_loop, send, created,
}
use webalytics.Transport.Sending.{requests, accepted, refusals}
use webalytics.Session.{network, send_all, network-default, run-default}

-- A request was taken or refused.
pub taken_or_refused : (cs : List Call) → Perm (accepted cs ++ refusals cs) (requests cs)
unfolding accepted refusals requests
taken_or_refused [] = Perm.refl []
taken_or_refused (beacon url body queued ∷ cs) = Perm.cons (url, body) (taken_or_refused cs)
taken_or_refused (beacon url body refused ∷ cs) =
    Perm.trans (perm_middle (accepted cs) (refusals cs))
      (Perm.cons (url, body) (taken_or_refused cs))
taken_or_refused (beacon url body threw ∷ cs) = taken_or_refused cs
taken_or_refused (fetch url body p ∷ cs) = Perm.cons (url, body) (taken_or_refused cs)

abbrev pub Grows : Net → Net → Type 0
Grows n m = (more : List Call) × (m.calls ≡ n.calls ++ more)

Grows-refl : (n : Net) → Grows n n
Grows-refl n = ([], sym (append-nil n.calls))

Grows-trans : (n m k : Net) → Grows n m → Grows m k → Grows n k
Grows-trans n m k (xs, h) (ys, e) =
    (xs ++ ys, e ∙ ap (λ cs. cs ++ ys) h ∙ append_assoc n.calls xs ys)

module _ (b : Browser) where
  post_fetch-Grows : (url body : String) (n : Net) → Grows n (post_fetch b url body n)
  unfolding post_fetch track_fetch
  post_fetch-Grows url body n =
      if_elim (Grows n) b.has_fetch (λ _. (fetch url body n.next ∷ [], refl)) (λ _. Grows-refl n)

  after_beacon-Grows :
      (url body : String) (r : BeaconResult) (n : Net) → Grows n (after_beacon b url body r n)
  unfolding after_beacon
  after_beacon-Grows url body queued n = (beacon url body queued ∷ [], refl)
  after_beacon-Grows url body refused n = (beacon url body refused ∷ [], refl)
  after_beacon-Grows url body threw n =
      let m = record n { calls = n.calls ++ beacon url body threw ∷ [] } in
      Grows-trans n m (post_fetch b url body m) (beacon url body threw ∷ [], refl)
        (post_fetch-Grows url body m)

  post-Grows :
      (url : String) (unload : Bool) (body : String) (n : Net) → Grows n (post b url unload body n)
  unfolding post
  post-Grows url unload body n =
      if_elim (Grows n) (unload && b.has_beacon)
        (λ _. after_beacon-Grows url body (b.send_beacon (length n.calls)) n)
        (λ _. post_fetch-Grows url body n)

  module _ {V : Type 0} (stringify : CollectPayload V → Option String) where
    send_loop-Grows :
        (url : String) (unload : Bool) (es : List (CollectPayload V)) (n : Net)
        → Grows n (send_loop b stringify url unload es n).0
    unfolding send_loop
    send_loop-Grows url unload [] n = Grows-refl n
    send_loop-Grows url unload (e ∷ es) n = elim (Option-cases (stringify e)) [
      | inl h ↦ rw (h, send_loop) (Grows-refl n)
      | inr (body, h) ↦
          let m = post b url unload body n in
          rw (h, send_loop)
            (Grows-trans n m (send_loop b stringify url unload es m).0
              (post-Grows url unload body n) (send_loop-Grows url unload es m))
    ]

    send_all-Grows : (xs : List (Sent V)) (n : Net) → Grows n (send_all b stringify xs n)
    unfolding send_all send
    send_all-Grows [] n = Grows-refl n
    send_all-Grows (x ∷ xs) n =
        let m = (send b stringify x.host x.events x.unload n).0 in
        Grows-trans n m (send_all b stringify xs m)
          (send_loop-Grows (x.host +++ "/collect") x.unload x.events n) (send_all-Grows xs m)

    send_all-append :
        (xs ys : List (Sent V)) (n : Net)
        → send_all b stringify (xs ++ ys) n ≡ send_all b stringify ys (send_all b stringify xs n)
    unfolding send_all
    send_all-append [] ys n = refl
    send_all-append (x ∷ xs) ys n =
        send_all-append xs ys (send b stringify x.host x.events x.unload n).0

    -- One action adds to the calls of a page with the default transport.
    pub network-Grows :
        (c : InitConfig) (g h : Globals) (a : Action V) (trace : List (Globals × Action V))
        → c.transport ≡ false
        → Grows
            (network b stringify (run trace (init c g)))
            (network b stringify (run (trace ++ (h, a) ∷ []) (init c g)))
    unfolding run
    network-Grows c g h a trace d =
        let s = run trace (init c g) in
        let later = trace ++ (h, a) ∷ [] in
        let (batches, sent) = step-Extends h a s in
        let before = network-default b stringify s _ (run-default b stringify c g trace d) in
        let after : network b stringify (run later (init c g))
            ≡ send_all b stringify batches (send_all b stringify s.sent created) =
          network-default b stringify (run later (init c g)) _ (run-default b stringify c g later d)
          ∙ ap (λ t. send_all b stringify t.sent created)
              (run-append trace ((h, a) ∷ []) (init c g))
          ∙ ap (λ xs. send_all b stringify xs created) sent
          ∙ send_all-append s.sent batches created in
        rw (before, after) (send_all-Grows batches (send_all b stringify s.sent created))
