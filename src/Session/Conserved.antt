-- ===== src/Session/Conserved.antt =====
-- Where the events of a tracker with its default transport are, while their requests are under way:
-- packages/tracker/src/core.ts and packages/tracker/src/transport.ts.
use webalytics.Common.{
  String, Option, true, false, List, [], ◌∷◌, ◌++◌, ◌≡◌, refl, sym, ap, ◌∙◌, subst, length, drop,
  drop-append, append_assoc, append-nil, map-append, Perm, perm_middle,
}
use mathlib.Core.List.Perm
use webalytics.Tracker.Types.{CollectPayload, InitConfig}
use webalytics.Tracker.Browser.{Globals}
use webalytics.Tracker.Core.{has, init}
use webalytics.Tracker.Loop.{Action, run}
use webalytics.Tracker.Delivery.{delivered, recorded, history-run-init}
use webalytics.Tracker.Liveness.{hands_over, handed_now, recorded_handed}
use webalytics.Tracker.Runs.{run-append}
use webalytics.Transport.Core.{Browser}
use webalytics.Session.{event_posts, network-run, text, HaveTexts}
use webalytics.Transport.Sending.{requests, requests-append, accepted, refusals}
use webalytics.Session.Growth.{network-Grows, taken_or_refused}
use webalytics.Session.World.{
  World, Move, acts, arrives, fails, Reach, here, next, page, made, act, opening, collect_url,
}

-- One element goes from the middle of a list to the end of another.
moved {ℓ} :
    {A : Type ℓ} (r : A) (to between xs ys : List A)
    → Perm ((to ++ r ∷ []) ++ (between ++ (xs ++ ys))) (to ++ (between ++ (xs ++ r ∷ ys)))
moved r to between xs ys =
    let there : Perm (r ∷ ((between ++ xs) ++ ys)) ((between ++ xs) ++ r ∷ ys) =
      Perm.symm (perm_middle (between ++ xs) ys) in
    rw (append_assoc to (r ∷ []) (between ++ (xs ++ ys))) (
      Perm.append_left to (
        subst (λ zs. Perm (r ∷ (between ++ (xs ++ ys))) zs) (append_assoc between xs (r ∷ ys))
          (subst (λ zs. Perm (r ∷ zs) ((between ++ xs) ++ r ∷ ys)) (append_assoc between xs ys)
            there)))

append_comm {ℓ} : {A : Type ℓ} (xs ys : List A) → Perm (xs ++ ys) (ys ++ xs)
append_comm [] ys = rw (append-nil ys) (Perm.refl ys)
append_comm (x ∷ xs) ys =
    Perm.trans (Perm.cons x (append_comm xs ys)) (Perm.symm (perm_middle ys xs))

-- New elements at the ends of two lists can stand behind both.
sorted_in {ℓ} :
    {A : Type ℓ} (as' ls ws ts rs : List A)
    → Perm (as' ++ ((ls ++ rs) ++ (ws ++ ts))) ((as' ++ (ls ++ ws)) ++ (ts ++ rs))
sorted_in as' ls ws ts rs =
    let swapped : Perm (rs ++ (ws ++ ts)) (ws ++ (ts ++ rs)) =
      rw (sym (append_assoc ws ts rs)) (append_comm rs (ws ++ ts)) in
    rw
      (
        append_assoc as' (ls ++ ws) (ts ++ rs),
        append_assoc ls ws (ts ++ rs),
        append_assoc ls rs (ws ++ ts),
      )
      (Perm.append_left as' (Perm.append_left ls swapped))

module _ {V : Type 0} (b : Browser) (stringify : CollectPayload V → Option String) (c : InitConfig)
    (g : Globals) where
  abbrev posts : List (CollectPayload V) → List (String × String)
  posts es = event_posts b stringify (collect_url c) es

  -- Every request made so far is in exactly one place.
  abbrev Conserved : World V → Type 0
  Conserved w = Perm (w.arrived ++ (w.lost ++ w.waiting)) (requests (made b stringify c g w.trace))

  module _ (f : b.has_fetch ≡ true) (d : c.transport ≡ false) where
    made-act :
        (h : Globals) (a : Action V) (trace : List (Globals × Action V))
        → let later = trace ++ (h, a) ∷ [] in
          made b stringify c g later
          ≡ made b stringify c g trace
            ++ drop (length (made b stringify c g trace)) (made b stringify c g later)
    made-act h a trace =
        let before = made b stringify c g trace in
        let (more, grown) = network-Grows b stringify c g h a trace d in
        grown
        ∙ ap (λ cs. before ++ cs) (sym (ap (drop (length before)) grown ∙ drop-append before more))

    requests-act :
        (h : Globals) (a : Action V) (trace : List (Globals × Action V))
        → let later = trace ++ (h, a) ∷ [] in
          requests (made b stringify c g later)
          ≡ requests (made b stringify c g trace)
            ++ requests (drop (length (made b stringify c g trace)) (made b stringify c g later))
    requests-act h a trace =
        let before = made b stringify c g trace in
        let later = made b stringify c g (trace ++ (h, a) ∷ []) in
        ap requests (made-act h a trace) ∙ requests-append before (drop (length before) later)

    Move-Conserved : {w u : World V} → Move b stringify c g w u → Conserved w → Conserved u
    Move-Conserved (acts h a w) p =
        let fresh =
          drop (length (made b stringify c g w.trace))
            (made b stringify c g (w.trace ++ (h, a) ∷ [])) in
        rw (requests-act h a w.trace) (
          Perm.trans (sorted_in w.arrived w.lost w.waiting (accepted fresh) (refusals fresh))
            (Perm.append p (taken_or_refused fresh)))
    Move-Conserved (arrives xs ys r w e) p = Perm.trans (moved r w.arrived w.lost xs ys) (
        subst (λ rs. Perm (w.arrived ++ (w.lost ++ rs)) (requests (made b stringify c g w.trace))) e
          p)
    Move-Conserved (fails xs ys r w e) p =
        Perm.trans (Perm.append_left w.arrived (moved r w.lost [] xs ys)) (
          subst (λ rs. Perm (w.arrived ++ (w.lost ++ rs)) (requests (made b stringify c g w.trace)))
            e p)

    Reach-Conserved : {w u : World V} → Conserved w → Reach b stringify c g w u → Conserved u
    Reach-Conserved p here = p
    Reach-Conserved p (next r m) = Move-Conserved m (Reach-Conserved p r)

    opening-Conserved : Conserved opening
    unfolding init run recorded
    opening-Conserved = rw (network-run b stringify c g [] f d tt) (Perm.refl [])

    -- Whatever order requests arrive and fail in, each event that the tracker has taken is in exactly
    -- one place, as often as it was taken: its request arrived, failed or was refused, or is under
    -- way, or it waits in the buffer; and nothing else is in those places. The browser has `fetch`,
    -- the transport is the default one, and the events taken all have a JSON text.
    pub each_event_once :
        (w : World V)
        → Reach b stringify c g opening w
        → HaveTexts b stringify (recorded w.trace (init c g))
        → Perm
            (w.arrived ++ (w.lost ++ (w.waiting ++ posts (page c g w).buf)))
            (posts (recorded w.trace (init c g)))
    each_event_once w r t =
        let kept =
          Perm.append_right (posts (page c g w).buf) (Reach-Conserved opening-Conserved r) in
        let target : requests (made b stringify c g w.trace) ++ posts (page c g w).buf
            ≡ posts (recorded w.trace (init c g)) =
          ap (λ rs. rs ++ posts (page c g w).buf) (network-run b stringify c g w.trace f d t)
          ∙ sym (
              map-append (λ e. (collect_url c, text b stringify e)) (delivered (page c g w))
                (page c g w).buf)
          ∙ ap posts (history-run-init c g w.trace) in
        rw
          (
            sym target,
            sym (append_assoc w.lost w.waiting (posts (page c g w).buf)),
            sym (append_assoc w.arrived (w.lost ++ w.waiting) (posts (page c g w).buf)),
          )
          kept

    Reach-trans :
        {u v w : World V}
        → Reach b stringify c g u v
        → Reach b stringify c g v w
        → Reach b stringify c g u w
    Reach-trans p here = p
    Reach-trans p (next q m) = next (Reach-trans p q) m

    -- All requests under way can arrive.
    all_arrive :
        (rs : List (String × String)) (w : World V)
        → w.waiting ≡ rs
        → Reach b stringify c g w (record w { waiting = []; arrived = w.arrived ++ rs })
    all_arrive [] w e = rw (append-nil w.arrived, sym e) here
    all_arrive (r ∷ rs) w e =
        let u : World V = record w { waiting = rs; arrived = w.arrived ++ r ∷ [] } in
        rw (sym (append_assoc w.arrived (r ∷ []) rs))
          (Reach-trans (next here (arrives [] rs r w e)) (all_arrive rs u refl))

    handed_all :
        (h : Globals) (a : Action V) (trace : List (Globals × Action V))
        → hands_over (has g.window) a ≡ true
        → delivered (run (trace ++ (h, a) ∷ []) (init c g)) ≡ recorded trace (init c g)
    unfolding run
    handed_all h a trace hands =
        ap delivered (run-append trace ((h, a) ∷ []) (init c g)) ∙ handed_now c g h a trace hands

    -- However a world came about, after a timeout, a call of `flush()`, or the page's being hidden or
    -- left, it can go on to one in which nothing is under way, nothing more is lost than right after
    -- that action, and the requests that arrived or are lost are those of all the events taken, each
    -- once. The browser has `fetch`, the transport is the default one, and the events taken all have
    -- a JSON text.
    pub can_settle :
        (h : Globals) (a : Action V) (w : World V)
        → Reach b stringify c g opening w
        → hands_over (has g.window) a ≡ true
        → HaveTexts b stringify (recorded w.trace (init c g))
        → (u : World V) × Reach b stringify c g (act b stringify c g h a w) u
          × (u.trace ≡ w.trace ++ (h, a) ∷ [])
          × (u.waiting ≡ [])
          × (u.lost ≡ (act b stringify c g h a w).lost)
          × Perm (u.arrived ++ u.lost) (posts (recorded w.trace (init c g)))
    can_settle h a w r hands texts =
        let t = act b stringify c g h a w in
        let u : World V = record t { waiting = []; arrived = t.arrived ++ t.waiting } in
        let way = all_arrive t.waiting t refl in
        let kept = Reach-Conserved opening-Conserved (Reach-trans (next r (acts h a w)) way) in
        (
          u,
          way,
          refl,
          refl,
          refl,
          subst (λ rs. Perm (u.arrived ++ u.lost) rs)
              (network-run b stringify c g t.trace f d (
                  subst (HaveTexts b stringify) (sym (recorded_handed c g h a w.trace hands)) texts)
                ∙ ap posts (handed_all h a w.trace hands))
              (subst (λ rs. Perm (u.arrived ++ rs) (requests (made b stringify c g t.trace)))
                (append-nil u.lost) kept),
        )
