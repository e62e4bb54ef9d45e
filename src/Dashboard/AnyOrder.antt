-- ===== src/Dashboard/AnyOrder.antt =====
-- The answers of one fetch of the Angular dashboard may arrive in any order
-- (packages/dashboard-angular/src/components/dashboard.component.ts).
use webalytics.Common.{
  ℕ, zero, suc, ◌<◌, Bool, true, false, ◌||◌, Option, none, some, List, [], ◌∷◌, map, ◌≡◌, refl,
  sym, ap, ◌∙◌, subst, ◌=ℕ◌, length, arith, inl, inr, Option-cases, Bool-cases, All,
}
use webalytics.Client.Query.{Calendar}
use webalytics.Dashboard.Feed.{Dashboard, Fetch, awaits}
use webalytics.Dashboard.Latest.{answer_lem, if_lem}
use webalytics.Dashboard.Slots.{
  get_elem?, no_values, fill, all_there, Agree, is_filled, no_values-Agree, fill-Agree, fill_here,
  fill_keeps, length-fill, all_there-Agree, emitted, none_is,
}
use webalytics.Dashboard.View.{
  view_of, Component, Event, resolved, emit, on_resolved, handle, handle_all,
}

-- Whether request `i` is among those that are answered.
abbrev pub answers : {A : Type 0} → List (ℕ × A) → ℕ → Bool
answers [] i = false
answers ((j, a) ∷ js) i = (j =ℕ i) || answers js i

module _ (C : Calendar) (A : Type 0) (f : Fetch C) (as' : List A) where
  abbrev arrivals : List (ℕ × A) → List (Event C A)
  arrivals js = map (λ p. resolved f.id p.0 p.1) js

  abbrev IsAnswer : ℕ × A → Type 0
  IsAnswer p = get_elem? as' p.0 ≡ some p.1

  -- The fetch is under way, and what has arrived are its answers.
  record IsWaiting (s : Component C A) : Type 0 where
    current : s.feed.current ≡ some f
    alive : s.feed.destroyed ≡ false
    agree : Agree s.values as'
    eight : length s.values ≡ 8
    missing : all_there s.values ≡ none

  abbrev IsDone : Component C A → Type 0
  IsDone s = (s.view ≡ view_of as') × (s.feed.shown ≡ some f)

  late :
      (js : List (ℕ × A)) (s : Component C A)
      → s.feed.current ≡ none
      → handle_all C A (arrivals js) s ≡ s
  unfolding handle_all handle on_resolved
  late [] s h = refl
  late ((j, a) ∷ js) s h =
      let same : handle C A (resolved f.id j a) s ≡ s = rw h refl in
      ap (handle_all C A (arrivals js)) same ∙ late js s h

  waiting-awaits : (s : Component C A) → IsWaiting s → awaits C f.id s.feed.current ≡ true
  waiting-awaits s w = rw w.current (ground arith)

  arrived :
      (j : ℕ) (a : A) (s : Component C A)
      → IsWaiting s
      → handle C A (resolved f.id j a) s
        ≡ emit C A f.id (all_there (fill j a s.values)) (record s { values = fill j a s.values })
  unfolding handle on_resolved
  arrived j a s w = if_lem _ _ _ (waiting-awaits s w)

  in_bounds : (bs : List A) (j : ℕ) (a : A) → get_elem? bs j ≡ some a → j < length bs
  in_bounds [] j a h = absurd (none_is h)
  in_bounds (b ∷ bs) zero a h = omega arith
  in_bounds (b ∷ bs) (suc j) a h = omega (arith, in_bounds bs j a h)

  -- A request without an answer before an arrival has one after it, or one yet to come.
  covers :
      (j i : ℕ) (a : A) (vs : List (Option A)) (later : Bool)
      → j < length vs
      → is_filled vs i || ((j =ℕ i) || later) ≡ true
      → is_filled (fill j a vs) i || later ≡ true
  covers j i a vs later l h = elim (Bool-cases (is_filled vs i)) [
    | inl k ↦ rw (fill_keeps j a vs i k) refl
    | inr k ↦ elim (Bool-cases (j =ℕ i)) [
      | inl e ↦
          let same : j ≡ i = ground arith in
          rw (subst (λ n. is_filled (fill j a vs) n ≡ true) same (fill_here j a vs l)) refl
      | inr e ↦ ground arith
    ]
  ]

  -- The last answer arrives.
  completed :
      (bs : List A) (s : Component C A)
      → awaits C f.id s.feed.current ≡ true
      → s.feed.current ≡ some f
      → s.feed.destroyed ≡ false
      → bs ≡ as'
      → IsDone (emit C A f.id (some bs) s) × ((emit C A f.id (some bs) s).feed.current ≡ none)
  completed bs s h now alive e =
      let after = answer_lem C f.id s.feed h in
      (
        (rw alive (ap view_of e), ap (λ (t : Dashboard C). t.shown) after ∙ rw alive now),
        ap (λ (t : Dashboard C). t.current) after,
      )

  All-arrive :
      (js : List (ℕ × A)) (s : Component C A)
      → length as' ≡ 8
      → All IsAnswer js
      → ((i : ℕ) → i < 8 → is_filled s.values i || answers js i ≡ true)
      → IsWaiting s
      → IsDone (handle_all C A (arrivals js) s)
  unfolding handle_all
  All-arrive [] s n h k w = absurd (
      none_is (
        sym w.missing
        ∙ all_there-Agree s.values as' w.agree (λ i l. ground (arith, k i (omega (arith, n, l))))))
  All-arrive ((j, a) ∷ js) s n (e, h) k w =
      let vs = fill j a s.values in
      let agree : Agree vs as' = fill-Agree j a s.values as' w.agree e in
      elim (Option-cases (all_there vs)) [
        | inl m ↦
            subst (λ t. IsDone (handle_all C A (arrivals js) t))
              (sym (arrived j a s w ∙ ap (λ o. emit C A f.id o (record s { values = vs })) m))
              (All-arrive js (record s { values = vs }) n h
                (λ i l.
                  covers j i a s.values (answers js i)
                    (subst (λ m'. j < m') (n ∙ sym w.eight) (in_bounds as' j a e)) (k i l))
                (record {
                  current = w.current;
                  alive = w.alive;
                  agree = agree;
                  eight = length-fill j a s.values ∙ w.eight;
                  missing = m;
                }))
        | inr (bs, m) ↦
            let t = record s { values = vs } in
            let (done, current) =
              completed bs t (waiting-awaits s w) w.current w.alive (emitted vs as' bs agree m) in
            subst IsDone
              (sym (
                ap (handle_all C A (arrivals js))
                  (arrived j a s w ∙ ap (λ o. emit C A f.id o (record s { values = vs })) m)
                ∙ late js (emit C A f.id (some bs) t) current))
              done
      ]

  -- When a fetch has started and the component is not destroyed, its eight answers make the view,
  -- in whatever order they arrive: once each request is answered, the view consists of the answers
  -- in the order of the requests, and is that of this fetch.
  pub any_order :
      (js : List (ℕ × A)) (s : Component C A)
      → length as' ≡ 8
      → All (λ p. get_elem? as' p.0 ≡ some p.1) js
      → ((i : ℕ) → i < 8 → answers js i ≡ true)
      → s.feed.current ≡ some f
      → s.feed.destroyed ≡ false
      → s.values ≡ no_values 8
      → let t = handle_all C A (map (λ p. resolved f.id p.0 p.1) js) s in
        (t.view ≡ view_of as') × (t.feed.shown ≡ some f)
  any_order js s n h k now alive blank =
      All-arrive js s n h (λ i l. ground (arith, k i l))
        (record {
          current = now;
          alive = alive;
          agree =
              subst (λ vs. Agree vs as') (sym blank)
                (subst (λ m. Agree (no_values m) as') n (no_values-Agree as'));
          eight = ap length blank;
          missing = ap all_there blank;
        })
