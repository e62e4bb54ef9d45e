-- ===== src/Dashboard/Arrival.antt =====
-- When the view of the Angular dashboard changes (packages/dashboard-angular/src/components/dashboard.component.ts).
use mathlib.Core.List.{Mem, mem-cons_self, mem-cons_of_mem}
use webalytics.Common.{
  ℕ, true, Option, none, some, List, [], ◌∷◌, ◌≡◌, refl, sym, ap, ◌∙◌, subst, if_elim, ◌⊎◌, inl,
  inr, Bool-cases,
}
use webalytics.Client.Query.{Calendar}
use webalytics.Dashboard.Feed as Feed
use webalytics.Dashboard.Feed.{Inputs, Dashboard, Fetch, Signal, awaits, receive, ng_on_init}
use webalytics.Dashboard.Latest as Latest
use webalytics.Dashboard.Latest.{receive-IsValid, awaited, answer_lem}
use webalytics.Dashboard.Slots.{fill, some_of, none_is}
use webalytics.Dashboard.Answers.{answers_of, AnswersTold, ShownTold}
use webalytics.Dashboard.OwnAnswers.{
  Resolved, IsTold-of, All-IsTold, handle-IsSound, handle_all-IsSound, created-IsSound,
}
use webalytics.Dashboard.View.{
  View, Component, Event, window_change, tick, resolved, rejected, destroy, created, emit,
  on_resolved, handle, handle_all,
}

module _ (C : Calendar) (A : Type 0) where
  -- The stream of a component takes at most one step of the stream of views.
  Moves : Dashboard C → Dashboard C → Type 0
  Moves f f' = (f' ≡ f) ⊎ ((y : Signal C) × (f' ≡ receive C y f))

  emit-Moves :
      (id : ℕ) (r : Option (List A)) (s : Component C A) → Moves s.feed (emit C A id r s).feed
  unfolding Moves
  emit-Moves id none s = inl refl
  emit-Moves id (some as') s = inr (Feed.answer id, refl)

  handle-Moves : (x : Event C A) (s : Component C A) → Moves s.feed (handle C A x s).feed
  unfolding handle on_resolved Moves
  handle-Moves (window_change w) s = inr (Feed.window_change w, refl)
  handle-Moves tick s = inr (Feed.tick, refl)
  handle-Moves (resolved id i a) s =
      if_elim (λ (t : Component C A). Moves s.feed t.feed) (awaits C id s.feed.current)
        (λ h. emit-Moves id _ (record s { values = fill i a s.values })) (λ h. inl refl)
  handle-Moves (rejected id) s = inr (Feed.failure id, refl)
  handle-Moves destroy s = inr (Feed.destroy, refl)

  handle-IsValid :
      (x : Event C A) (s : Component C A)
      → Latest.IsValid C s.feed
      → Latest.IsValid C (handle C A x s).feed
  unfolding Moves
  handle-IsValid x s v = elim (handle-Moves x s) [
    | inl e ↦ subst (Latest.IsValid C) (sym e) v
    | inr (y, e) ↦ subst (Latest.IsValid C) (sym e) (receive-IsValid C y s.feed v)
  ]

  handle_all-IsValid :
      (xs : List (Event C A)) (s : Component C A)
      → Latest.IsValid C s.feed
      → Latest.IsValid C (handle_all C A xs s).feed
  unfolding handle_all
  handle_all-IsValid [] s v = v
  handle_all-IsValid (x ∷ xs) s v = handle_all-IsValid xs (handle C A x s) (handle-IsValid x s v)

  -- What a change of the view goes with.
  abbrev IsCurrentView : Component C A → Component C A → Type 0
  IsCurrentView s t =
      (t.view ≡ s.view)
      ⊎ (f : Fetch C) × (rest : List (Fetch C)) × (t.feed.started ≡ f ∷ rest)
        × (t.feed.shown ≡ some f)
        × (f.window ≡ t.feed.active_window)

  emit-current :
      (id : ℕ) (r : Option (List A)) (s : Component C A)
      → Latest.IsValid C s.feed
      → awaits C id s.feed.current ≡ true
      → IsCurrentView s (emit C A id r s)
  emit-current id none s v h = inl refl
  emit-current id (some as') s v h = elim (Bool-cases s.feed.destroyed) [
    | inl d ↦ inl (rw d refl)
    | inr d ↦
        let (f, rest, now, first, number, window) =
          awaited C id s.feed.current s.feed.started s.feed.active_window v.latest h in
        let after = answer_lem C id s.feed h in
        inr (
          f,
          rest,
          ap (λ (t : Dashboard C). t.started) after ∙ first,
          ap (λ (t : Dashboard C). t.shown) after ∙ rw d now,
          window ∙ sym (ap (λ (t : Dashboard C). t.active_window) after),
        )
  ]

  handle-current :
      (x : Event C A) (s : Component C A)
      → Latest.IsValid C s.feed
      → IsCurrentView s (handle C A x s)
  unfolding handle on_resolved
  handle-current (window_change w) s v = inl refl
  handle-current tick s v = inl refl
  handle-current (resolved id i a) s v =
      if_elim (IsCurrentView s) (awaits C id s.feed.current)
        (λ h. emit-current id _ (record s { values = fill i a s.values }) v h) (λ h. inl refl)
  handle-current (rejected id) s v = inl refl
  handle-current destroy s v = inl refl

  -- What a sound component that shows a fetch displays.
  shown_answers :
      (Told : (id i : ℕ) → A → Type 0) (o : Option (Fetch C)) (view : Option (View A)) (f : Fetch C)
      → o ≡ some f
      → ShownTold C A Told o view
      → (v : View A) × (view ≡ some v) × AnswersTold C A Told f.id 0 (answers_of v)
  shown_answers Told none view f e t = absurd (none_is e)
  shown_answers Told (some f') none f e t = elim t [ ]
  shown_answers Told (some f') (some v) f e t =
      (v, refl, subst (λ k. AnswersTold C A Told k.id 0 (answers_of v)) (some_of e) t)

  -- Whatever happened before, an event that changes the view of the component leaves it with the
  -- answers to the fetch that started last, each of its eight parts with what the promise of that
  -- request resolved to; and that fetch is for the window that the picker marks.
  pub view_is_current :
      (i : Inputs C) (xs : List (Event C A)) (x : Event C A)
      → let s = handle_all C A xs (created C A i) in
        let t = handle C A x s in
        (t.view ≡ s.view)
        ⊎ (f : Fetch C) × (rest : List (Fetch C)) × (v : View A) × (t.feed.started ≡ f ∷ rest)
          × (f.window ≡ t.feed.active_window)
          × (t.view ≡ some v)
          × AnswersTold C A (λ id j a. Mem (resolved id j a) (x ∷ xs)) f.id 0 (answers_of v)
  unfolding created ng_on_init
  view_is_current i xs x =
      let Told = Resolved C A (x ∷ xs) in
      let s = handle_all C A xs (created C A i) in
      let sound = handle-IsSound C A Told x s (IsTold-of C A x (x ∷ xs) mem-cons_self) (
        handle_all-IsSound C A Told xs (created C A i)
          (All-IsTold C A xs (x ∷ xs) (λ y m. mem-cons_of_mem x m)) (created-IsSound C A Told i)) in
      elim (handle-current x s
        (handle_all-IsValid xs (created C A i) (record { latest = tt; waits = λ _. refl }))) [
          | inl same ↦ inl same
          | inr (f, rest, first, shown, window) ↦
              let (v, seen, told) =
                shown_answers Told (handle C A x s).feed.shown (handle C A x s).view f shown
                  sound.shown in
              inr (f, rest, v, first, window, seen, told)
        ]
