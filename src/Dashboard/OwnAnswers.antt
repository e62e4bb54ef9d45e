-- ===== src/Dashboard/OwnAnswers.antt =====
-- The Angular dashboard (packages/dashboard-angular/src/components/dashboard.component.ts) shows
-- each child component the answer to its own request, of one fetch.
use mathlib.Core.List.{Mem, mem-cons_self, mem-cons_of_mem}
use webalytics.Common.{
  ℕ, Bool, not, ◌&&◌, ◌||◌, Option, none, some, List, [], ◌∷◌, map, ◌≡◌, refl, if_elim, ◌=ℕ◌, ◌⊎◌,
  inl, inr, All,
}
use webalytics.Client.Query.{Calendar}
use webalytics.Dashboard.Feed as Feed
use webalytics.Dashboard.Feed.{
  Inputs, Dashboard, Fetch, Signal, awaits, receive, receive_all, ng_on_init, fetch_all,
}
use webalytics.Dashboard.View.{
  View, Child, children, loading, showing, body_of, Component, Event, window_change, tick, resolved,
  rejected, destroy, created, move, handle, handle_all, child_of, template,
}
use webalytics.Dashboard.Answers.{
  IsTold, IsSound, AnswersTold, ShownTold, move_new, move_same, on_resolved-IsSound,
}

module _ (C : Calendar) (A : Type 0) (Told : (id i : ℕ) → A → Type 0) where
  abbrev pub IsOk : Component C A → Type 0
  IsOk s = IsSound C A Told s

  pub handle-IsSound :
      (x : Event C A) (s : Component C A) → IsTold C A Told x → IsOk s → IsOk (handle C A x s)
  unfolding handle receive Feed.on_window_change Feed.on_tick Feed.on_failure Feed.start
  handle-IsSound (window_change w) s t v =
      if_elim (λ f. IsOk (move C A f s)) (s.feed.live && s.feed.ticked)
        (λ h. move_new C A Told _ s refl refl v)
        (λ h. move_same C A Told _ s refl (inl refl) refl v)
  handle-IsSound tick s t v =
      if_elim (λ f. IsOk (move C A f s))
        (not s.feed.live || (s.feed.ticked && (s.feed.inputs.refresh_ms =ℕ 0)))
        (λ h. move_same C A Told _ s refl (inl refl) refl v)
        (λ h. move_new C A Told _ s refl refl v)
  handle-IsSound (resolved id i a) s t v = on_resolved-IsSound C A Told id i a s t v
  handle-IsSound (rejected id) s t v =
      if_elim (λ f. IsOk (move C A f s)) (awaits C id s.feed.current)
        (λ h. move_same C A Told _ s refl (inr refl) refl v)
        (λ h. move_same C A Told _ s refl (inl refl) refl v)
  handle-IsSound destroy s t v = move_same C A Told _ s refl (inl refl) refl v

  pub handle_all-IsSound :
      (xs : List (Event C A)) (s : Component C A)
      → All (IsTold C A Told) xs
      → IsOk s
      → IsOk (handle_all C A xs s)
  unfolding handle_all
  handle_all-IsSound [] s t v = v
  handle_all-IsSound (x ∷ xs) s (t, ts) v =
      handle_all-IsSound xs (handle C A x s) ts (handle-IsSound x s t v)

  -- What the page shows, of a state that is sound.
  pub body_sound :
      (i : Inputs C) (s : Component C A)
      → IsOk s
      → (body_of s.view ≡ loading)
        ⊎ (f : Fetch C) × (shown : List (Child × A)) × (s.feed.shown ≡ some f)
          × (body_of s.view ≡ showing shown)
          × (map (λ p. p.0) shown ≡ map (child_of C A) (fetch_all C i f.window))
          × AnswersTold C A Told f.id 0 (map (λ p. p.1) shown)
  unfolding fetch_all
  body_sound i s v = body s.feed.shown s.view v.shown
    where
      body :
          (o : Option (Fetch C)) (view : Option (View A))
          → ShownTold C A Told o view
          → (body_of view ≡ loading)
            ⊎ (f : Fetch C) × (shown : List (Child × A)) × (o ≡ some f)
              × (body_of view ≡ showing shown)
              × (map (λ p. p.0) shown ≡ map (child_of C A) (fetch_all C i f.window))
              × AnswersTold C A Told f.id 0 (map (λ p. p.1) shown)
      body none none t = inl refl
      body none (some w) t = elim t [ ]
      body (some f) none t = elim t [ ]
      body (some f) (some w) t = inr (f, children w, refl, refl, refl, t)

  pub created-IsSound : (i : Inputs C) → IsOk (created C A i)
  unfolding created ng_on_init
  created-IsSound i = record { eight = refl; current = tt; shown = tt }

module _ (C : Calendar) (A : Type 0) where
  abbrev pub Resolved : List (Event C A) → ℕ → ℕ → A → Type 0
  Resolved xs id j a = Mem (resolved id j a) xs

  pub IsTold-of : (x : Event C A) (zs : List (Event C A)) → Mem x zs → IsTold C A (Resolved zs) x
  IsTold-of (window_change w) zs m = tt
  IsTold-of tick zs m = tt
  IsTold-of (resolved id j a) zs m = m
  IsTold-of (rejected id) zs m = tt
  IsTold-of destroy zs m = tt

  pub All-IsTold :
      (xs zs : List (Event C A))
      → ((x : Event C A) → Mem x xs → Mem x zs)
      → All (IsTold C A (Resolved zs)) xs
  All-IsTold [] zs h = tt
  All-IsTold (x ∷ xs) zs h =
      (IsTold-of x zs (h x mem-cons_self), All-IsTold xs zs (λ y m. h y (mem-cons_of_mem x m)))

  -- At any time the page says that it is loading, or shows the answers of one fetch: the children
  -- are, in order, those that display the kinds of answer that the requests of the fetch ask for, one
  -- for each, and each has the answer that the promise of its request resolved to.
  pub shows_own_answers :
      (i : Inputs C) (show_window_picker : Bool) (xs : List (Event C A))
      → let s = handle_all C A xs (created C A i) in
        ((template C A show_window_picker s).1 ≡ loading)
        ⊎ (f : Fetch C) × (shown : List (Child × A)) × (s.feed.shown ≡ some f)
          × ((template C A show_window_picker s).1 ≡ showing shown)
          × (map (λ p. p.0) shown ≡ map (child_of C A) (fetch_all C i f.window))
          × AnswersTold C A (λ id j a. Mem (resolved id j a) xs) f.id 0 (map (λ p. p.1) shown)
  unfolding template
  shows_own_answers i show_window_picker xs = body_sound C A (Resolved xs) i _ (
      handle_all-IsSound C A (Resolved xs) xs (created C A i) (All-IsTold xs xs (λ x m. m))
        (created-IsSound C A (Resolved xs) i))
