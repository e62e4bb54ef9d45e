-- ===== src/Dashboard/Latest.antt =====
-- Which fetch the Angular dashboard shows (packages/dashboard-angular/src/components/dashboard.component.ts).
use webalytics.Common.{
  ℕ, zero, suc, ◌+◌, Bool, true, false, not, ◌&&◌, ◌||◌, Option, none, some, List, [], ◌∷◌, ◌≡◌,
  refl, sym, ap, ◌∙◌, if◌then◌else◌, if_elim, ◌=ℕ◌, arith, ◌⊎◌, inl, inr, Bool-cases, length,
}
use webalytics.Client.Types.{WindowSpec}
use webalytics.Client.Query.{Calendar}
use webalytics.Dashboard.Feed.{
  Inputs, Fetch, Dashboard, Signal, window_change, tick, answer, failure, destroy, start,
  ng_on_init, on_window_change, on_tick, awaits, on_answer, on_failure, receive, receive_all,
}

pub if_lem {ℓ} : {A : Type ℓ} (b : Bool) (x y : A) → b ≡ true → (if b then x else y) ≡ x
if_lem b x y h = rw h

if_not {ℓ} : {A : Type ℓ} (b : Bool) (x y : A) → b ≡ false → (if b then x else y) ≡ y
if_not b x y h = rw h

module _ (C : Calendar) where
  -- A fetch that the stream waits for is the latest, and is for the active window.
  abbrev IsCurrent : Option (Fetch C) → List (Fetch C) → WindowSpec C.Date → Type 0
  IsCurrent none fs w = Unit
  IsCurrent (some f) [] w = ⊥
  IsCurrent (some f) (g ∷ fs) w = (f ≡ g) × (f.window ≡ w)

  pub record IsValid (s : Dashboard C) : Type 0 where
    pub latest : IsCurrent s.current s.started s.active_window
    pub waits : s.live && s.ticked ≡ false → s.current ≡ none

  start-IsValid :
      (w : WindowSpec C.Date) (s : Dashboard C)
      → s.active_window ≡ w
      → s.live && s.ticked ≡ true
      → IsValid (start C w s)
  unfolding start
  start-IsValid w s h k = record { latest = (refl, sym h); waits = λ n. ground arith }

  pub receive-IsValid : (x : Signal C) (s : Dashboard C) → IsValid s → IsValid (receive C x s)
  unfolding receive on_window_change on_tick on_answer on_failure
  receive-IsValid (window_change w) s v =
      if_elim IsValid (s.live && s.ticked)
        (λ h. start-IsValid w (record s { active_window = w }) refl h)
        (λ h. record { latest = rw (v.waits h) tt; waits = v.waits })
  receive-IsValid tick s v =
      if_elim IsValid (not s.live || (s.ticked && (s.inputs.refresh_ms =ℕ 0))) (λ _. v)
        (λ h. start-IsValid s.active_window (record s { ticked = true }) refl (ground arith))
  receive-IsValid (answer id) s v =
      if_elim IsValid (awaits C id s.current) (λ _. record { latest = tt; waits = λ _. refl })
        (λ _. v)
  receive-IsValid (failure id) s v =
      if_elim IsValid (awaits C id s.current) (λ _. record { latest = tt; waits = λ _. refl })
        (λ _. v)
  receive-IsValid destroy s v = record { latest = v.latest; waits = v.waits }

  receive_all-IsValid :
      (xs : List (Signal C)) (s : Dashboard C) → IsValid s → IsValid (receive_all C xs s)
  unfolding receive_all
  receive_all-IsValid [] s v = v
  receive_all-IsValid (x ∷ xs) s v = receive_all-IsValid xs (receive C x s) (receive-IsValid x s v)

  pub awaited :
      (id : ℕ) (o : Option (Fetch C)) (fs : List (Fetch C)) (w : WindowSpec C.Date)
      → IsCurrent o fs w
      → awaits C id o ≡ true
      → (f : Fetch C) × (rest : List (Fetch C)) × (o ≡ some f)
        × (fs ≡ f ∷ rest)
        × (f.id ≡ id)
        × (f.window ≡ w)
  awaited id none fs w _ h = ground arith
  awaited id (some f) [] w bad h = elim bad [ ]
  awaited id (some f) (g ∷ fs) w (same, here) h =
      (f, fs, refl, ap (λ x. x ∷ fs) (sym same), ground arith, here)

  pub answer_lem :
      (id : ℕ) (s : Dashboard C)
      → awaits C id s.current ≡ true
      → receive C (answer id) s
        ≡ record s { shown = if s.destroyed then s.shown else s.current; current = none }
  unfolding receive on_answer
  answer_lem id s h = if_lem _ _ _ h

  answered :
      (id : ℕ) (s : Dashboard C)
      → IsValid s
      → (receive C (answer id) s ≡ s)
        ⊎ (f : Fetch C) × (rest : List (Fetch C)) × (s.started ≡ f ∷ rest)
          × (f.id ≡ id)
          × (f.window ≡ s.active_window)
          × ((receive C (answer id) s).shown ≡ (if s.destroyed then s.shown else some f))
  unfolding receive on_answer
  answered id s v = elim (Bool-cases (awaits C id s.current)) [
    | inr other ↦ inl (if_not _ _ _ other)
    | inl h ↦
        let (f, rest, now, first, number, window) =
          awaited id s.current s.started s.active_window v.latest h in
        let current : (if s.destroyed then s.shown else s.current)
            ≡ (if s.destroyed then s.shown else some f) =
          ap (λ o. if s.destroyed then s.shown else o) now in
        inr (
          f,
          rest,
          first,
          number,
          window,
          ap (λ (r : Dashboard C). r.shown) (answer_lem id s h) ∙ current,
        )
  ]

  -- Whatever happened since `ngOnInit`, an answer that changes what the component shows is the answer
  -- of the fetch that started last, and that fetch is for the active window: the answers of earlier
  -- fetches and of earlier windows, in whatever order they arrive, are dropped.
  pub shows_latest :
      (i : Inputs C) (xs : List (Signal C)) (id : ℕ)
      → let s = receive_all C xs (ng_on_init C i) in
        (receive C (answer id) s ≡ s)
        ⊎ (f : Fetch C) × (rest : List (Fetch C)) × (s.started ≡ f ∷ rest)
          × (f.id ≡ id)
          × (f.window ≡ s.active_window)
          × ((receive C (answer id) s).shown ≡ (if s.destroyed then s.shown else some f))
  unfolding ng_on_init
  shows_latest i xs id =
      answered id _
        (receive_all-IsValid xs (ng_on_init C i) (record { latest = tt; waits = λ _. refl }))

  abbrev pub ticks : ℕ → List (Signal C)
  ticks zero = []
  ticks (suc n) = tick ∷ ticks n

  tick-start :
      (s : Dashboard C)
      → s.live ≡ true
      → s.inputs.refresh_ms =ℕ 0 ≡ false
      → receive C tick s ≡ start C s.active_window (record s { ticked = true })
  unfolding receive on_tick
  tick-start s live refresh =
      if_not (not s.live || (s.ticked && (s.inputs.refresh_ms =ℕ 0))) s _ (ground arith)

  length-ticks :
      (n : ℕ) (s : Dashboard C)
      → s.live ≡ true
      → s.inputs.refresh_ms =ℕ 0 ≡ false
      → length (receive_all C (ticks n) s).started ≡ n + length s.started
  unfolding receive_all start
  length-ticks zero s live refresh = omega arith
  length-ticks (suc n) s live refresh =
      let s' = start C s.active_window (record s { ticked = true }) in
      ap (λ r. length (receive_all C (ticks n) r).started) (tick-start s live refresh)
      ∙ length-ticks n s' live refresh
      ∙ omega arith

  -- Destroying a component that refreshes and has not failed does not stop it: each of the timer's
  -- later ticks starts another fetch.
  pub polls_when_destroyed :
      (n : ℕ) (s : Dashboard C)
      → s.live ≡ true
      → s.inputs.refresh_ms =ℕ 0 ≡ false
      → length (receive_all C (destroy ∷ ticks n) s).started ≡ n + length s.started
  unfolding receive_all receive
  polls_when_destroyed n s live refresh =
      length-ticks n (record s { destroyed = true }) live refresh
