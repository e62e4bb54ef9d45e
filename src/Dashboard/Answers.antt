-- ===== src/Dashboard/Answers.antt =====
-- Whose answers the Angular dashboard shows (packages/dashboard-angular/src/components/dashboard.component.ts).
use webalytics.Common.{
  ℕ, zero, suc, ◌+◌, Bool, true, false, Option, none, some, List, [], ◌∷◌, ◌≡◌, refl, sym, ap, ◌∙◌,
  subst, if◌then◌else◌, if_elim, length, arith, ◌⊎◌, inl, inr, Option-cases,
}
use webalytics.Client.Query.{Calendar}
use webalytics.Dashboard.Feed.{Dashboard, Fetch, awaits}
use webalytics.Dashboard.Latest.{answer_lem}
use webalytics.Dashboard.Slots.{no_values, fill, all_there, length-fill, some_of, none_is, cons?}
use webalytics.Dashboard.View.{View, view_of, Component, Event, resolved, move, emit, on_resolved}

abbrev pub answers_of : {A : Type 0} → View A → List A
answers_of v =
    v.summary ∷ v.realtime ∷ v.timeseries ∷ v.pages ∷ v.referrers ∷ v.countries ∷ v.devices
    ∷ v.vitals ∷ []

view_of_eight :
    {A : Type 0} (as' : List A)
    → length as' ≡ 8
    → (v : View A) × (view_of as' ≡ some v) × (answers_of v ≡ as')
view_of_eight [] h = absurd (omega (arith, h))
view_of_eight (a ∷ []) h = absurd (omega (arith, h))
view_of_eight (a ∷ b ∷ []) h = absurd (omega (arith, h))
view_of_eight (a ∷ b ∷ c ∷ []) h = absurd (omega (arith, h))
view_of_eight (a ∷ b ∷ c ∷ d ∷ []) h = absurd (omega (arith, h))
view_of_eight (a ∷ b ∷ c ∷ d ∷ e ∷ []) h = absurd (omega (arith, h))
view_of_eight (a ∷ b ∷ c ∷ d ∷ e ∷ f ∷ []) h = absurd (omega (arith, h))
view_of_eight (a ∷ b ∷ c ∷ d ∷ e ∷ f ∷ g ∷ []) h = absurd (omega (arith, h))
view_of_eight (a ∷ b ∷ c ∷ d ∷ e ∷ f ∷ g ∷ k ∷ []) h = (_, refl, refl)
view_of_eight (a ∷ b ∷ c ∷ d ∷ e ∷ f ∷ g ∷ k ∷ l ∷ as') h = absurd (omega (arith, h))

module _ (C : Calendar) (A : Type 0) (Told : (id i : ℕ) → A → Type 0) where
  -- Every answer that arrives is told: a property of the fetch, the request and the answer.
  abbrev pub IsTold : Event C A → Type 0
  IsTold (resolved id i a) = Told id i a
  IsTold _ = Unit

  abbrev pub ValuesTold : ℕ → ℕ → List (Option A) → Type 0
  ValuesTold id i [] = Unit
  ValuesTold id i (none ∷ vs) = ValuesTold id (suc i) vs
  ValuesTold id i (some a ∷ vs) = Told id i a × ValuesTold id (suc i) vs

  -- The answers of a fetch, to its requests from number `i` on.
  abbrev pub AnswersTold : (id i : ℕ) → List A → Type 0
  AnswersTold id i [] = Unit
  AnswersTold id i (a ∷ as') = Told id i a × AnswersTold id (suc i) as'

  abbrev pub CurrentTold : Option (Fetch C) → List (Option A) → Type 0
  CurrentTold none vs = Unit
  CurrentTold (some f) vs = ValuesTold f.id 0 vs

  abbrev pub ShownTold : Option (Fetch C) → Option (View A) → Type 0
  ShownTold none none = Unit
  ShownTold (some f) (some v) = AnswersTold f.id 0 (answers_of v)
  ShownTold _ _ = ⊥

  pub record IsSound (s : Component C A) : Type 0 where
    pub eight : length s.values ≡ 8
    pub current : CurrentTold s.feed.current s.values
    pub shown : ShownTold s.feed.shown s.view

  no_values-told : (id i n : ℕ) → ValuesTold id i (no_values n)
  no_values-told id i zero = tt
  no_values-told id i (suc n) = no_values-told id (suc i) n

  fresh-told : (o : Option (Fetch C)) → CurrentTold o (no_values 8)
  fresh-told none = tt
  fresh-told (some f) = no_values-told f.id 0 8

  kept :
      (o p : Option (Fetch C)) (vs : List (Option A))
      → (p ≡ o) ⊎ (p ≡ none)
      → CurrentTold o vs
      → CurrentTold p vs
  kept o p vs (inl e) h = subst (λ q. CurrentTold q vs) (sym e) h
  kept o p vs (inr e) h = subst (λ q. CurrentTold q vs) (sym e) tt

  moved :
      (f : Dashboard C) (s : Component C A) (vs : List (Option A))
      → (move C A f s).values ≡ vs
      → length vs ≡ 8
      → CurrentTold f.current vs
      → f.shown ≡ s.feed.shown
      → IsSound s
      → IsSound (move C A f s)
  moved f s vs e n c k v = record {
    eight = ap length e ∙ n;
    current = subst (CurrentTold f.current) (sym e) c;
    shown = subst (λ o. ShownTold o s.view) (sym k) v.shown;
  }

  pub move_new :
      (f : Dashboard C) (s : Component C A)
      → length f.started ≡ suc (length s.feed.started)
      → f.shown ≡ s.feed.shown
      → IsSound s
      → IsSound (move C A f s)
  move_new f s h k v = moved f s (no_values 8) (ground arith) refl (fresh-told f.current) k v

  pub move_same :
      (f : Dashboard C) (s : Component C A)
      → f.started ≡ s.feed.started
      → (f.current ≡ s.feed.current) ⊎ (f.current ≡ none)
      → f.shown ≡ s.feed.shown
      → IsSound s
      → IsSound (move C A f s)
  move_same f s h c k v =
      let n : length f.started ≡ length s.feed.started = ap length h in
      moved f s s.values (ground arith) v.eight (kept s.feed.current f.current s.values c v.current)
        k v

  fill-told :
      (id k i : ℕ) (a : A) (vs : List (Option A))
      → Told id (k + i) a
      → ValuesTold id k vs
      → ValuesTold id k (fill i a vs)
  fill-told id k i a [] t h = h
  fill-told id k zero a (none ∷ vs) t h = (subst (λ j. Told id j a) (omega arith) t, h)
  fill-told id k zero a (some b ∷ vs) t (u, h) = (subst (λ j. Told id j a) (omega arith) t, h)
  fill-told id k (suc i) a (none ∷ vs) t h =
      fill-told id (suc k) i a vs (subst (λ j. Told id j a) (omega arith) t) h
  fill-told id k (suc i) a (some b ∷ vs) t (u, h) =
      (u, fill-told id (suc k) i a vs (subst (λ j. Told id j a) (omega arith) t) h)

  all_there-told :
      (id k : ℕ) (vs : List (Option A)) (as' : List A)
      → all_there vs ≡ some as'
      → ValuesTold id k vs
      → AnswersTold id k as' × (length as' ≡ length vs)
  all_there-told id k [] as' e h =
      subst (λ bs. AnswersTold id k bs × (length bs ≡ 0)) (some_of e) (tt, refl)
  all_there-told id k (none ∷ vs) as' e h = absurd (none_is e)
  all_there-told id k (some a ∷ vs) as' e (t, h) = elim (Option-cases (all_there vs)) [
    | inl n ↦ absurd (none_is (ap (cons? a) (sym n) ∙ e))
    | inr (bs, n) ↦
        let (told, len) = all_there-told id (suc k) vs bs n h in
        subst (λ cs. AnswersTold id k cs × (length cs ≡ suc (length vs)))
          (some_of (ap (cons? a) (sym n) ∙ e)) ((t, told), ap suc len)
  ]

  -- The fetch that is waited for, where an answer to it arrives.
  waited :
      (id : ℕ) (o : Option (Fetch C))
      → awaits C id o ≡ true
      → (f : Fetch C) × (o ≡ some f) × (f.id ≡ id)
  waited id none h = absurd (ground (arith, h))
  waited id (some f) h = (f, refl, ground arith)

  shown-told :
      (b : Bool) (o : Option (Fetch C)) (view : Option (View A)) (f : Fetch C) (as' : List A)
      → AnswersTold f.id 0 as'
      → length as' ≡ 8
      → ShownTold o view
      → ShownTold (if b then o else some f) (if b then view else view_of as')
  shown-told true o view f as' t n h = h
  shown-told false o view f as' t n h =
      let (v, e, same) = view_of_eight as' n in
      subst (ShownTold (some f)) (sym e) (subst (AnswersTold f.id 0) (sym same) t)

  emit-IsSound :
      (id : ℕ) (s : Component C A) (r : Option (List A))
      → awaits C id s.feed.current ≡ true
      → all_there s.values ≡ r
      → IsSound s
      → IsSound (emit C A id r s)
  emit-IsSound id s none h e v = v
  emit-IsSound id s (some as') h e v =
      let (f, now, number) = waited id s.feed.current h in
      let (told, len) =
        all_there-told f.id 0 s.values as' e (subst (λ o. CurrentTold o s.values) now v.current) in
      let after = answer_lem C id s.feed h in
      record {
        eight = v.eight;
        current = subst (λ (d : Dashboard C). CurrentTold d.current s.values) (sym after) tt;
        shown =
            subst
              (λ (d : Dashboard C).
                ShownTold d.shown (if s.feed.destroyed then s.view else view_of as'))
              (sym after)
              (subst
                (λ o.
                  ShownTold (if s.feed.destroyed then s.feed.shown else o)
                    (if s.feed.destroyed then s.view else view_of as'))
                (sym now)
                (shown-told s.feed.destroyed s.feed.shown s.view f as' told (len ∙ v.eight)
                  v.shown));
      }

  pub on_resolved-IsSound :
      (id i : ℕ) (a : A) (s : Component C A)
      → Told id i a
      → IsSound s
      → IsSound (on_resolved C A id i a s)
  unfolding on_resolved
  on_resolved-IsSound id i a s t v =
      if_elim IsSound (awaits C id s.feed.current)
        (λ h.
          let (f, now, number) = waited id s.feed.current h in
          let t' : Told f.id (0 + i) a =
            subst (λ j. Told f.id j a) (omega arith) (subst (λ n. Told n i a) (sym number) t) in
          emit-IsSound id (record s { values = fill i a s.values }) _ h refl
            (record {
              eight = length-fill i a s.values ∙ v.eight;
              current =
                  subst (λ o. CurrentTold o (fill i a s.values)) (sym now)
                    (fill-told f.id 0 i a s.values t'
                      (subst (λ o. CurrentTold o s.values) now v.current));
              shown = v.shown;
            }))
        (λ _. v)
