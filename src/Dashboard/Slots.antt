-- ===== src/Dashboard/Slots.antt =====
-- `combineLatest` over promises, as rxjs documents it: it keeps the value of each source and emits
-- once each has one. A source that is a promise emits at most once.
use webalytics.Common.{
  ℕ, zero, suc, ◌<◌, Bool, true, false, Option, none, some, List, [], ◌∷◌, ◌≡◌, refl, sym, ap, ap₂,
  ◌∙◌, length, arith, Option-cases, inl, inr,
}

pub some_of : {B : Type 0} {x y : B} → some x ≡ some y → x ≡ y
some_of h = cc

pub none_is : {B : Type 0} {b : B} → none ≡ some b → ⊥
none_is h = cc

module _ {A : Type 0} where
  abbrev pub get_elem? : List A → ℕ → Option A
  get_elem? [] i = none
  get_elem? (x ∷ xs) zero = some x
  get_elem? (x ∷ xs) (suc i) = get_elem? xs i

  -- The values of `n` sources, none of which has emitted.
  abbrev pub no_values : ℕ → List (Option A)
  no_values zero = []
  no_values (suc n) = none ∷ no_values n

  -- Source `i` emits.
  abbrev pub fill : ℕ → A → List (Option A) → List (Option A)
  fill i a [] = []
  fill zero a (v ∷ vs) = some a ∷ vs
  fill (suc i) a (v ∷ vs) = v ∷ fill i a vs

  abbrev pub cons? : A → Option (List A) → Option (List A)
  cons? a none = none
  cons? a (some as') = some (a ∷ as')

  -- What is emitted: all values, once they are there.
  abbrev pub all_there : List (Option A) → Option (List A)
  all_there [] = some []
  all_there (none ∷ vs) = none
  all_there (some a ∷ vs) = cons? a (all_there vs)

  -- The values that are there are those of a list.
  abbrev pub Agree : List (Option A) → List A → Type 0
  Agree [] [] = Unit
  Agree [] (a ∷ as') = ⊥
  Agree (v ∷ vs) [] = ⊥
  Agree (none ∷ vs) (a ∷ as') = Agree vs as'
  Agree (some b ∷ vs) (a ∷ as') = (b ≡ a) × Agree vs as'

  abbrev pub is_filled : List (Option A) → ℕ → Bool
  is_filled [] i = false
  is_filled (none ∷ vs) zero = false
  is_filled (some a ∷ vs) zero = true
  is_filled (v ∷ vs) (suc i) = is_filled vs i

  pub no_values-Agree : (as' : List A) → Agree (no_values (length as')) as'
  no_values-Agree [] = tt
  no_values-Agree (a ∷ as') = no_values-Agree as'

  pub fill-Agree :
      (i : ℕ) (a : A) (vs : List (Option A)) (as' : List A)
      → Agree vs as'
      → get_elem? as' i ≡ some a
      → Agree (fill i a vs) as'
  fill-Agree i a [] as' h e = h
  fill-Agree zero a (none ∷ vs) [] h e = elim h [ ]
  fill-Agree zero a (some c ∷ vs) [] h e = elim h [ ]
  fill-Agree (suc i) a (none ∷ vs) [] h e = elim h [ ]
  fill-Agree (suc i) a (some c ∷ vs) [] h e = elim h [ ]
  fill-Agree zero a (none ∷ vs) (b ∷ as') h e = (some_of (sym e), h)
  fill-Agree zero a (some c ∷ vs) (b ∷ as') (k, h) e = (some_of (sym e), h)
  fill-Agree (suc i) a (none ∷ vs) (b ∷ as') h e = fill-Agree i a vs as' h e
  fill-Agree (suc i) a (some c ∷ vs) (b ∷ as') (k, h) e = (k, fill-Agree i a vs as' h e)

  -- A source that emitted has a value from then on, and the others keep theirs.
  pub fill_here :
      (i : ℕ) (a : A) (vs : List (Option A)) → i < length vs → is_filled (fill i a vs) i ≡ true
  fill_here i a [] h = absurd (omega (arith, h))
  fill_here zero a (v ∷ vs) h = refl
  fill_here (suc i) a (none ∷ vs) h = fill_here i a vs (omega arith)
  fill_here (suc i) a (some b ∷ vs) h = fill_here i a vs (omega arith)

  pub fill_keeps :
      (i : ℕ) (a : A) (vs : List (Option A)) (j : ℕ)
      → is_filled vs j ≡ true
      → is_filled (fill i a vs) j ≡ true
  fill_keeps i a [] j h = h
  fill_keeps zero a (none ∷ vs) zero h = refl
  fill_keeps zero a (some b ∷ vs) zero h = refl
  fill_keeps zero a (none ∷ vs) (suc j) h = h
  fill_keeps zero a (some b ∷ vs) (suc j) h = h
  fill_keeps (suc i) a (none ∷ vs) zero h = h
  fill_keeps (suc i) a (some b ∷ vs) zero h = h
  fill_keeps (suc i) a (none ∷ vs) (suc j) h = fill_keeps i a vs j h
  fill_keeps (suc i) a (some b ∷ vs) (suc j) h = fill_keeps i a vs j h

  pub length-fill : (i : ℕ) (a : A) (vs : List (Option A)) → length (fill i a vs) ≡ length vs
  length-fill i a [] = refl
  length-fill zero a (v ∷ vs) = refl
  length-fill (suc i) a (v ∷ vs) = ap suc (length-fill i a vs)

  -- Once every source has a value, all values are emitted.
  pub all_there-Agree :
      (vs : List (Option A)) (as' : List A)
      → Agree vs as'
      → ((i : ℕ) → i < length as' → is_filled vs i ≡ true)
      → all_there vs ≡ some as'
  all_there-Agree [] [] h k = refl
  all_there-Agree [] (a ∷ as') h k = elim h [ ]
  all_there-Agree (none ∷ vs) [] h k = elim h [ ]
  all_there-Agree (some b ∷ vs) [] h k = elim h [ ]
  all_there-Agree (none ∷ vs) (a ∷ as') h k = absurd (ground (arith, k 0 (omega arith)))
  all_there-Agree (some b ∷ vs) (a ∷ as') (e, h) k =
      ap₂ (λ c o. cons? c o) e (all_there-Agree vs as' h (λ i l. k (suc i) (omega arith)))

  -- What is emitted is what the sources gave.
  pub emitted :
      (vs : List (Option A)) (as' bs : List A) → Agree vs as' → all_there vs ≡ some bs → bs ≡ as'
  emitted [] [] bs h e = some_of (sym e)
  emitted [] (a ∷ as') bs h e = elim h [ ]
  emitted (none ∷ vs) [] bs h e = elim h [ ]
  emitted (some b ∷ vs) [] bs h e = elim h [ ]
  emitted (none ∷ vs) (a ∷ as') bs h e = absurd (none_is e)
  emitted (some b ∷ vs) (a ∷ as') bs (k, h) e = elim (Option-cases (all_there vs)) [
    | inl n ↦ absurd (none_is (ap (cons? b) (sym n) ∙ e))
    | inr (cs, n) ↦ some_of (sym e ∙ ap (cons? b) n) ∙ ap₂ ◌∷◌ k (emitted vs as' cs h n)
  ]

pub length-no_values : (A : Type 0) (n : ℕ) → length (no_values {A = A} n) ≡ n
length-no_values A zero = refl
length-no_values A (suc n) = ap suc (length-no_values A n)
