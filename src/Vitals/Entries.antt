-- ===== src/Vitals/Entries.antt =====
-- What the browser delivered, as specifications over all deliveries: the entries of each kind, their
-- sum, maximum and last, and the values that the reports give.
use webalytics.Common.{true, List, [], ◌∷◌, ◌++◌, ◌≡◌, refl, arith, if◌then◌else◌}
use webalytics.Numbers.{Floats}
use webalytics.Vitals.Core.{
  VitalName, VitalSample, LayoutShift, Signal, shift_entries, event_entries, lcp_entries,
  visibility_change, pagehide, dispose,
}
use webalytics.Vitals.Once.{same}

-- The values that a list of samples gives for a vital.
unfoldable pub values_of : {V : Type 0} → VitalName → List (VitalSample V) → List V
values_of n [] = []
values_of n (x ∷ xs) = let rest = values_of n xs in if same n x.name then x.value ∷ rest else rest

pub values_of-append :
    {V : Type 0} (n : VitalName) (xs ys : List (VitalSample V))
    → values_of n (xs ++ ys) ≡ values_of n xs ++ values_of n ys
unfolding values_of
values_of-append n [] ys = refl
values_of-append n (x ∷ xs) ys = ground (arith, values_of-append n xs ys)

-- The entries that one delivery brings.
abbrev pub shifts_of : {V : Type 0} → Signal V → List (LayoutShift V)
shifts_of (shift_entries es) = es
shifts_of _ = []

abbrev pub durations_of : {V : Type 0} → Signal V → List V
durations_of (event_entries es) = es
durations_of _ = []

abbrev pub paints_of : {V : Type 0} → Signal V → List V
paints_of (lcp_entries es) = es
paints_of _ = []

-- All entries of a kind, over all deliveries.
abbrev pub entries_in : {V A : Type 0} → (Signal V → List A) → List (Signal V) → List A
entries_in of' [] = []
entries_in of' (x ∷ xs) = of' x ++ entries_in of' xs

-- The page is not hidden yet, and nobody disposed of the collector.
abbrev pub IsOpen : {V : Type 0} → Signal V → Type 0
IsOpen (visibility_change true) = ⊥
IsOpen pagehide = ⊥
IsOpen dispose = ⊥
IsOpen _ = Unit

-- The last of a list, or what was there before it.
unfoldable pub latest : {A : Type 0} → A → List A → A
latest a [] = a
latest a (x ∷ xs) = latest x xs

pub latest-append :
    {A : Type 0} (a : A) (xs ys : List A) → latest a (xs ++ ys) ≡ latest (latest a xs) ys
unfolding latest
latest-append a [] ys = refl
latest-append a (x ∷ xs) ys = latest-append x xs ys

module _ (F : Floats) where
  open F use {Number, lt, add}

  -- The sum of the shifts that no user input caused.
  unfoldable pub shift_sum : Number → List (LayoutShift Number) → Number
  shift_sum acc [] = acc
  shift_sum acc (e ∷ es) = shift_sum (if e.had_recent_input then acc else add acc e.value) es

  -- The largest of some durations, by the comparison of the source.
  unfoldable pub largest : Number → List Number → Number
  largest acc [] = acc
  largest acc (d ∷ ds) = largest (if lt acc d then d else acc) ds

  pub shift_sum-append :
      (acc : Number) (xs ys : List (LayoutShift Number))
      → shift_sum acc (xs ++ ys) ≡ shift_sum (shift_sum acc xs) ys
  unfolding shift_sum
  shift_sum-append acc [] ys = refl
  shift_sum-append acc (x ∷ xs) ys =
      shift_sum-append (if x.had_recent_input then acc else add acc x.value) xs ys

  pub largest-append :
      (acc : Number) (xs ys : List Number) → largest acc (xs ++ ys) ≡ largest (largest acc xs) ys
  unfolding largest
  largest-append acc [] ys = refl
  largest-append acc (x ∷ xs) ys = largest-append (if lt acc x then x else acc) xs ys
