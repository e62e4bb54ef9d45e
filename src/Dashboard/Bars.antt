-- ===== src/Dashboard/Bars.antt =====
-- The bars of the lists (`barFill` of packages/dashboard-react/src/styles.ts, and its argument in
-- components/top-list.tsx): their widths and their order.
use webalytics.Common.{ℕ, String, true, false, not, List, [], ◌∷◌, map, ◌≡◌, arith, All, if_elim}
use webalytics.Numbers.{Floats, max, min, max_of, or_one}
use webalytics.Client.Types.{DimensionName}
use webalytics.Dashboard.TopList.{Row, Label, ListRow, bar_fill, list_row, max_share, list_rows}

module _ (F : Floats) where
  open F use {
    Number, lit, le, lt, mul, div, is_finite, le_trans, le_of_lt, le_of_not_lt, le-number, le-lit,
    div_mono, mul_mono, lit-positive,
  }

  abbrev IsNumber : Number → Type 0
  IsNumber a = le a a ≡ true

  lit-IsNumber : (n : ℕ) → IsNumber (lit n 0)
  lit-IsNumber n = le-lit n 0 n 0 (omega arith)

  -- What holds of two numbers holds of their maximum.
  max_elim : (P : Number → Type 0) (a b : Number) → P a → P b → P (max F a b)
  unfolding max
  max_elim P a b p q =
      if_elim P (not (le a a)) (λ _. p)
        (λ _. if_elim P (not (le b b)) (λ _. q) (λ _. if_elim P (lt a b) (λ _. q) (λ _. p)))

  max_of_elim :
      (P : Number → Type 0) (a : Number) (xs : List Number) → P a → All P xs → P (max_of F a xs)
  unfolding max_of
  max_of_elim P a [] p h = p
  max_of_elim P a (x ∷ xs) p (q, h) = max_of_elim P (max F a x) xs (max_elim P a x p q) h

  max_left : (a b : Number) → IsNumber a → IsNumber b → le a (max F a b) ≡ true
  unfolding max
  max_left a b p q = ground (arith, le_of_lt a b)

  max_least : (a b c : Number) → le a c ≡ true → le b c ≡ true → le (max F a b) c ≡ true
  max_least a b c p q = max_elim (λ x. le x c ≡ true) a b p q

  min_lower : (a b : Number) → IsNumber a → IsNumber b → le (min F a b) a ≡ true
  unfolding min
  min_lower a b p q = ground (arith, le_of_lt b a)

  min-IsNumber : (a b : Number) → IsNumber a → IsNumber b → IsNumber (min F a b)
  unfolding min
  min-IsNumber a b p q = ground arith

  min_mono : (a b c : Number) → IsNumber a → le b c ≡ true → le (min F a b) (min F a c) ≡ true
  unfolding min
  min_mono a b c p h =
      let (q, r) = le-number b c h in
      let kept : le a b ≡ true → le a c ≡ true = λ k. le_trans a b c k h in
      ground (arith, le_of_not_lt b a q p, le_of_not_lt c a r p, le_of_lt b a, kept)

  max_mono : (a b c : Number) → IsNumber a → le b c ≡ true → le (max F a b) (max F a c) ≡ true
  unfolding max
  max_mono a b c p h =
      let (q, r) = le-number b c h in
      ground (
        arith,
        le_of_not_lt a b p q,
        le_of_not_lt a c p r,
        le_of_lt a c,
        le_of_lt a b,
        le_trans b c a h,
      )

  bar_fill-bounds :
      (x : Number)
      → IsNumber x
      → (le (lit 2 0) (bar_fill F x) ≡ true) × (le (bar_fill F x) (lit 100 0) ≡ true)
  unfolding bar_fill
  bar_fill-bounds x n =
      let (finite, positive) = lit-positive 100 (omega arith) (omega arith) in
      let shown : IsNumber (mul x (lit 100 0)) = mul_mono x x (lit 100 0) finite positive n in
      (
        max_left (lit 2 0) (min F (lit 100 0) (mul x (lit 100 0))) (lit-IsNumber 2)
            (min-IsNumber (lit 100 0) (mul x (lit 100 0)) (lit-IsNumber 100) shown),
        max_least (lit 2 0) (min F (lit 100 0) (mul x (lit 100 0))) (lit 100 0)
            (le-lit 2 0 100 0 (omega arith))
            (min_lower (lit 100 0) (mul x (lit 100 0)) (lit-IsNumber 100) shown),
      )

  bar_fill_mono : (x y : Number) → le x y ≡ true → le (bar_fill F x) (bar_fill F y) ≡ true
  unfolding bar_fill
  bar_fill_mono x y h =
      let (finite, positive) = lit-positive 100 (omega arith) (omega arith) in
      max_mono (lit 2 0) (min F (lit 100 0) (mul x (lit 100 0)))
        (min F (lit 100 0) (mul y (lit 100 0))) (lit-IsNumber 2)
        (min_mono (lit 100 0) (mul x (lit 100 0)) (mul y (lit 100 0)) (lit-IsNumber 100)
          (mul_mono x y (lit 100 0) finite positive h))

  -- Shares are finite and not negative; what one divides by is finite and positive.
  abbrev pub IsShare : Number → Type 0
  IsShare x = (is_finite x ≡ true) × (le (lit 0 0) x ≡ true)

  abbrev IsDivisor : Number → Type 0
  IsDivisor x = (is_finite x ≡ true) × (lt (lit 0 0) x ≡ true)

  or_one-IsDivisor : (x : Number) → IsShare x → IsDivisor (or_one F x)
  unfolding or_one
  or_one-IsDivisor x (f, p) =
      let (_, n) = le-number (lit 0 0) x p in
      let (one_finite, one_positive) = lit-positive 1 (omega arith) (omega arith) in
      let above : lt (lit 0 0) x ≡ false → le x (lit 0 0) ≡ true =
        le_of_not_lt (lit 0 0) x (lit-IsNumber 0) n in
      (ground (arith, f, one_finite), ground (arith, n, p, above, one_positive))

  -- The rows of an answer.
  abbrev pub HasShare : Row Number → Type 0
  HasShare r = IsShare r.share

  shares-All :
      (rows : List (Row Number)) → All HasShare rows → All IsShare (map (λ r. r.share) rows)
  shares-All [] h = tt
  shares-All (r ∷ rows) (p, h) = (p, shares-All rows h)

  max_share-IsDivisor :
      (r : Row Number) (rows : List (Row Number))
      → All HasShare (r ∷ rows)
      → IsDivisor (max_share F r rows)
  unfolding max_share
  max_share-IsDivisor r rows (p, h) =
      or_one-IsDivisor (max_of F r.share (map (λ x. x.share) rows))
        (max_of_elim IsShare r.share (map (λ x. x.share) rows) p (shares-All rows h))

  -- A bar's width is between 2 and 100 percent.
  abbrev pub IsBar : ListRow Number → Type 0
  IsBar v = (le (lit 2 0) v.bar ≡ true) × (le v.bar (lit 100 0) ≡ true)

  list_row-IsBar :
      (render : String → DimensionName → Label) (d : DimensionName) (m : Number)
      (rows : List (Row Number))
      → IsDivisor m
      → All HasShare rows
      → All IsBar (map (list_row F render d m) rows)
  unfolding list_row
  list_row-IsBar render d m [] p h = tt
  list_row-IsBar render d m (r ∷ rows) p ((f, k), h) =
      let (_, n) = le-number (lit 0 0) r.share k in
      (
        bar_fill-bounds (div r.share m) (div_mono r.share r.share m p.0 p.1 n),
        list_row-IsBar render d m rows p h,
      )

  -- When all shares are finite and none is negative, every bar of a list is between 2 and 100
  -- percent wide, and a row of the list whose share is at most another's has a bar that is at most
  -- as long.
  pub bars_show_shares :
      (render : String → DimensionName → Label) (d : DimensionName) (r : Row Number)
      (rows : List (Row Number)) (x y : Row Number)
      → All HasShare (r ∷ rows)
      → le x.share y.share ≡ true
      → let shown = list_row F render d (max_share F r rows) in
        All IsBar (list_rows F render d (r ∷ rows)) × (le (shown x).bar (shown y).bar ≡ true)
  unfolding list_rows list_row
  bars_show_shares render d r rows x y h k =
      let (f, p) = max_share-IsDivisor r rows h in
      (
        list_row-IsBar render d (max_share F r rows) (r ∷ rows) (f, p) h,
        bar_fill_mono (div x.share (max_share F r rows)) (div y.share (max_share F r rows))
            (div_mono x.share y.share (max_share F r rows) f p k),
      )
