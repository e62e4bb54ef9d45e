-- ===== src/Numbers.antt =====
-- JavaScript's floating point numbers, as an interface: the comparisons and sums that the program
-- makes, and the laws of IEEE 754 that its proofs use. `lit n d` is the literal n / 10 ^ d.
-- A NaN compares false with everything, itself included.
use webalytics.Common.{
  ℕ, ◌*◌, ◌^◌, ◌≤◌, Bool, true, false, not, ◌&&◌, ◌||◌, String, List, [], ◌∷◌, ◌≡◌, if◌then◌else◌,
}

-- Integers, as `Math.round` returns them; `negsuc n` is -(n + 1).
pub data ℤ : Type 0 where
  pos : ℕ → ℤ
  negsuc : ℕ → ℤ

pub record Floats : Type 1 where
  pub Number : Type 0
  pub lit : ℕ → ℕ → Number
  pub le : Number → Number → Bool
  pub lt : Number → Number → Bool
  pub add : Number → Number → Number
  pub sub : Number → Number → Number
  pub mul : Number → Number → Number
  pub div : Number → Number → Number
  pub is_finite : Number → Bool
  pub round : Number → ℤ  -- `Math.round`, on finite numbers
  pub of_int : ℤ → Number
  pub to_fixed : ℕ → Number → String  -- the number of digits first
  pub le_trans : (a b c : Number) → le a b ≡ true → le b c ≡ true → le a c ≡ true
  -- a <= a tells a number from a NaN; on numbers `<` and `<=` are those of a total order.
  pub le_of_lt : (a b : Number) → lt a b ≡ true → le a b ≡ true
  pub le_of_not_lt : (a b : Number) → le a a ≡ true → le b b ≡ true → lt a b ≡ false → le b a ≡ true
  pub lt_asym : (a b : Number) → lt a b ≡ true → lt b a ≡ false
  -- A sum of numbers that are not negative is not negative.
  pub add-lt_zero :
      (a b : Number)
      → lt a (lit 0 0) ≡ false
      → lt b (lit 0 0) ≡ false
      → lt (add a b) (lit 0 0) ≡ false
  pub lit-lt_zero : (n d : ℕ) → lt (lit n d) (lit 0 0) ≡ false
  pub le-number : (a b : Number) → le a b ≡ true → (le a a ≡ true) × (le b b ≡ true)
  -- Literals are ordered as the numbers they stand for.
  pub le-lit : (n d m e : ℕ) → n * 10 ^ e ≤ m * 10 ^ d → le (lit n d) (lit m e) ≡ true
  -- Rounding keeps the order of quotients and products by a positive finite number.
  pub div_mono :
      (a b c : Number)
      → is_finite c ≡ true
      → lt (lit 0 0) c ≡ true
      → le a b ≡ true
      → le (div a c) (div b c) ≡ true
  pub mul_mono :
      (a b c : Number)
      → is_finite c ≡ true
      → lt (lit 0 0) c ≡ true
      → le a b ≡ true
      → le (mul a c) (mul b c) ≡ true
  pub lit-positive :
      (n : ℕ) → 1 ≤ n → n ≤ 1000000 → (is_finite (lit n 0) ≡ true) × (lt (lit 0 0) (lit n 0) ≡ true)

module _ (F : Floats) where
  open F use {Number, le, lt, lit}

  -- `Math.max` and `Math.min` of two numbers; a NaN among them is the result. The sign of a zero is
  -- left out: nothing here tells the two zeros apart.
  unfoldable pub max : Number → Number → Number
  max a b = if not (le a a) then a else if not (le b b) then b else if lt a b then b else a

  unfoldable pub min : Number → Number → Number
  min a b = if not (le a a) then a else if not (le b b) then b else if lt b a then b else a

  -- `Math.max(...xs)` of at least one number.
  unfoldable pub max_of : Number → List Number → Number
  max_of x [] = x
  max_of x (y ∷ ys) = max_of (max x y) ys

  -- `x || 1`
  unfoldable pub or_one : Number → Number
  or_one x = if not (le x x) || (le x (lit 0 0) && le (lit 0 0) x) then lit 1 0 else x
