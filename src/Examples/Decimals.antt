-- ===== src/Examples/Decimals.antt =====
-- Decimal fractions as an instance of `Floats`.
use native.Mathlib.Nat.{mul-le-mul_left, le_of_mul-le-mul_left, one-le-pow}
use native.Mathlib.Numerals.{unary_clauses}
use webalytics.Common.{
  refl, zero, suc, ℕ, ◌+◌, ◌-◌, ◌*◌, ◌/◌, ◌^◌, ◌≤◌, Bool, true, false, ◌≡◌, ltb, leb, le→leb,
  leb→le, arith,
}
use webalytics.Numbers.{Floats, ℤ, pos, negsuc}

-- num / 10 ^ digits
abbrev pub Decimal : Type 0
Decimal = ℕ × ℕ

abbrev pub le_decimal : Decimal → Decimal → Bool
le_decimal a b = leb (a.0 * 10 ^ b.1) (b.0 * 10 ^ a.1)

abbrev pub lt_decimal : Decimal → Decimal → Bool
lt_decimal a b = ltb (a.0 * 10 ^ b.1) (b.0 * 10 ^ a.1)

cross : (n m k D E F : ℕ) → 1 ≤ E → n * E ≤ m * D → m * F ≤ k * E → n * F ≤ k * D
cross n m k D E F p h g =
    let up : F * (n * E) ≤ F * (m * D) = mul-le-mul_left F h in
    let down : D * (m * F) ≤ D * (k * E) = mul-le-mul_left D g in
    let all : E * (n * F) ≤ E * (k * D) = omega arith in le_of_mul-le-mul_left all p

pub le_trans_decimal :
    (a b c : Decimal) → le_decimal a b ≡ true → le_decimal b c ≡ true → le_decimal a c ≡ true
le_trans_decimal a b c h g = le→leb _ _ (
    cross a.0 b.0 c.0 (10 ^ a.1) (10 ^ b.1) (10 ^ c.1) (one-le-pow b.1 10 (omega arith))
      (leb→le _ _ h) (leb→le _ _ g))

pub le_of_lt_decimal : (a b : Decimal) → lt_decimal a b ≡ true → le_decimal a b ≡ true
le_of_lt_decimal a b h = ground arith

pub le_of_not_lt_decimal :
    (a b : Decimal)
    → le_decimal a a ≡ true
    → le_decimal b b ≡ true
    → lt_decimal a b ≡ false
    → le_decimal b a ≡ true
le_of_not_lt_decimal a b p q h = ground arith

pow-add : (m n : ℕ) → 10 ^ (m + n) ≡ 10 ^ m * 10 ^ n
pow-add m zero = simp unary_clauses (omega arith)
pow-add m (suc n) = simp unary_clauses (omega (arith, pow-add m n))

-- A product keeps the order of its first factor.
pub mul_mono_decimal :
    (a b c : Decimal)
    → le_decimal a b ≡ true
    → le_decimal (a.0 * c.0, a.1 + c.1) (b.0 * c.0, b.1 + c.1) ≡ true
mul_mono_decimal a b c h =
    let p : a.0 * 10 ^ b.1 ≤ b.0 * 10 ^ a.1 = leb→le _ _ h in
    let q : c.0 * 10 ^ c.1 * (a.0 * 10 ^ b.1) ≤ c.0 * 10 ^ c.1 * (b.0 * 10 ^ a.1) =
      mul-le-mul_left (c.0 * 10 ^ c.1) p in
    le→leb _ _ (rw (pow-add b.1 c.1, pow-add a.1 c.1) (omega (arith, q)))

pub le_refl_decimal : (a : Decimal) → le_decimal a a ≡ true
le_refl_decimal a = le→leb _ _ (omega arith)

pub positive_decimal : (n : ℕ) → 1 ≤ n → lt_decimal (0, 0) (n, 0) ≡ true
positive_decimal n h = ground arith

pub lt_asym_decimal : (a b : Decimal) → lt_decimal a b ≡ true → lt_decimal b a ≡ false
lt_asym_decimal a b h = ground arith

pub not_negative : (a : Decimal) → lt_decimal a (0, 0) ≡ false
not_negative a = ground arith

abbrev pub magnitude : ℤ → ℕ
magnitude (pos n) = n
magnitude (negsuc n) = 0

-- Numbers that are not negative, with the operations as far as the examples need them.
abbrev pub decimals : Floats
decimals = record {
  Number = Decimal;
  lit = λ n d. (n, d);
  le = le_decimal;
  lt = lt_decimal;
  add = λ a b. (a.0 * 10 ^ b.1 + b.0 * 10 ^ a.1, a.1 + b.1);
  sub = λ a b. (a.0 * 10 ^ b.1 - b.0 * 10 ^ a.1, a.1 + b.1);
  mul = λ a b. (a.0 * b.0, a.1 + b.1);
  div = λ a b. a;
  is_finite = λ a. true;
  round = λ a. pos (a.0 / 10 ^ a.1);
  of_int = λ z. (magnitude z, 0);
  to_fixed = λ n a. "";
  le_trans = le_trans_decimal;
  le_of_lt = le_of_lt_decimal;
  le_of_not_lt = le_of_not_lt_decimal;
  lt_asym = λ a b h. lt_asym_decimal a b h;
  add-lt_zero = λ a b h k. not_negative _;
  lit-lt_zero = λ n d. not_negative (n, d);
  le-number = λ a b h. (le_refl_decimal a, le_refl_decimal b);
  le-lit = λ n d m e h. le→leb _ _ h;
  div_mono = λ a b c f p h. h;
  mul_mono = λ a b c f p h. mul_mono_decimal a b c h;
  lit-positive = λ n h k. (refl, positive_decimal n h);
}
