-- ===== src/Format/Decimal.antt =====
-- The decimal texts that `String(n)` gives in packages/dashboard-react/src/format.ts, and their reading.
use Prim.Native.Char.{code}
use Prim.Native.String.{[], ◌∷◌}
use webalytics.Common.{
  ℕ, zero, suc, ◌+◌, ◌-◌, ◌*◌, ◌/◌, ◌%◌, ◌≤◌, ◌<◌, String, Bool, false, ◌&&◌, Option, none, some,
  ◌≡◌, refl, sym, ◌∙◌, ap, eq_iff, ◌==◌, ltb, leb, ◌=ℕ◌, if◌then◌else◌, Bool-cases, inl, inr, arith,
}
use webalytics.Format.Core.{digit, digits_from, decimal}

-- Reads a decimal text, after digits that stand for `acc`.
unfoldable pub read_decimal : ℕ → String → Option ℕ
read_decimal acc [] = some acc
read_decimal acc (c ∷ s) =
    let rest = read_decimal (acc * 10 + (code c - b'0')) s in
    if leb b'0' (code c) && leb (code c) b'9' then rest else none

read-digit :
    (d acc : ℕ) (s : String)
    → d < 10
    → read_decimal acc (digit d ∷ s) ≡ read_decimal (acc * 10 + d) s
unfolding read_decimal digit
read-digit zero acc s h = ap (λ m. read_decimal m s) (omega arith)
read-digit (suc zero) acc s h = ap (λ m. read_decimal m s) (omega arith)
read-digit (suc (suc zero)) acc s h = ap (λ m. read_decimal m s) (omega arith)
read-digit (suc (suc (suc zero))) acc s h = ap (λ m. read_decimal m s) (omega arith)
read-digit (suc (suc (suc (suc zero)))) acc s h = ap (λ m. read_decimal m s) (omega arith)
read-digit (suc (suc (suc (suc (suc zero))))) acc s h = ap (λ m. read_decimal m s) (omega arith)
read-digit (suc (suc (suc (suc (suc (suc zero)))))) acc s h =
    ap (λ m. read_decimal m s) (omega arith)
read-digit (suc (suc (suc (suc (suc (suc (suc zero))))))) acc s h =
    ap (λ m. read_decimal m s) (omega arith)
read-digit (suc (suc (suc (suc (suc (suc (suc (suc zero)))))))) acc s h =
    ap (λ m. read_decimal m s) (omega arith)
read-digit (suc (suc (suc (suc (suc (suc (suc (suc (suc zero))))))))) acc s h =
    ap (λ m. read_decimal m s) (omega arith)
read-digit (suc (suc (suc (suc (suc (suc (suc (suc (suc (suc n)))))))))) acc s h =
    absurd (omega (arith, h))

plus_zero : (n : ℕ) → 0 * 10 + n ≡ n
plus_zero n = omega arith

-- Reading the last digit after those before it gives the number.
last_digit : (n : ℕ) → n / 10 * 10 + n % 10 ≡ n
last_digit n = omega arith

tenth_lt : (n fuel : ℕ) → 10 ≤ n → n < suc fuel → n / 10 < fuel
tenth_lt n fuel h k = omega (arith, h, k)

read-digits_from :
    (fuel n : ℕ) (s : String) → n < fuel → read_decimal 0 (digits_from fuel n s) ≡ read_decimal n s
unfolding digits_from
read-digits_from zero n s h = absurd (omega (arith, h))
read-digits_from (suc fuel) n s h = elim (Bool-cases (ltb n 10)) [
  | inl b ↦ rw b (read-digit n 0 s (ground arith) ∙ ap (λ m. read_decimal m s) (plus_zero n))
  | inr b ↦ rw b (
      read-digits_from fuel (n / 10) (digit (n % 10) ∷ s) (tenth_lt n fuel (ground arith) h)
      ∙ read-digit (n % 10) (n / 10) s (omega arith)
      ∙ ap (λ m. read_decimal m s) (last_digit n))
]

-- A text that starts with a zero.
unfoldable pub leads_zero : String → Bool
leads_zero [] = false
leads_zero (c ∷ s) = code c =ℕ b'0'

digit-zero : (d : ℕ) (s : String) → d < 10 → 0 < d → leads_zero (digit d ∷ s) ≡ false
unfolding digit leads_zero
digit-zero zero s h k = absurd (omega (arith, k))
digit-zero (suc zero) s h k = refl
digit-zero (suc (suc zero)) s h k = refl
digit-zero (suc (suc (suc zero))) s h k = refl
digit-zero (suc (suc (suc (suc zero)))) s h k = refl
digit-zero (suc (suc (suc (suc (suc zero))))) s h k = refl
digit-zero (suc (suc (suc (suc (suc (suc zero)))))) s h k = refl
digit-zero (suc (suc (suc (suc (suc (suc (suc zero))))))) s h k = refl
digit-zero (suc (suc (suc (suc (suc (suc (suc (suc zero)))))))) s h k = refl
digit-zero (suc (suc (suc (suc (suc (suc (suc (suc (suc zero))))))))) s h k = refl
digit-zero (suc (suc (suc (suc (suc (suc (suc (suc (suc (suc n)))))))))) s h k =
    absurd (omega (arith, h))

digits_from-zero :
    (fuel n : ℕ) (s : String) → n < fuel → 0 < n → leads_zero (digits_from fuel n s) ≡ false
unfolding digits_from
digits_from-zero zero n s h k = absurd (omega (arith, h))
digits_from-zero (suc fuel) n s h k = elim (Bool-cases (ltb n 10)) [
  | inl b ↦ rw b (digit-zero n s (ground arith) k)
  | inr b ↦ rw b (
      digits_from-zero fuel (n / 10) (digit (n % 10) ∷ s) (tenth_lt n fuel (ground arith) h)
        (ground arith))
]

-- The fuel of `decimal` is enough for every number: its text is read back as the number, and it has
-- a leading zero only if the number is 0.
pub read-decimal :
    (n : ℕ) → (read_decimal 0 (decimal n) ≡ some n) × (0 < n → leads_zero (decimal n) ≡ false)
unfolding decimal read_decimal
read-decimal n =
    (read-digits_from (suc n) n "" (omega arith), digits_from-zero (suc n) n "" (omega arith))

empty_zero : read_decimal 0 "" ≡ some 0
unfolding read_decimal
empty_zero = refl

some-suc : (n : ℕ) → some (suc n) ≡ some 0 → ⊥
some-suc n e = ground (arith, e)

-- The text of a number is not empty.
pub decimal-filled : (n : ℕ) → decimal n == "" ≡ false
unfolding decimal digits_from digit
decimal-filled zero = refl
decimal-filled (suc n) = elim (Bool-cases (decimal (suc n) == "")) [
  | inl h ↦
      let nothing : read_decimal 0 (decimal (suc n)) ≡ some 0 =
        ap (read_decimal 0) ((eq_iff (decimal (suc n)) "").0 h) ∙ empty_zero in
      absurd (some-suc n (sym (read-decimal (suc n)).0 ∙ nothing))
  | inr h ↦ h
]
