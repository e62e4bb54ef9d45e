-- ===== src/Format/Flag.antt =====
-- `countryFlag` of packages/dashboard-react/src/format.ts.
use webalytics.Common.{
  ℕ, ◌+◌, ◌-◌, ◌<◌, true, ◌&&◌, List, [], ◌∷◌, ◌≡◌, refl, ◌⊎◌, inl, inr, if_elim, arith,
}
use webalytics.Format.Core.{country_flag, upper, is_letter}

-- Two regional indicator symbols, the letters a and b of the alphabet counted from 0.
abbrev pub flag : ℕ → ℕ → List ℕ
flag a b = (0x1f1e6 + a) ∷ (0x1f1e6 + b) ∷ []

abbrev pub IsFlag : List ℕ → Type 0
IsFlag xs = (xs ≡ []) ⊎ (a : ℕ) × (b : ℕ) × (a < 26) × (b < 26) × (xs ≡ flag a b)

two_letters :
    (a b : ℕ)
    → is_letter a && is_letter b ≡ true
    → IsFlag ((0x1f1e6 - 0x41 + a) ∷ (0x1f1e6 - 0x41 + b) ∷ [])
two_letters a b h =
    let first : 0x1f1e6 - 0x41 + a ≡ 0x1f1e6 + (a - 0x41) = ground arith in
    let second : 0x1f1e6 - 0x41 + b ≡ 0x1f1e6 + (b - 0x41) = ground arith in
    inr (a - 0x41, b - 0x41, ground arith, ground arith, rw (first, second) refl)

-- Whatever the text, its flag is empty or consists of two regional indicator symbols.
pub country_flag-IsFlag : (cc : List ℕ) → IsFlag (country_flag cc)
unfolding country_flag
country_flag-IsFlag [] = inl refl
country_flag-IsFlag (a ∷ []) = inl refl
country_flag-IsFlag (a ∷ b ∷ c ∷ cs) = inl refl
country_flag-IsFlag (a ∷ b ∷ []) =
    if_elim IsFlag (is_letter (upper a) && is_letter (upper b))
      (λ h. two_letters (upper a) (upper b) h) (λ _. inl refl)
