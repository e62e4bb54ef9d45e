-- ===== src/Format/Angular.antt =====
-- packages/dashboard-angular/src/format.ts: the formatters of the Angular dashboard, beside those of
-- packages/dashboard-react/src/format.ts.
use webalytics.Common.{
  ℕ, ◌+◌, ◌-◌, ◌/◌, ◌%◌, String, not, ◌&&◌, ◌||◌, List, [], ◌∷◌, ◌+++◌, ◌≡◌, refl, ◌=ℕ◌, ltb, leb,
  if◌then◌else◌,
}
use webalytics.Numbers.{Floats}
use webalytics.Format.Core.{decimal, int_text, magnitude, drop_dot_zero, upper, is_letter}
use webalytics.Format.Core as React

module _ (F : Floats) where
  open F use {Number, lit, le, lt, mul, div, is_finite, round, of_int, to_fixed}

  -- A number in some unit, with one digit unless that is a zero.
  abbrev in_units : Number → ℕ → String → String
  in_units v unit letter = drop_dot_zero (to_fixed 1 (div v (lit unit 0))) +++ letter

  unfoldable pub format_int : Number → String
  format_int n =
      let v = round n in
      if not (is_finite n)
      then "0"
      else if leb 1000000 (magnitude v)
      then in_units (of_int v) 1000000 "M"
      else if leb 1000 (magnitude v)
      then in_units (of_int v) 1000 "k"
      else int_text v

  unfoldable pub format_pct : Number → ℕ → String
  format_pct n digits =
      let ratio = le n (lit 1 0) && le (lit 0 0) n in
      if not (is_finite n)
      then "0%"
      else to_fixed digits (if ratio then mul n (lit 100 0) else n) +++ "%"

  unfoldable pub minutes_text : (m rem : ℕ) → String
  minutes_text m rem =
      if rem =ℕ 0 then decimal m +++ "m" else decimal m +++ ("m " +++ (decimal rem +++ "s"))

  unfoldable pub hours_text : (h rm : ℕ) → String
  hours_text h rm =
      if rm =ℕ 0 then decimal h +++ "h" else decimal h +++ ("h " +++ (decimal rm +++ "m"))

  unfoldable pub format_duration : Number → String
  unfolding minutes_text hours_text
  format_duration seconds =
      let s = magnitude (round seconds) in
      if not (is_finite seconds) || lt seconds (lit 0 0)
      then "0s"
      else if ltb s 60
      then decimal s +++ "s"
      else if ltb (s / 60) 60
      then minutes_text (s / 60) (s % 60)
      else hours_text (s / 60 / 60) (s / 60 % 60)

  unfoldable pub format_ms : Number → String
  format_ms n =
      if not (is_finite n)
      then "—"
      else if le (lit 1000 0) n
      then to_fixed 2 (div n (lit 1000 0)) +++ "s"
      else int_text (round n) +++ "ms"

  unfoldable pub format_cls : Number → String
  format_cls n = if not (is_finite n) then "—" else to_fixed 3 n

-- The regional indicators of the two letters of a country, as code points.
unfoldable pub country_flag : List ℕ → List ℕ
country_flag (a ∷ b ∷ []) =
    let base = 0x1f1e6 - 0x41 in
    if is_letter (upper a) && is_letter (upper b)
    then (base + upper a) ∷ (base + upper b) ∷ []
    else []
country_flag _ = []

flags_agree : (units : List ℕ) → country_flag units ≡ React.country_flag units
unfolding country_flag React.country_flag
flags_agree [] = refl
flags_agree (a ∷ []) = refl
flags_agree (a ∷ b ∷ []) = refl
flags_agree (a ∷ b ∷ c ∷ units) = refl

-- The two packages format every number, duration and country alike.
pub formats_agree :
    (F : Floats) (n : F.Number) (digits : ℕ) (units : List ℕ)
    → (format_int F n ≡ React.format_int F n)
      × (format_pct F n digits ≡ React.format_pct F n digits)
      × (format_duration F n ≡ React.format_duration F n)
      × (format_ms F n ≡ React.format_ms F n)
      × (format_cls F n ≡ React.format_cls F n)
      × (country_flag units ≡ React.country_flag units)
unfolding format_int React.format_int format_pct React.format_pct format_duration
    React.format_duration React.seconds_text format_ms React.format_ms format_cls React.format_cls
formats_agree F n digits units = (refl, refl, refl, refl, refl, flags_agree units)
