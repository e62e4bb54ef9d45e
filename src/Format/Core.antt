-- ===== src/Format/Core.antt =====
-- packages/dashboard-react/src/format.ts. `Math.round`, `toFixed` and the float operations are those
-- of the interface `Floats`; texts are put together from decimal numerals.
use Prim.Native.Char.{Char}
use webalytics.Common.{
  ℕ, zero, suc, ◌+◌, ◌-◌, ◌/◌, ◌%◌, String, Bool, not, ◌&&◌, ◌||◌, List, [], ◌∷◌, ◌==◌, ◌+++◌, ◌=ℕ◌,
  ltb, leb, if◌then◌else◌,
}
use webalytics.Numbers.{Floats, ℤ, pos, negsuc}

unfoldable pub digit : ℕ → Char
digit zero = "0"
digit (suc zero) = "1"
digit (suc (suc zero)) = "2"
digit (suc (suc (suc zero))) = "3"
digit (suc (suc (suc (suc zero)))) = "4"
digit (suc (suc (suc (suc (suc zero))))) = "5"
digit (suc (suc (suc (suc (suc (suc zero)))))) = "6"
digit (suc (suc (suc (suc (suc (suc (suc zero))))))) = "7"
digit (suc (suc (suc (suc (suc (suc (suc (suc zero)))))))) = "8"
digit (suc (suc (suc (suc (suc (suc (suc (suc (suc n))))))))) = "9"

-- A number has at most as many digits as its value, and one more.
unfoldable pub digits_from : ℕ → ℕ → String → String
digits_from zero n acc = acc
digits_from (suc fuel) n acc =
    let more = digits_from fuel (n / 10) (String.◌∷◌ (digit (n % 10)) acc) in
    if ltb n 10 then String.◌∷◌ (digit n) acc else more

-- `String(n)` of a natural number.
unfoldable pub decimal : ℕ → String
unfolding digits_from digit
decimal n = digits_from (suc n) n ""

abbrev pub magnitude : ℤ → ℕ
magnitude (pos n) = n
magnitude (negsuc n) = suc n

unfoldable pub int_text : ℤ → String
int_text (pos n) = decimal n
int_text (negsuc n) = "-" +++ decimal (suc n)

-- `s.replace(/\.0$/, "")`
unfoldable pub drop_dot_zero : String → String
drop_dot_zero String.[] = ""
drop_dot_zero (String.◌∷◌ c s) =
    let rest = drop_dot_zero s in if String.◌∷◌ c s == ".0" then "" else String.◌∷◌ c rest

module _ (F : Floats) where
  open F use {Number, lit, le, lt, mul, div, is_finite, round, of_int, to_fixed}

  unfoldable pub format_int : Number → String
  format_int n =
      let v = round n in
      if not (is_finite n)
      then "0"
      else if leb 1000000 (magnitude v)
      then drop_dot_zero (to_fixed 1 (div (of_int v) (lit 1000000 0))) +++ "M"
      else if leb 1000 (magnitude v)
      then drop_dot_zero (to_fixed 1 (div (of_int v) (lit 1000 0))) +++ "k"
      else int_text v

  unfoldable pub format_pct : Number → ℕ → String
  format_pct n digits =
      if not (is_finite n)
      then "0%"
      else (let pct = if le n (lit 1 0) && le (lit 0 0) n then mul n (lit 100 0) else n in
          to_fixed digits pct +++ "%")

  unfoldable pub format_ms : Number → String
  format_ms n =
      if not (is_finite n)
      then "—"
      else if le (lit 1000 0) n
      then to_fixed 2 (div n (lit 1000 0)) +++ "s"
      else int_text (round n) +++ "ms"

  unfoldable pub format_cls : Number → String
  format_cls n = if not (is_finite n) then "—" else to_fixed 3 n

-- The text of a duration of `s` whole seconds.
unfoldable pub seconds_text : ℕ → String
seconds_text s =
    let m = s / 60 in
    let rem = s % 60 in
    let h = m / 60 in
    let rm = m % 60 in
    if ltb s 60
    then decimal s +++ "s"
    else if ltb m 60
    then (if rem =ℕ 0 then decimal m +++ "m" else decimal m +++ ("m " +++ (decimal rem +++ "s")))
    else if rm =ℕ 0
    then decimal h +++ "h"
    else decimal h +++ ("h " +++ (decimal rm +++ "m"))

module _ (F : Floats) where
  -- A finite number that is not negative rounds to a natural number.
  unfoldable pub format_duration : F.Number → String
  format_duration seconds =
      if not (F.is_finite seconds) || F.lt seconds (F.lit 0 0)
      then "0s"
      else seconds_text (magnitude (F.round seconds))

-- `toUpperCase`, on the code points that have an upper case in ASCII: the small letters, the dotless
-- i and the long s. Others stay outside of A to Z.
abbrev pub upper : ℕ → ℕ
upper c =
    if leb b'a' c && leb c b'z'
    then c - 32
    else if c =ℕ 0x131
    then b'I'
    else if c =ℕ 0x17f
    then b'S'
    else c

abbrev pub is_letter : ℕ → Bool
is_letter c = leb b'A' c && leb c b'Z'

-- The text of two UTF-16 units as a list of units, the flag as a list of code points.
unfoldable pub country_flag : List ℕ → List ℕ
country_flag (a ∷ b ∷ []) =
    let base = 0x1f1e6 - 0x41 in
    if is_letter (upper a) && is_letter (upper b)
    then (base + upper a) ∷ (base + upper b) ∷ []
    else []
country_flag _ = []
