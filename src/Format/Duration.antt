-- ===== src/Format/Duration.antt =====
-- The text of a duration (`formatDuration` of packages/dashboard-react/src/format.ts) in hours,
-- minutes and seconds.
use webalytics.Common.{
  ℕ, ◌+◌, ◌*◌, ◌/◌, ◌%◌, ◌≤◌, ◌<◌, String, true, false, ◌+++◌, ◌=ℕ◌, ltb, ◌≡◌, refl, ◌∙◌,
  if◌then◌else◌, Bool-cases, inl, inr, arith,
}
use webalytics.Numbers.{Floats, pos}
use webalytics.Format.Core.{decimal, seconds_text, format_duration}

-- A text that shows hours and minutes, minutes and seconds, or seconds alone; the smaller part is
-- left out where it is zero.
pub data Shown : Type 0 where
  seconds : ℕ → Shown
  minutes : (m s : ℕ) → Shown
  hours : (h m : ℕ) → Shown

abbrev pub shown_text : Shown → String
shown_text (seconds s) = decimal s +++ "s"
shown_text (minutes m s) =
    if s =ℕ 0 then decimal m +++ "m" else decimal m +++ ("m " +++ (decimal s +++ "s"))
shown_text (hours h m) =
    if m =ℕ 0 then decimal h +++ "h" else decimal h +++ ("h " +++ (decimal m +++ "m"))

-- What is shown stands for these seconds, each part in its range, up to the unit of the last part.
abbrev pub Stands : Shown → ℕ → Type 0
Stands (seconds t) s = (t ≡ s) × (s < 60)
Stands (minutes m t) s = (m * 60 + t ≡ s) × (t < 60) × (1 ≤ m) × (m < 60)
Stands (hours h m) s = (h * 3600 + m * 60 ≤ s) × (s < h * 3600 + m * 60 + 60) × (m < 60) × (1 ≤ h)

-- A finite duration that is not negative is shown in seconds below a minute, exactly; in minutes
-- and seconds below an hour, exactly; and beyond in hours and minutes, rounded down. The seconds
-- are those that `Math.round` gives.
pub duration_shown :
    (F : Floats) (x : F.Number) (s : ℕ)
    → F.is_finite x ≡ true
    → F.lt x (F.lit 0 0) ≡ false
    → F.round x ≡ pos s
    → (d : Shown) × (format_duration F x ≡ shown_text d) × Stands d s
unfolding format_duration seconds_text
duration_shown F x s finite sign rounded =
    let text : format_duration F x ≡ seconds_text s = rw (finite, sign, rounded) refl in
    elim (Bool-cases (ltb s 60)) [
      | inl h ↦ (seconds s, text ∙ rw h refl, ground arith)
      | inr h ↦ elim (Bool-cases (ltb (s / 60) 60)) [
        | inl k ↦ (minutes (s / 60) (s % 60), text ∙ rw (h, k) refl, ground arith)
        | inr k ↦ (hours (s / 60 / 60) (s / 60 % 60), text ∙ rw (h, k) refl, ground arith)
      ]
    ]
