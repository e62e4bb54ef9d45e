-- ===== src/Dashboard/Chart.antt =====
-- packages/dashboard-react/src/components/timeseries.tsx: the area chart. Values are counts, and a
-- coordinate is the exact fraction that the source computes in floating point numbers.
use webalytics.Common.{
  ℕ, suc, ◌+◌, ◌-◌, ◌*◌, ◌≤◌, ◌<◌, String, Option, none, some, ◌+++◌, ltb, leb, List, [], ◌∷◌,
  if◌then◌else◌, if_elim, All, All-map, length, arith,
}
use webalytics.Client.Types.{
  WindowSpec, w1h, w24h, w7d, w30d, MetricName, visitors, pageviews, sessions, IntervalName, minute,
  hour, day,
}
use webalytics.Client.Query.{Calendar}
use webalytics.Format.Core.{decimal}

-- num / den
pub record Fraction : Type 0 where
  pub num : ℕ
  pub den : ℕ

pub record Point : Type 0 where
  pub x : Fraction
  pub y : Fraction

unfoldable pub title_for_metric : MetricName → String
title_for_metric visitors = "Visitors"
title_for_metric pageviews = "Pageviews"
title_for_metric sessions = "Sessions"

unfoldable pub default_interval : (C : Calendar) → WindowSpec C.Date → IntervalName
default_interval C w1h = minute
default_interval C w24h = hour
default_interval C w7d = day
default_interval C w30d = day
default_interval C _ = day

abbrev max : ℕ → ℕ → ℕ
max a b = if leb a b then b else a

-- `Math.max(1, ...values)`
unfoldable pub max_value : List ℕ → ℕ
max_value [] = 1
max_value (v ∷ vs) = max v (max_value vs)

unfoldable pub total : List ℕ → ℕ
total [] = 0
total (v ∷ vs) = v + total vs

-- `PAD_X + i * stepX`, with the step 0 for a single point.
unfoldable pub x_of : (n i : ℕ) → Fraction
x_of n i =
    if ltb 1 n
    then record { num = 8 * (n - 1) + i * (1000 - 8 * 2); den = n - 1 }
    else record { num = 8; den = 1 }

-- `PAD_Y + (H - PAD_Y * 2) * (1 - v / max)`, for a value that is at most the greatest one.
unfoldable pub y_of : (top v : ℕ) → Fraction
y_of top v = record { num = 12 * top + (300 - 12 * 2) * (top - v); den = top }

-- The points of the line, from index `i` on.
unfoldable pub line_from : (n top i : ℕ) → List ℕ → List Point
unfolding x_of y_of
line_from n top i [] = []
line_from n top i (v ∷ vs) = record { x = x_of n i; y = y_of top v } ∷ line_from n top (suc i) vs

unfoldable pub line_points : List ℕ → List Point
unfolding line_from max_value
line_points vs = line_from (length vs) (max_value vs) 0 vs

-- The UTC parts of a date; the month counts from 0.
pub record Utc : Type 0 where
  pub year : ℕ
  pub month : ℕ
  pub date : ℕ
  pub hours : ℕ
  pub minutes : ℕ

abbrev pad : ℕ → String
pad n = if ltb n 10 then "0" +++ decimal n else decimal n

abbrev clock : Utc → String
clock d = pad d.hours +++ (":" +++ pad d.minutes)

abbrev day_text : Utc → String
day_text d = decimal d.year +++ ("-" +++ (pad (suc d.month) +++ ("-" +++ pad d.date)))

-- `new Date(iso)` is a parameter, `none` where it is invalid.
unfoldable pub format_bucket : (String → Option Utc) → String → IntervalName → String
format_bucket parse_date iso interval = elim (parse_date iso) [
  | none ↦ iso
  | some d ↦ elim interval [ minute ↦ clock d | hour ↦ clock d | _ ↦ day_text d ]
]

-- Between two natural numbers.
abbrev pub IsWithin : ℕ → ℕ → Fraction → Type 0
IsWithin low high q = (1 ≤ q.den) × (low * q.den ≤ q.num) × (q.num ≤ high * q.den)

abbrev pub IsInside : Point → Type 0
IsInside p = IsWithin 8 992 p.x × IsWithin 12 288 p.y

pub max_value-pos : (vs : List ℕ) → 1 ≤ max_value vs
unfolding max_value
max_value-pos [] = omega arith
max_value-pos (v ∷ vs) = ground (arith, max_value-pos vs)

max_value-upper : (vs : List ℕ) → All (λ v. v ≤ max_value vs) vs
unfolding max_value
max_value-upper [] = tt
max_value-upper (v ∷ vs) = (ground arith, All-map (λ w h. ground arith) vs (max_value-upper vs))

pub x_of-IsWithin : (n i : ℕ) → i < n → IsWithin 8 992 (x_of n i)
unfolding x_of
x_of-IsWithin n i h =
    if_elim (IsWithin 8 992) (ltb 1 n) (λ k. (ground arith, ground arith, ground arith))
      (λ k. (ground arith, ground arith, ground arith))

pub y_of-IsWithin : (top v : ℕ) → 1 ≤ top → v ≤ top → IsWithin 12 288 (y_of top v)
unfolding y_of
y_of-IsWithin top v h k = (omega arith, omega arith, omega arith)

line_from-IsInside :
    (n top i : ℕ) (vs : List ℕ)
    → i + length vs ≤ n
    → 1 ≤ top
    → All (λ v. v ≤ top) vs
    → All IsInside (line_from n top i vs)
unfolding line_from
line_from-IsInside n top i [] h k l = tt
line_from-IsInside n top i (v ∷ vs) h k (m, l) = (
  (x_of-IsWithin n i (omega arith), y_of-IsWithin top v k m),
  line_from-IsInside n top (suc i) vs (omega arith) k l,
)

-- Whatever the counts, every point of the line lies in the frame of the chart: between 8 and 992
-- across, between 12 and 288 down.
pub line-IsInside : (vs : List ℕ) → All IsInside (line_points vs)
unfolding line_points
line-IsInside vs =
    line_from-IsInside (length vs) (max_value vs) 0 vs (omega arith) (max_value-pos vs)
      (max_value-upper vs)
