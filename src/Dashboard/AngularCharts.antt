-- ===== src/Dashboard/AngularCharts.antt =====
-- packages/dashboard-angular/src/components/timeseries-chart.component.ts and
-- web-vitals-cards.component.ts, beside the React components of the same charts.
use webalytics.Common.{
  ℕ, suc, ◌+◌, ◌-◌, ◌*◌, ◌≤◌, String, Option, none, some, List, [], ◌∷◌, ◌++◌, ◌+++◌, ◌≡◌, refl,
  sym, ap, ◌∙◌, subst, if◌then◌else◌, ◌=ℕ◌, ltb, leb, arith, All, All-append, length,
}
use webalytics.Numbers.{Floats, pos}
use webalytics.Vitals.Core.{VitalName, lcp, fcp, cls, ttfb, inp}
use webalytics.Format.Core.{format_ms, format_cls, format_int}
use webalytics.Client.Types.{MetricName, visitors, pageviews, sessions}
use webalytics.Dashboard.Cards.{Kind, good, warn, bad, VitalRow, VitalCard, vital_card, kind_of}
use webalytics.Dashboard.Chart.{Fraction, Point, IsInside, IsWithin}
use webalytics.Dashboard.Chart as React

-- `resolvedTitle` without an override.
unfoldable pub resolved_title : MetricName → String
resolved_title visitors = "VISITORS"
resolved_title pageviews = "PAGEVIEWS"
resolved_title sessions = "SESSIONS"

unfoldable pub max : List ℕ → ℕ
max [] = 1
max (v ∷ vs) = let m = max vs in if leb v m then m else v

unfoldable pub x_of : (n i : ℕ) → Fraction
x_of n i =
    if ltb 1 n
    then record { num = 8 * (n - 1) + i * (1000 - 8 * 2); den = n - 1 }
    else record { num = 8; den = 1 }

unfoldable pub y_of : (top v : ℕ) → Fraction
y_of top v = record { num = 12 * top + (300 - 12 * 2) * (top - v); den = top }

unfoldable pub points_from : (n top i : ℕ) → List ℕ → List Point
points_from n top i [] = []
points_from n top i (v ∷ vs) =
    record { x = x_of n i; y = y_of top v } ∷ points_from n top (suc i) vs

-- The points of `linePath`.
unfoldable pub line_path : List ℕ → List Point
unfolding points_from max
line_path vs = points_from (length vs) (max vs) 0 vs

-- The points of `areaPath`: it starts and ends at the bottom.
unfoldable pub area_path : List ℕ → List Point
unfolding line_path
area_path [] = []
area_path (v ∷ vs) =
    let n = length (v ∷ vs) in
    record { x = x_of n 0; y = y_of (max (v ∷ vs)) 0 } ∷ line_path (v ∷ vs)
    ++ record { x = x_of n (n - 1); y = record { num = 300 - 12; den = 1 } } ∷ []

pub max_agrees : (vs : List ℕ) → max vs ≡ React.max_value vs
unfolding max React.max_value
max_agrees [] = refl
max_agrees (v ∷ vs) = ap (λ m. if leb v m then m else v) (max_agrees vs)

points_agree : (n top i : ℕ) (vs : List ℕ) → points_from n top i vs ≡ React.line_from n top i vs
unfolding points_from React.line_from x_of y_of React.x_of React.y_of
points_agree n top i [] = refl
points_agree n top i (v ∷ vs) =
    let p : Point = record { x = x_of n i; y = y_of top v } in
    ap (λ ps. p ∷ ps) (points_agree n top (suc i) vs)

pub lines_agree : (vs : List ℕ) → line_path vs ≡ React.line_points vs
unfolding line_path React.line_points
lines_agree vs =
    points_agree (length vs) (max vs) 0 vs
    ∙ ap (λ top. React.line_from (length vs) top 0 vs) (max_agrees vs)

-- The Angular chart draws the line of the React chart, and its area, too, stays inside the frame.
pub area_path-IsInside :
    (vs : List ℕ) → (line_path vs ≡ React.line_points vs) × All IsInside (area_path vs)
unfolding area_path x_of y_of React.x_of React.y_of
area_path-IsInside [] = (lines_agree [], tt)
area_path-IsInside (v ∷ vs) =
    let n = length (v ∷ vs) in
    let top : 1 ≤ max (v ∷ vs) =
      subst (λ m. 1 ≤ m) (sym (max_agrees (v ∷ vs))) (React.max_value-pos (v ∷ vs)) in
    let inside : All IsInside (line_path (v ∷ vs)) =
      subst (All IsInside) (sym (lines_agree (v ∷ vs))) (React.line-IsInside (v ∷ vs)) in
    (
      lines_agree (v ∷ vs),
      (
        (
          React.x_of-IsWithin n 0 (omega arith),
          React.y_of-IsWithin (max (v ∷ vs)) 0 top (omega arith),
        ),
        All-append IsInside (line_path (v ∷ vs)) _ inside (
          (React.x_of-IsWithin n (n - 1) (omega arith), (omega arith, omega arith, omega arith)),
          tt,
        ),
      ),
    )

module _ (F : Floats) where
  open F use {Number, lit, le, of_int}

  record Threshold : Type 0 where
    good : Number
    poor : Number
    label : String
    formatter : Number → String

  thresholds : VitalName → Threshold
  thresholds lcp = record {
    good = lit 2500 0;
    poor = lit 4000 0;
    label = "Largest Contentful Paint";
    formatter = format_ms F;
  }
  thresholds inp = record {
    good = lit 200 0;
    poor = lit 500 0;
    label = "Interaction to Next Paint";
    formatter = format_ms F;
  }
  thresholds cls = record {
    good = lit 1 1;
    poor = lit 25 2;
    label = "Cumulative Layout Shift";
    formatter = format_cls F;
  }
  thresholds fcp = record {
    good = lit 1800 0;
    poor = lit 3000 0;
    label = "First Contentful Paint";
    formatter = format_ms F;
  }
  thresholds ttfb = record {
    good = lit 800 0;
    poor = lit 1800 0;
    label = "Time to First Byte";
    formatter = format_ms F;
  }

  abbrev view_kind : Threshold → VitalRow Number → Kind
  view_kind t row =
      if row.samples =ℕ 0
      then warn
      else if le row.p75 t.good
      then good
      else if le row.p75 t.poor
      then warn
      else bad

  abbrev kind_label : Kind → String
  kind_label good = "Good"
  kind_label warn = "Needs work"
  kind_label bad = "Poor"

  -- The fields that the React card has, too.
  unfoldable pub view_for : VitalName → Option (VitalRow Number) → VitalCard
  unfolding thresholds
  view_for k none = record {
    kind = warn;
    kind_label = kind_label warn;
    p75_display = "—";
    label = (thresholds k).label;
    total = 0;
    samples_display = "no samples";
  }
  view_for k (some row) = record {
    kind = view_kind (thresholds k) row;
    kind_label = kind_label (view_kind (thresholds k) row);
    p75_display = (thresholds k).formatter row.p75;
    label = (thresholds k).label;
    total = row.good + row.needs_improvement + row.poor;
    samples_display = format_int F (of_int (pos row.samples)) +++ " samples";
  }

  -- For every vital, with a row or without, the Angular component shows what the React card shows.
  pub views_agree :
      (k : VitalName) (row : Option (VitalRow Number)) → view_for k row ≡ vital_card F k row
  unfolding view_for thresholds vital_card kind_of
  views_agree lcp none = refl
  views_agree fcp none = refl
  views_agree cls none = refl
  views_agree ttfb none = refl
  views_agree inp none = refl
  views_agree lcp (some row) = refl
  views_agree fcp (some row) = refl
  views_agree cls (some row) = refl
  views_agree ttfb (some row) = refl
  views_agree inp (some row) = refl
