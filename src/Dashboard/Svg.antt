-- ===== src/Dashboard/Svg.antt =====
-- The drawing of the charts over time: the markup of the SVG in
-- packages/dashboard-react/src/components/timeseries.tsx, and in timeseries-chart.component.ts of
-- packages/dashboard-angular/src/components. How a coordinate prints is a parameter.
use webalytics.Common.{
  ℕ, suc, ◌+◌, ◌-◌, ◌*◌, String, Option, List, [], ◌∷◌, map, ◌+++◌, ◌≡◌, refl, ap, ◌∙◌, ◌=ℕ◌,
  if◌then◌else◌, get_or_else, length,
}
use webalytics.Client.Types.{MetricName, visitors, pageviews, sessions, metric_text}
use webalytics.Format.Core.{decimal}
use webalytics.Dashboard.Chart as React
use webalytics.Dashboard.Chart.{Fraction, Point, title_for_metric}
use webalytics.Dashboard.AngularCharts as Angular
use webalytics.Dashboard.AngularCharts.{max_agrees}

-- A grid line, across the frame at its height.
pub record GridLine : Type 0 where
  pub x1 : ℕ
  pub x2 : ℕ
  pub y : Fraction

pub record Svg : Type 0 where
  pub aria_label : String
  pub view_box : String
  pub gradient : String
  pub grid_lines : List GridLine
  pub area : String
  pub fill : String
  pub line : String

-- The heights of the grid lines, in quarters of the frame.
abbrev quarters : List ℕ
quarters = 1 ∷ 2 ∷ 3 ∷ []

-- `xs.join(" ")`
unfoldable pub join_words : List String → String
join_words [] = ""
join_words (w ∷ []) = w
join_words (w ∷ v ∷ ws) = w +++ (" " +++ join_words (v ∷ ws))

module _ (show : Fraction → String) where
  abbrev coordinates : Fraction → Fraction → String
  coordinates x y = show x +++ ("," +++ show y)

  -- The commands of a path through the points of some values, from index `i` on.
  abbrev commands : (ℕ → String) → (n top i : ℕ) → List ℕ → List String
  commands letter n top i [] = []
  commands letter n top i (v ∷ vs) =
      (letter i +++ coordinates (React.x_of n i) (React.y_of top v))
      ∷ commands letter n top (suc i) vs

  abbrev first_moves : ℕ → String
  first_moves i = if i =ℕ 0 then "M" else "L"

  abbrev all_lines : ℕ → String
  all_lines i = "L"

  unfoldable pub line_text : List ℕ → String
  unfolding join_words
  line_text vs = join_words (commands first_moves (length vs) (React.max_value vs) 0 vs)

  unfoldable pub area_text : List ℕ → String
  unfolding join_words
  area_text vs =
      let n = length vs in
      let top = React.max_value vs in
      ("M" +++ (coordinates (React.x_of n 0) (React.y_of top 0) +++ " "))
      +++ (join_words (commands all_lines n top 0 vs)
          +++ (" L" +++ (show (React.x_of n (n - 1)) +++ ("," +++ (decimal (300 - 12) +++ " Z")))))

  -- The drawing of `TimeseriesChart`, for the metric that it asked for.
  unfoldable pub react_svg : Option String → MetricName → List ℕ → Svg
  unfolding line_text area_text
  react_svg title metric vs = record {
    aria_label = get_or_else title (title_for_metric metric) +++ " over time";
    view_box = "0 0 " +++ (decimal 1000 +++ (" " +++ decimal 300));
    gradient = "wbx-grad-" +++ metric_text metric;
    grid_lines =
        map
          (λ q. record {
            x1 = 8;
            x2 = 1000 - 8;
            y = record { num = 12 * 4 + (300 - 12 * 2) * q; den = 4 };
          })
          quarters;
    area = area_text vs;
    fill = "url(#wbx-grad-" +++ (metric_text metric +++ ")");
    line = line_text vs;
  }

  -- `linePath`
  abbrev angular_commands : (ℕ → String) → (n top i : ℕ) → List ℕ → List String
  angular_commands letter n top i [] = []
  angular_commands letter n top i (v ∷ vs) =
      (letter i +++ coordinates (Angular.x_of n i) (Angular.y_of top v))
      ∷ angular_commands letter n top (suc i) vs

  unfoldable pub angular_line : List ℕ → String
  unfolding join_words
  angular_line vs = join_words (angular_commands first_moves (length vs) (Angular.max vs) 0 vs)

  -- `areaPath`
  unfoldable pub angular_area : List ℕ → String
  unfolding join_words
  angular_area [] = ""
  angular_area (v ∷ vs) =
      let pts = v ∷ vs in
      let n = length pts in
      let top = Angular.max pts in
      ("M" +++ (coordinates (Angular.x_of n 0) (Angular.y_of top 0) +++ " "))
      +++ (join_words (angular_commands all_lines n top 0 pts)
          +++ (" L"
              +++ (show (Angular.x_of n (n - 1)) +++ ("," +++ (decimal (300 - 12) +++ " Z")))))

  -- The drawing of the Angular template, for the metric of the answer and the title above it.
  unfoldable pub angular_svg : (resolved_title : String) → MetricName → List ℕ → Svg
  unfolding angular_line angular_area
  angular_svg resolved_title metric vs =
      let gradient_id = "wbx-grad-" +++ metric_text metric in
      record {
        aria_label = resolved_title +++ " over time";
        view_box = "0 0 " +++ (decimal 1000 +++ (" " +++ decimal 300));
        gradient = gradient_id;
        grid_lines =
            map
              (λ q. record {
                x1 = 8;
                x2 = 1000 - 8;
                y = record { num = 12 * 4 + (300 - 12 * 2) * q; den = 4 };
              })
              quarters;
        area = angular_area vs;
        fill = "url(#" +++ (gradient_id +++ ")");
        line = angular_line vs;
      }

  commands_agree :
      (letter : ℕ → String) (n top i : ℕ) (vs : List ℕ)
      → angular_commands letter n top i vs ≡ commands letter n top i vs
  unfolding Angular.x_of Angular.y_of React.x_of React.y_of
  commands_agree letter n top i [] = refl
  commands_agree letter n top i (v ∷ vs) =
      let command = letter i +++ coordinates (React.x_of n i) (React.y_of top v) in
      ap (λ ws. command ∷ ws) (commands_agree letter n top (suc i) vs)

  angular_lines_agree : (vs : List ℕ) → angular_line vs ≡ line_text vs
  unfolding angular_line line_text
  angular_lines_agree vs =
      ap join_words (commands_agree first_moves (length vs) (Angular.max vs) 0 vs)
      ∙ ap (λ top. join_words (commands first_moves (length vs) top 0 vs)) (max_agrees vs)

  areas_agree : (v : ℕ) (vs : List ℕ) → angular_area (v ∷ vs) ≡ area_text (v ∷ vs)
  unfolding angular_area area_text Angular.x_of Angular.y_of React.x_of React.y_of
  areas_agree v vs =
      let n = length (v ∷ vs) in
      let area = λ (top : ℕ) (ws : List String).
        ("M" +++ (coordinates (React.x_of n 0) (React.y_of top 0) +++ " "))
        +++ (join_words ws
            +++ (" L"
                +++ (show (React.x_of n (n - 1)) +++ ("," +++ (decimal (300 - 12) +++ " Z"))))) in
      ap (area (Angular.max (v ∷ vs)))
        (commands_agree all_lines n (Angular.max (v ∷ vs)) 0 (v ∷ vs))
      ∙ ap (λ top. area top (commands all_lines n top 0 (v ∷ vs))) (max_agrees (v ∷ vs))

  fills_agree :
      (m : MetricName)
      → "url(#" +++ (("wbx-grad-" +++ metric_text m) +++ ")")
        ≡ "url(#wbx-grad-" +++ (metric_text m +++ ")")
  fills_agree visitors = refl
  fills_agree pageviews = refl
  fills_agree sessions = refl

  -- Of a metric with at least one value, the two packages draw the same: the frame, the grid lines,
  -- the gradient, the area and the line, to the letter. Only the name for screen readers differs:
  -- the Angular chart takes the title as it is shown, the React chart the title before it is put
  -- in upper case.
  pub svgs_agree :
      (title : Option String) (resolved_title : String) (metric : MetricName) (v : ℕ) (vs : List ℕ)
      → angular_svg resolved_title metric (v ∷ vs)
        ≡ record (react_svg title metric (v ∷ vs)) { aria_label = resolved_title +++ " over time" }
  unfolding angular_svg react_svg
  svgs_agree title resolved_title metric v vs = λ i. record (react_svg title metric (v ∷ vs)) {
    aria_label = resolved_title +++ " over time";
    area = areas_agree v vs i;
    fill = fills_agree metric i;
    line = angular_lines_agree (v ∷ vs) i;
  }
