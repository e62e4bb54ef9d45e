-- ===== src/Dashboard/ChartView.antt =====
-- What the charts over time show beside their lines, React and Angular:
-- packages/dashboard-react/src/components/timeseries.tsx and timeseries-chart.component.ts in
-- packages/dashboard-angular/src/components.
use webalytics.Common.{
  ℕ, suc, ◌+◌, String, false, Option, none, some, List, [], ◌∷◌, map, ◌+++◌, ◌≡◌, ◌≢◌, refl, eq_iff,
  sym, ap, ◌∙◌, arith, get_or_else, truthy, if◌then◌else◌, Bool-cases, inl, inr, ltb,
}
use webalytics.Numbers.{Floats, pos}
use webalytics.Client.Types.{
  MetricName, visitors, pageviews, sessions, IntervalName, minute, hour, day, week, month,
}
use webalytics.Format.Core.{decimal, format_int}
use webalytics.Dashboard.Chart.{Utc, Point, title_for_metric, total, line_points, format_bucket}
use webalytics.Dashboard.AngularCharts.{resolved_title, line_path, lines_agree}

pub record Bucket : Type 0 where
  pub bucket : String
  pub value : ℕ

pub record Series : Type 0 where
  pub metric : MetricName
  pub interval : IntervalName
  pub points : List Bucket

-- What is under a title: the note that there is no data, or the line and the labels at its ends.
pub data Plot : Type 0 where
  no_data : Plot
  plot : (line : List Point) (start_label end_label : String) → Plot

abbrev pub last_of : Bucket → List Bucket → Bucket
last_of b [] = b
last_of b (c ∷ bs) = last_of c bs

abbrev pub values_of : List Bucket → List ℕ
values_of bs = map (λ b. b.value) bs

module _ (F : Floats) (to_upper : String → String) (parse_date : String → Option Utc) where
  empty_text : (t : String) → truthy t ≡ false → t ≡ ""
  empty_text t h = (eq_iff t "").0 (ground arith)

  abbrev plot_of : IntervalName → List Bucket → Plot
  plot_of interval [] = no_data
  plot_of interval (b ∷ bs) =
      plot (line_points (values_of (b ∷ bs))) (format_bucket parse_date b.bucket interval)
        (format_bucket parse_date (last_of b bs).bucket interval)

  -- `TimeseriesChart`: its title and its plot, for the metric and the interval that it asked for. The
  -- total stands beside the title of a chart with data.
  unfoldable pub chart_view : Option String → MetricName → IntervalName → Series → String × Plot
  chart_view title metric interval data' =
      (to_upper (get_or_else title (title_for_metric metric)), plot_of interval data'.points)

  unfoldable pub total_text : List Bucket → String
  total_text points = format_int F (F.of_int (pos (total (values_of points))))

  -- `reduce((a, p) => a + p.value, 0)`
  unfoldable pub sum_from : ℕ → List Bucket → ℕ
  sum_from a [] = a
  sum_from a (b ∷ bs) = sum_from (a + b.value) bs

  -- `total`, which stands beside the title even of a chart without data.
  unfoldable pub angular_total : List Bucket → String
  unfolding sum_from
  angular_total points = format_int F (F.of_int (pos (sum_from 0 points)))

  sums_agree : (a : ℕ) (bs : List Bucket) → sum_from a bs ≡ a + total (values_of bs)
  unfolding sum_from total
  sums_agree a [] = omega arith
  sums_agree a (b ∷ bs) = sums_agree (a + b.value) bs ∙ omega arith

  pub totals_agree : (bs : List Bucket) → angular_total bs ≡ total_text bs
  unfolding angular_total total_text
  totals_agree bs = ap (λ n. format_int F (F.of_int (pos n))) (sums_agree 0 bs ∙ omega arith)

  -- `resolvedTitle`
  unfoldable pub angular_title : Option String → MetricName → String
  unfolding resolved_title
  angular_title none m = resolved_title m
  angular_title (some title) m = if truthy title then to_upper title else resolved_title m

  abbrev pad : ℕ → String
  pad n = if ltb n 10 then "0" +++ decimal n else decimal n

  abbrev clock_or_day : IntervalName → Utc → String
  clock_or_day minute d = pad d.hours +++ (":" +++ pad d.minutes)
  clock_or_day hour d = pad d.hours +++ (":" +++ pad d.minutes)
  clock_or_day interval d =
      decimal d.year +++ ("-" +++ (pad (suc d.month) +++ ("-" +++ pad d.date)))

  -- `formatBucket`, by the interval of the answer.
  unfoldable pub angular_bucket : IntervalName → String → String
  angular_bucket interval iso = elim (parse_date iso) [
    | none ↦ iso
    | some d ↦ clock_or_day interval d
  ]

  abbrev angular_plot : IntervalName → List Bucket → Plot
  angular_plot interval [] = no_data
  angular_plot interval (b ∷ bs) =
      plot (line_path (values_of (b ∷ bs))) (angular_bucket interval b.bucket)
        (angular_bucket interval (last_of b bs).bucket)

  unfoldable pub angular_chart : Option String → Series → String × Plot
  unfolding angular_title angular_bucket
  angular_chart title data' =
      (angular_title title data'.metric, angular_plot data'.interval data'.points)

  buckets_agree :
      (interval : IntervalName) (iso : String)
      → angular_bucket interval iso ≡ format_bucket parse_date iso interval
  unfolding angular_bucket format_bucket
  buckets_agree minute iso = ground arith
  buckets_agree hour iso = ground arith
  buckets_agree day iso = ground arith
  buckets_agree week iso = ground arith
  buckets_agree month iso = ground arith

  plots_agree :
      (interval : IntervalName) (bs : List Bucket) → angular_plot interval bs ≡ plot_of interval bs
  plots_agree interval [] = refl
  plots_agree interval (b ∷ bs) = λ i.
      plot (lines_agree (values_of (b ∷ bs)) i) (buckets_agree interval b.bucket i)
        (buckets_agree interval (last_of b bs).bucket i)

  titles_agree :
      (title : Option String) (m : MetricName)
      → title ≢ some ""
      → to_upper "Visitors" ≡ "VISITORS"
      → to_upper "Pageviews" ≡ "PAGEVIEWS"
      → to_upper "Sessions" ≡ "SESSIONS"
      → angular_title title m ≡ to_upper (get_or_else title (title_for_metric m))
  unfolding angular_title resolved_title title_for_metric
  titles_agree none visitors n v p s = sym v
  titles_agree none pageviews n v p s = sym p
  titles_agree none sessions n v p s = sym s
  titles_agree (some t) m n v p s = elim (Bool-cases (truthy t)) [
    | inl h ↦ rw h refl
    | inr h ↦ absurd (n (ap some (empty_text t h)))
  ]

  -- Asked for the metric and the interval of the answer, with no title or one that is not empty,
  -- and where `toUpperCase` maps the three names of the metrics as it does, the React chart shows
  -- what the Angular one shows: the title, the line and the labels at its ends, or that there is no
  -- data. An empty title is kept by the former only.
  pub charts_agree :
      (title : Option String) (data' : Series)
      → title ≢ some ""
      → to_upper "Visitors" ≡ "VISITORS"
      → to_upper "Pageviews" ≡ "PAGEVIEWS"
      → to_upper "Sessions" ≡ "SESSIONS"
      → angular_chart title data' ≡ chart_view title data'.metric data'.interval data'
  unfolding angular_chart chart_view
  charts_agree title data' n v p s =
      λ i. (titles_agree title data'.metric n v p s i, plots_agree data'.interval data'.points i)
