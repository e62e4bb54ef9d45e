-- ===== src/Dashboard/Layout.antt =====
-- What the React dashboard asks for: packages/dashboard-react/src/components/dashboard.tsx, with the
-- queries and defaults of the components that it is made of, beside the fetches of
-- packages/dashboard-angular/src/components/dashboard.component.ts.
use webalytics.Common.{ℕ, String, Option, none, some, List, [], ◌∷◌, ◌≡◌, refl, get_or_else}
use webalytics.Client.Types.{
  WindowSpec, w1h, w24h, w7d, w30d, w90d, range, MetricName, visitors, IntervalName, DimensionName,
  path, referrer_host, country, device, Filters, ungrouped,
}
use webalytics.Client.Query.{Calendar}
use webalytics.Client.Calls.{Query, summary, realtime, timeseries, breakdown, web_vitals}
use webalytics.Dashboard.Chart as Chart
use webalytics.Dashboard.Feed as Feed
use webalytics.Dashboard.Feed.{Inputs, fetch_all}

module _ (C : Calendar) where
  open C use {Date}

  -- The components' props; a missing one takes its default.
  unfoldable pub summary_cards : Option (WindowSpec Date) → Option String → Option Filters → Query C
  summary_cards window site filters = summary (get_or_else window w7d) site filters

  unfoldable pub realtime_card : Option String → Query C
  realtime_card site = realtime site

  unfoldable pub timeseries_chart :
      Option (WindowSpec Date)
      → Option MetricName
      → Option IntervalName
      → Option String
      → Option Filters
      → Query C
  timeseries_chart window metric interval site filters =
      let w = get_or_else window w7d in
      timeseries w (get_or_else metric visitors) (get_or_else interval (Chart.default_interval C w))
        site filters

  unfoldable pub top_list_query :
      Option (WindowSpec Date)
      → DimensionName
      → Option MetricName
      → Option ℕ
      → Option String
      → Option Filters
      → Query C
  top_list_query window dimension metric limit site filters =
      breakdown (get_or_else window w7d) dimension (some (get_or_else metric visitors))
        (some (get_or_else limit 10)) none site filters

  unfoldable pub web_vitals_cards :
      Option (WindowSpec Date) → Option String → Option Filters → Query C
  web_vitals_cards window site filters =
      web_vitals (get_or_else window w7d) (some ungrouped) site filters

  -- `Dashboard`: the queries of its components, in the order in which they stand.
  unfoldable pub dashboard :
      Option (WindowSpec Date) → Option String → Option Filters → List (Query C)
  unfolding summary_cards realtime_card timeseries_chart top_list_query web_vitals_cards
  dashboard window' site filters =
      let window = some (get_or_else window' w7d) in
      summary_cards window site filters
      ∷ realtime_card site
      ∷ timeseries_chart window (some visitors) none site filters
      ∷ top_list_query window path none none site filters
      ∷ top_list_query window referrer_host none none site filters
      ∷ top_list_query window country none none site filters
      ∷ top_list_query window device none none site filters
      ∷ web_vitals_cards window site filters
      ∷ []

  pub intervals_agree :
      (w : WindowSpec Date) → Chart.default_interval C w ≡ Feed.default_interval C w
  unfolding Chart.default_interval Feed.default_interval
  intervals_agree (range a b) = refl
  intervals_agree w1h = refl
  intervals_agree w24h = refl
  intervals_agree w7d = refl
  intervals_agree w30d = refl
  intervals_agree w90d = refl
