-- ===== src/Server/Dashboards.antt =====
-- The queries of both dashboards (packages/dashboard-react/src/components/dashboard.tsx,
-- packages/dashboard-angular/src/components/dashboard.component.ts) before the API
-- (internal/api/v1/stats.go).
use webalytics.Common.{ℕ, String, Option, none, List, [], ◌∷◌, map}
use webalytics.Client.Types.{WindowSpec, visitors, path, referrer_host, country, device, TimeWindow}
use webalytics.Client.Query.{Calendar}
use webalytics.Client.Calls.{Query, endpoint, to_qs}
use webalytics.Dashboard.Feed as Feed
use webalytics.Server.Names.{agg, bucket, column}
use webalytics.Server.Stats.{
  GoLibrary, Plan, Reply, answers, summary, timeseries, breakdown, web_vitals, realtime, route,
}
use webalytics.Server.Answered.{in_window}

module _ (C : Calendar) (decimal : ℕ → String) (G : GoLibrary) (w : TimeWindow) (from to : G.Time)
    (site : String) where
  -- What the API makes of some queries.
  abbrev pub replies : List (Query C) → List (Option (Reply (Plan G.Time)))
  replies qs = map (λ q. route G site (endpoint C q) (to_qs C decimal w q)) qs

  -- What the API is meant to make of a dashboard for a window, with a limit of rows for each list.
  abbrev pub plans : ℕ → WindowSpec C.Date → List (Reply (Plan G.Time))
  plans limit window =
      let visits = agg visitors in
      in_window C decimal G w from to site (summary none)
      ∷ answers realtime
      ∷ in_window C decimal G w from to site
          (timeseries (bucket (Feed.default_interval C window)) visits)
      ∷ in_window C decimal G w from to site (breakdown (column path) visits limit 0)
      ∷ in_window C decimal G w from to site (breakdown (column referrer_host) visits limit 0)
      ∷ in_window C decimal G w from to site (breakdown (column country) visits limit 0)
      ∷ in_window C decimal G w from to site (breakdown (column device) visits limit 0)
      ∷ in_window C decimal G w from to site (web_vitals "''")
      ∷ []
