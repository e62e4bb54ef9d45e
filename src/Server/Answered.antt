-- ===== src/Server/Answered.antt =====
-- The queries of the dashboards' client (packages/dashboard-react/src/client.ts) before the API
-- (internal/api/v1/stats.go).
use mathlib.Core.Option
use webalytics.Common.{
  ℕ, ◌≤◌, ◌^◌, leb, ◌&&◌, if◌then◌else◌, ◌⊎◌, inl, inr, String, true, false, Option, none, some,
  List, [], ◌==◌, ◌≡◌, refl, ap, ◌∙◌, arith, or_empty, get_or_else,
}
use webalytics.Numbers.{pos}
use webalytics.Client.Types.{
  MetricName, visitors, IntervalName, DimensionName, ungrouped, by_path, by_device, TimeWindow,
  metric_text, interval_text, dimension_text,
}
use webalytics.Client.Query.{Calendar, lookup}
use webalytics.Client.Calls as Calls
use webalytics.Client.Calls.{Query, endpoint, to_qs}
use webalytics.Client.Server.{parse_filters}
use webalytics.Client.Objects.{shown}
use webalytics.Client.Params.{is_unread, base_parts, sent, filters_unread}
use webalytics.Server.Names.{
  agg, bucket, column, no_filters, filters_lem, agg_lem, bucket_lem, column_lem, metric_lem,
  shown_lem,
}
use webalytics.Server.Stats.{
  GoLibrary, Plan, Reply, internal_error, answers, summary, timeseries, breakdown, web_vitals,
  realtime, get, or_internal, filters_from, group_col, compare_kind, parse_time_param, parse_window,
  parse_int_param, with_window, route, stats_summary, stats_timeseries, stats_breakdown,
  stats_web_vitals, stats_realtime,
}

module _ (C : Calendar) (decimal : ℕ → String) (G : GoLibrary) where
  open G use {Time, atoi}

  get_lem :
      (w : TimeWindow) (q : Query C) (j : String) (o : Option String)
      → is_unread j [] ≡ true
      → lookup j (base_parts C decimal w q) ≡ some o
      → get j (to_qs C decimal w q) ≡ or_empty o
  get_lem w q j o h e = ap or_empty (sent C decimal w q j h ∙ ap shown e) ∙ shown_lem o

  module _ (w : TimeWindow) (from to : Time) (site : String) where
    abbrev pub in_window : (Time → Time → List (Option String) → Plan Time) → Reply (Plan Time)
    in_window f = answers (f from to no_filters)

    -- A number that the API takes as it is, and the default for any other.
    abbrev pub in_range : (low high def : ℕ) → Option ℕ → ℕ
    in_range low high def none = def
    in_range low high def (some n) = if leb low n && leb n high then n else def

    -- What the API is meant to make of a query; the store does not group by the device.
    unfoldable pub expected : Query C → Reply (Plan Time)
    expected (Calls.realtime s) = answers realtime
    expected (Calls.summary x s f) = in_window (summary none)
    expected (Calls.timeseries x m i s f) = in_window (timeseries (bucket i) (agg m))
    expected (Calls.breakdown x d m l o s f) = in_window (
        breakdown (column d) (agg (get_or_else m visitors)) (in_range 1 1000 100 l)
          (in_range 0 1000000 0 o))
    expected (Calls.web_vitals x (some by_device) s f) = internal_error
    expected (Calls.web_vitals x (some by_path) s f) = in_window (web_vitals "url_path")
    expected (Calls.web_vitals x g s f) = in_window (web_vitals "''")

    module _ (uuid : G.is_uuid site ≡ true) (starts : parse_time_param G w.from ≡ some from)
        (ends : parse_time_param G w.to ≡ some to) (later : G.is_after to from ≡ true) where
      window_lem :
          (q : Query C) (f : Time → Time → Reply (Plan Time))
          → with_window G site (to_qs C decimal w q) f ≡ f from to
      unfolding with_window parse_window is_unread base_parts lookup
      window_lem q f =
          let a = get_lem w q "from" (some w.from) refl refl in
          let b = get_lem w q "to" (some w.to) refl refl in
          rw (uuid, ap (parse_time_param G) a ∙ starts, ap (parse_time_param G) b ∙ ends, later)
            refl

      filters_none : (q : Query C) → filters_from (to_qs C decimal w q) ≡ no_filters
      unfolding filters_from
      filters_none q = filters_lem _ parse_filters (filters_unread C decimal w q)

      summary_lem :
          (q : Query C)
          → get "compare" (to_qs C decimal w q) ≡ ""
          → stats_summary G site (to_qs C decimal w q) ≡ in_window (summary none)
      unfolding stats_summary compare_kind
      summary_lem q e =
          window_lem q _
          ∙ ap
              (λ k. answers (summary (compare_kind k) from to (filters_from (to_qs C decimal w q))))
              e
          ∙ ap (λ fs. answers (summary none from to fs)) (filters_none q)

      timeseries_lem :
          (q : Query C) (m : MetricName) (i : IntervalName)
          → get "metric" (to_qs C decimal w q) ≡ metric_text m
          → get "interval" (to_qs C decimal w q) ≡ interval_text i
          → stats_timeseries G site (to_qs C decimal w q)
            ≡ in_window (timeseries (bucket i) (agg m))
      unfolding stats_timeseries
      timeseries_lem q m i e k =
          let (known, some_metric) = agg_lem m in
          let (unit, some_interval) = bucket_lem i in
          window_lem q _
          ∙ rw (e, k, some_metric, some_interval, known, unit)
              (ap (λ fs. answers (timeseries (bucket i) (agg m) from to fs)) (filters_none q))

      breakdown_lem :
          (q : Query C) (d : DimensionName) (m : Option MetricName) (l o : ℕ)
          → get "dimension" (to_qs C decimal w q) ≡ dimension_text d
          → get "metric" (to_qs C decimal w q) ≡ or_empty (Option.map metric_text m)
          → parse_int_param G (get "limit" (to_qs C decimal w q)) 100 1 1000 ≡ l
          → parse_int_param G (get "offset" (to_qs C decimal w q)) 0 0 1000000 ≡ o
          → stats_breakdown G site (to_qs C decimal w q)
            ≡ in_window (breakdown (column d) (agg (get_or_else m visitors)) l o)
      unfolding stats_breakdown
      breakdown_lem q d m l o e k f g =
          let (known, some_dimension) = column_lem d in
          let metric = agg_lem (get_or_else m visitors) in
          window_lem q _
          ∙ rw (e, k, f, g, some_dimension, known, metric_lem m, metric.0)
              (ap
                (λ fs. answers (breakdown (column d) (agg (get_or_else m visitors)) l o from to fs))
                (filters_none q))

      web_vitals_lem :
          (q : Query C) (g : String)
          → get "group_by" (to_qs C decimal w q) ≡ g
          → stats_web_vitals G site (to_qs C decimal w q)
            ≡ or_internal (group_col g) (λ col. in_window (web_vitals col))
      unfolding stats_web_vitals
      web_vitals_lem q g e =
          window_lem q _
          ∙ rw e (
              ap (λ fs. or_internal (group_col g) (λ col. answers (web_vitals col from to fs)))
                (filters_none q))

      -- What Go reads of a number that the client prints: the number, or no number, where it
      -- is out of the range of an `int`.
      module _
          (numbers : (n : ℕ)
            → (decimal n == "" ≡ false)
              × ((atoi (decimal n) ≡ some (pos n))
                  ⊎ ((2 ^ 31 ≤ n) × (atoi (decimal n) ≡ none)))) where
        parse_lem :
            (l : Option ℕ) (low high def : ℕ)
            → high ≤ 1000000
            → parse_int_param G (or_empty (Option.map decimal l)) def low high
              ≡ in_range low high def l
        unfolding parse_int_param
        parse_lem none low high def h = refl
        parse_lem (some n) low high def h =
            let (filled, read) = numbers n in
            elim read [
              | inl e ↦ rw (filled, e) (ground arith)
              | inr (big, e) ↦ rw (filled, e) (ground arith)
            ]

        -- For a site with an identifier that the API takes, and a window whose ends it reads, the
        -- later one after the earlier one, the API has a route for each query of the client and makes
        -- of it what is meant: the store's aggregate, bucket and column, of this window, by no
        -- filter, with the limit and the offset of the query, or the API's default for one that is
        -- missing or out of the API's range; only web vitals by device are an internal error.
        -- Go reads a number as the client prints it, or as none beyond 2 ^ 31.
        pub queries_answered :
            (q : Query C) → route G site (endpoint C q) (to_qs C decimal w q) ≡ some (expected q)
        unfolding route stats_realtime expected base_parts is_unread lookup group_col
        queries_answered (Calls.realtime s) = rw uuid refl
        queries_answered (Calls.summary x s f) =
            ap some (summary_lem _ (ap or_empty (sent C decimal w _ "compare" refl)))
        queries_answered (Calls.timeseries x m i s f) = ap some (
            timeseries_lem _ m i (get_lem w _ "metric" _ refl refl)
              (get_lem w _ "interval" _ refl refl))
        queries_answered (Calls.breakdown x d m l o s f) = ap some (
            breakdown_lem _ d m _ _ (get_lem w _ "dimension" _ refl refl)
              (get_lem w _ "metric" _ refl refl)
              (ap (λ t. parse_int_param G t 100 1 1000) (get_lem w _ "limit" _ refl refl)
                ∙ parse_lem l 1 1000 100 (omega arith))
              (ap (λ t. parse_int_param G t 0 0 1000000) (get_lem w _ "offset" _ refl refl)
                ∙ parse_lem o 0 1000000 0 (omega arith)))
        queries_answered (Calls.web_vitals x none s f) =
            ap some (web_vitals_lem _ "" (get_lem w _ "group_by" none refl refl))
        queries_answered (Calls.web_vitals x (some ungrouped) s f) =
            ap some (web_vitals_lem _ "none" (get_lem w _ "group_by" (some "none") refl refl))
        queries_answered (Calls.web_vitals x (some by_path) s f) =
            ap some (web_vitals_lem _ "path" (get_lem w _ "group_by" (some "path") refl refl))
        queries_answered (Calls.web_vitals x (some by_device) s f) =
            ap some (web_vitals_lem _ "device" (get_lem w _ "group_by" (some "device") refl refl))
