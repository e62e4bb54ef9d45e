-- ===== src/Server/Stats.antt =====
-- What the API makes of the parameters of a query: internal/api/v1/stats.go, util.go and the switches
-- of internal/storage/clickhouse/queries.go. Go's parsers of times, numbers and identifiers are
-- parameters.
use webalytics.Common.{
  ℕ, String, Bool, not, ◌||◌, Option, none, some, List, [], ◌∷◌, map, ◌==◌, if◌then◌else◌, ltb,
  or_empty,
}
use webalytics.Numbers.{ℤ, pos, negsuc}
use webalytics.Client.Query.{lookup}
use webalytics.Client.Server.{parse_filters}

abbrev pub Params : Type 0
Params = List (String × String)

-- `r.URL.Query().Get(key)`
abbrev pub get : String → Params → String
get key q = or_empty (lookup key q)

-- `time.Parse(layout, raw)`, `strconv.Atoi` and `uuid.Parse`.
pub record GoLibrary : Type 1 where
  pub Time : Type 0
  pub parse_time : String → String → Option Time
  pub is_after : Time → Time → Bool
  pub atoi : String → Option ℤ
  pub is_uuid : String → Bool

-- The query of the store that answers: the column that is grouped by, the aggregate and the bucket
-- are SQL; `filters` are the values of the filter parameters.
pub data Plan (T : Type 0) : Type 0 where
  summary : (compare : Option String) (from to : T) (filters : List (Option String)) → Plan T
  timeseries : (bucket agg : String) (from to : T) (filters : List (Option String)) → Plan T
  breakdown :
      (col agg : String) (limit offset : ℕ) (from to : T) (filters : List (Option String)) → Plan T
  web_vitals : (group_col : String) (from to : T) (filters : List (Option String)) → Plan T
  realtime : Plan T

-- An error of the store is an internal one.
pub data Reply (A : Type 0) : Type 0 where
  bad_request : (message : String) → Reply A
  internal_error : Reply A
  answers : A → Reply A

abbrev pub and_then : {A B : Type 0} → Reply A → (A → Reply B) → Reply B
and_then (bad_request m) f = bad_request m
and_then internal_error f = internal_error
and_then (answers a) f = f a

abbrev pub or_internal : {A B : Type 0} → Option A → (A → Reply B) → Reply B
or_internal none f = internal_error
or_internal (some a) f = f a

-- `parseFilters`
unfoldable pub filters_from : Params → List (Option String)
filters_from q = map (λ k. lookup k q) parse_filters

-- The aggregate of a metric.
unfoldable pub agg_of : String → Option String
agg_of metric =
    if (metric == "visitors") || (metric == "sessions")
    then some "uniq(session_id)"
    else if metric == "pageviews"
    then some "countIf(event_name = 'pageview')"
    else none

unfoldable pub interval_bucket_expr : String → String
interval_bucket_expr interval =
    if interval == "minute"
    then "toStartOfMinute(ts)"
    else if interval == "hour"
    then "toStartOfHour(ts)"
    else if interval == "week"
    then "toStartOfWeek(ts)"
    else if interval == "month"
    then "toStartOfMonth(ts)"
    else "toStartOfDay(ts)"

unfoldable pub allowed_dimensions : List (String × String)
allowed_dimensions =
    ("hostname", "hostname")
    ∷ ("path", "url_path")
    ∷ ("route", "route")
    ∷ ("referrer_host", "referrer_host")
    ∷ ("utm_source", "utm_source")
    ∷ ("utm_medium", "utm_medium")
    ∷ ("utm_campaign", "utm_campaign")
    ∷ ("country", "country_code")
    ∷ ("region", "region")
    ∷ ("city", "city")
    ∷ ("device_type", "ua_device_type")
    ∷ ("device", "ua_device_type")
    ∷ ("browser", "ua_browser")
    ∷ ("os", "ua_os")
    ∷ ("language", "language")
    ∷ ("event_name", "event_name")
    ∷ ("environment", "environment")
    ∷ ("release", "release")
    ∷ []

unfoldable pub group_col : String → Option String
group_col group_by =
    if (group_by == "") || (group_by == "none")
    then some "''"
    else if group_by == "hostname"
    then some "hostname"
    else if group_by == "route"
    then some "route"
    else if group_by == "path"
    then some "url_path"
    else none

-- The kinds of window that a summary is compared with; any other text asks for no comparison.
unfoldable pub compare_kind : String → Option String
compare_kind kind =
    if (kind == "previous_period") || (kind == "previous_year") then some kind else none

module _ (G : GoLibrary) where
  open G use {Time, parse_time, is_after, atoi, is_uuid}

  abbrev try_layouts : List String → String → Option Time
  try_layouts [] raw = none
  try_layouts (l ∷ ls) raw = elim (parse_time l raw) [ some t ↦ some t | none ↦ try_layouts ls raw ]

  unfoldable pub parse_time_param : String → Option Time
  parse_time_param raw =
      if raw == ""
      then none
      else try_layouts
          ("2006-01-02T15:04:05.999999999Z07:00" ∷ "2006-01-02T15:04:05Z07:00"
            ∷ "2006-01-02T15:04:05Z" ∷ "2006-01-02" ∷ [])
          raw

  abbrev or_bad : {A B : Type 0} → Option A → String → (A → Reply B) → Reply B
  or_bad none m f = bad_request m
  or_bad (some a) m f = f a

  unfoldable pub parse_window : Params → Reply (Time × Time)
  parse_window q = or_bad (parse_time_param (get "from" q)) "invalid or missing from" (λ from.
      or_bad (parse_time_param (get "to" q)) "invalid or missing to" (λ to.
        if not (is_after to from) then bad_request "to must be after from" else answers (from, to)))

  abbrev within : ℤ → ℕ → ℕ → ℕ → ℕ
  within (negsuc n) def min max = def
  within (pos n) def min max = if ltb n min || ltb max n then def else n

  unfoldable pub parse_int_param : String → (def min max : ℕ) → ℕ
  parse_int_param raw def min max =
      if raw == "" then def else elim (atoi raw) [ none ↦ def | some n ↦ within n def min max ]

  module _ (site_id : String) where
    -- `parseUUID`, then `parseWindow`.
    unfoldable pub with_window : Params → (Time → Time → Reply (Plan Time)) → Reply (Plan Time)
    with_window q f =
        if not (is_uuid site_id)
        then bad_request "invalid uuid"
        else and_then (parse_window q) (λ w. f w.0 w.1)

    unfoldable pub stats_summary : Params → Reply (Plan Time)
    stats_summary q =
        let compare = compare_kind (get "compare" q) in
        with_window q (λ from to. answers (summary compare from to (filters_from q)))

    unfoldable pub stats_timeseries : Params → Reply (Plan Time)
    stats_timeseries q =
        let metric = get "metric" q in
        let interval = get "interval" q in
        with_window q (λ from to.
          if (metric == "") || (interval == "")
          then bad_request "metric and interval are required"
          else or_internal (agg_of metric) (λ agg.
            answers (timeseries (interval_bucket_expr interval) agg from to (filters_from q))))

    unfoldable pub stats_breakdown : Params → Reply (Plan Time)
    stats_breakdown q =
        let dim = get "dimension" q in
        let metric = if get "metric" q == "" then "visitors" else get "metric" q in
        let limit = parse_int_param (get "limit" q) 100 1 1000 in
        let offset = parse_int_param (get "offset" q) 0 0 1000000 in
        with_window q (λ from to.
          if dim == ""
          then bad_request "dimension required"
          else or_internal (lookup dim allowed_dimensions) (λ col.
            or_internal (agg_of metric)
              (λ agg. answers (breakdown col agg limit offset from to (filters_from q)))))

    unfoldable pub stats_web_vitals : Params → Reply (Plan Time)
    stats_web_vitals q = with_window q (λ from to.
        or_internal (group_col (get "group_by" q))
          (λ col. answers (web_vitals col from to (filters_from q))))

    unfoldable pub stats_realtime : Params → Reply (Plan Time)
    stats_realtime q =
        if not (is_uuid site_id) then bad_request "invalid uuid" else answers realtime

    -- The routes under `/sites/{siteId}/stats/`; `none` where there is none.
    unfoldable pub route : String → Params → Option (Reply (Plan Time))
    route endpoint q =
        if endpoint == "summary"
        then some (stats_summary q)
        else if endpoint == "timeseries"
        then some (stats_timeseries q)
        else if endpoint == "breakdown"
        then some (stats_breakdown q)
        else if endpoint == "web-vitals"
        then some (stats_web_vitals q)
        else if endpoint == "realtime"
        then some (stats_realtime q)
        else none
