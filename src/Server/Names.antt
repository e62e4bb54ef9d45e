-- ===== src/Server/Names.antt =====
-- What the names that a query of packages/dashboard-react/src/client.ts carries mean in the store
-- (internal/storage/clickhouse/queries.go).
use mathlib.Core.Option
use webalytics.Common.{
  String, false, Option, none, some, List, [], ◌∷◌, map, ◌==◌, ◌≡◌, refl, sym, ap₂, arith, All,
  if◌then◌else◌, truthy, eq_iff, or_empty, get_or_else, Bool-cases, inl, inr,
}
use webalytics.Client.Types.{
  MetricName, visitors, pageviews, sessions, IntervalName, minute, hour, day, week, month,
  DimensionName, path, hostname, referrer_host, country, device, browser, os, utm_source,
  utm_medium, utm_campaign, event_name, metric_text, interval_text, dimension_text,
}
use webalytics.Client.Query.{lookup}
use webalytics.Client.Server.{parse_filters}
use webalytics.Client.Objects.{shown}
use webalytics.Server.Stats.{Params, agg_of, interval_bucket_expr, allowed_dimensions}

-- What the names of a query mean in the store.
abbrev pub agg : MetricName → String
agg visitors = "uniq(session_id)"
agg pageviews = "countIf(event_name = 'pageview')"
agg sessions = "uniq(session_id)"

abbrev pub bucket : IntervalName → String
bucket minute = "toStartOfMinute(ts)"
bucket hour = "toStartOfHour(ts)"
bucket day = "toStartOfDay(ts)"
bucket week = "toStartOfWeek(ts)"
bucket month = "toStartOfMonth(ts)"

abbrev pub column : DimensionName → String
column path = "url_path"
column hostname = "hostname"
column referrer_host = "referrer_host"
column country = "country_code"
column device = "ua_device_type"
column browser = "ua_browser"
column os = "ua_os"
column utm_source = "utm_source"
column utm_medium = "utm_medium"
column utm_campaign = "utm_campaign"
column event_name = "event_name"

abbrev pub no_filters : List (Option String)
no_filters = map (λ k. none) parse_filters

-- The filters of a query that names no filter of the server.
pub filters_lem :
    (q : Params) (ks : List String)
    → All (λ k. lookup k q ≡ none) ks
    → map (λ k. lookup k q) ks ≡ map (λ k. none) ks
filters_lem q [] h = refl
filters_lem q (k ∷ ks) (e, h) = ap₂ ◌∷◌ e (filters_lem q ks h)

pub agg_lem :
    (m : MetricName) → (agg_of (metric_text m) ≡ some (agg m)) × (metric_text m == "" ≡ false)
unfolding agg_of
agg_lem visitors = (refl, refl)
agg_lem pageviews = (refl, refl)
agg_lem sessions = (refl, refl)

pub bucket_lem :
    (i : IntervalName)
    → (interval_bucket_expr (interval_text i) ≡ bucket i) × (interval_text i == "" ≡ false)
unfolding interval_bucket_expr
bucket_lem minute = (refl, refl)
bucket_lem hour = (refl, refl)
bucket_lem day = (refl, refl)
bucket_lem week = (refl, refl)
bucket_lem month = (refl, refl)

pub column_lem :
    (d : DimensionName)
    → (lookup (dimension_text d) allowed_dimensions ≡ some (column d))
      × (dimension_text d == "" ≡ false)
unfolding lookup allowed_dimensions
column_lem path = (refl, refl)
column_lem hostname = (refl, refl)
column_lem referrer_host = (refl, refl)
column_lem country = (refl, refl)
column_lem device = (refl, refl)
column_lem browser = (refl, refl)
column_lem os = (refl, refl)
column_lem utm_source = (refl, refl)
column_lem utm_medium = (refl, refl)
column_lem utm_campaign = (refl, refl)
column_lem event_name = (refl, refl)

pub metric_lem :
    (m : Option MetricName)
    → (if or_empty (Option.map metric_text m) == ""
        then "visitors"
        else or_empty (Option.map metric_text m))
      ≡ metric_text (get_or_else m visitors)
metric_lem none = refl
metric_lem (some visitors) = refl
metric_lem (some pageviews) = refl
metric_lem (some sessions) = refl

-- An empty value that is left out reads as the empty text.
pub shown_lem : (o : Option String) → or_empty (shown (some o)) ≡ or_empty o
shown_lem none = refl
shown_lem (some s) = elim (Bool-cases (truthy s)) [
  | inl h ↦ rw h refl
  | inr h ↦ rw h (sym ((eq_iff s "").0 (ground arith)))
]
