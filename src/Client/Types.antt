-- ===== src/Client/Types.antt =====
-- packages/dashboard-react/src/types.ts and the configuration types of client.ts. `D` is the type of
-- JavaScript's dates.
use webalytics.Common.{ℕ, String, Option, List}

pub data When (D : Type 0) : Type 0 where
  date : D → When D
  text : String → When D

pub data WindowSpec (D : Type 0) : Type 0 where
  range : (from to : When D) → WindowSpec D
  w1h w24h w7d w30d w90d : WindowSpec D

pub record TimeWindow : Type 0 where
  pub from : String
  pub to : String

pub data MetricName : Type 0 where
  visitors pageviews sessions : MetricName

pub data IntervalName : Type 0 where
  minute hour day week month : IntervalName

pub data DimensionName : Type 0 where
  path hostname referrer_host country device browser os : DimensionName
  utm_source utm_medium utm_campaign event_name : DimensionName

pub data GroupBy : Type 0 where
  ungrouped by_path by_device : GroupBy

pub data FilterName : Type 0 where
  hostnames paths devices countries referrer_hosts utm_sources environments releases : FilterName

-- The entries of the object in the order of `Object.entries`; a missing list reads like an empty one.
abbrev pub Filters : Type 0
Filters = List (FilterName × List String)

abbrev pub filter_key : FilterName → String
filter_key hostnames = "hostnames"
filter_key paths = "paths"
filter_key devices = "devices"
filter_key countries = "countries"
filter_key referrer_hosts = "referrer_hosts"
filter_key utm_sources = "utm_sources"
filter_key environments = "environments"
filter_key releases = "releases"

abbrev pub metric_text : MetricName → String
metric_text visitors = "visitors"
metric_text pageviews = "pageviews"
metric_text sessions = "sessions"

abbrev pub interval_text : IntervalName → String
interval_text minute = "minute"
interval_text hour = "hour"
interval_text day = "day"
interval_text week = "week"
interval_text month = "month"

abbrev pub dimension_text : DimensionName → String
dimension_text path = "path"
dimension_text hostname = "hostname"
dimension_text referrer_host = "referrer_host"
dimension_text country = "country"
dimension_text device = "device"
dimension_text browser = "browser"
dimension_text os = "os"
dimension_text utm_source = "utm_source"
dimension_text utm_medium = "utm_medium"
dimension_text utm_campaign = "utm_campaign"
dimension_text event_name = "event_name"

abbrev pub group_text : GroupBy → String
group_text ungrouped = "none"
group_text by_path = "path"
group_text by_device = "device"

pub data ClientConfig : Type 0 where
  server : (host token site_id : String) → (revalidate_seconds : Option ℕ) → ClientConfig
  public : (host public_token site_id : String) → (revalidate_seconds : Option ℕ) → ClientConfig
