-- ===== src/App/Pages.antt =====
-- The pages of apps/dashboard-next/app: what they ask (page.tsx, pages/page.tsx, vitals/page.tsx) and
-- what they show of the answers, with the formatters of components/metric-grid.tsx, without their
-- markup. `Intl.NumberFormat` and `String` on numbers are parameters.
use webalytics.Common.{
  String, Bool, not, ◌||◌, Option, none, some, List, [], ◌∷◌, map, ◌==◌, ◌+++◌, truthy, take,
  if◌then◌else◌,
}
use webalytics.Numbers.{Floats, ℤ}
use webalytics.Client.Types.{TimeWindow}
use webalytics.Format.Core.{int_text}
use webalytics.Vitals.Core.{VitalName, lcp, inp, cls, fcp, ttfb}
use webalytics.App.Api.{Endpoint, site, realtime, summary, breakdown, web_vitals}

-- The requests of the first page: three at once, and then the site.
unfoldable pub realtime_page : String → TimeWindow → List Endpoint × Endpoint
realtime_page id window =
    (realtime id ∷ summary id window ∷ breakdown id window "event_name" "visitors" 50 ∷ [], site id)

unfoldable pub top_pages_page : String → TimeWindow → Endpoint
top_pages_page id window = breakdown id window "path" "visitors" 50

unfoldable pub vitals_page : String → TimeWindow → Endpoint
vitals_page id window = web_vitals id window "none"

-- `BUILTIN_EVENTS.has(key)`
unfoldable pub is_builtin : String → Bool
is_builtin key = (key == "pageview") || (key == "web_vital")

pub record EventRow (N : Type 0) : Type 0 where
  pub key : String
  pub value : N
  pub share : N

unfoldable pub custom_events : {N : Type 0} → List (EventRow N) → List (EventRow N)
unfolding is_builtin
custom_events [] = []
custom_events (row ∷ rows) =
    let rest = custom_events rows in if not (is_builtin row.key) then row ∷ rest else rest

-- The lists of the first page: at most ten rows.
unfoldable pub list_items :
    {N : Type 0} (show : N → String) → List (String × N) → List (String × String)
list_items show items =
    map (λ it. (if truthy it.0 then it.0 else "(empty)", show it.1)) (take 10 items)

unfoldable pub metrics : List VitalName
metrics = lcp ∷ inp ∷ cls ∷ fcp ∷ ttfb ∷ []

pub record Distribution (N : Type 0) : Type 0 where
  pub samples : N
  pub p75 : N
  pub p95 : N
  pub good : N
  pub needs_improvement : N
  pub poor : N

pub record VitalsLine : Type 0 where
  pub metric : VitalName
  pub samples : String
  pub p75 : String
  pub p95 : String
  pub good : String
  pub needs_improvement : String
  pub poor : String

-- `non_finite` is what the formatters make of the infinities.
module _ (F : Floats) (grouped : ℤ → String) (non_finite : F.Number → String) where
  open F use {Number, lit, le, mul, div, round, to_fixed, is_finite}

  abbrev is_nan : Number → Bool
  is_nan n = not (le n n)

  unfoldable pub fmt_int : Option Number → String
  fmt_int none = "—"
  fmt_int (some n) =
      if is_nan n then "—" else if is_finite n then grouped (round n) else non_finite n

  unfoldable pub fmt_pct : Option Number → String
  fmt_pct none = "—"
  fmt_pct (some n) = if is_nan n then "—" else to_fixed 1 (mul n (lit 100 0)) +++ "%"

  unfoldable pub fmt_ms : Option Number → String
  fmt_ms none = "—"
  fmt_ms (some n) =
      if is_nan n
      then "—"
      else if le (lit 1000 0) n
      then to_fixed 2 (div n (lit 1000 0)) +++ "s"
      else (if is_finite n then int_text (round n) else non_finite n) +++ "ms"

  -- The rows of the table of custom events, and of that of the top pages.
  unfoldable pub event_line : EventRow Number → String × (String × String)
  unfolding fmt_int fmt_pct
  event_line row = (row.key, (fmt_int (some row.value), fmt_pct (some row.share)))

  unfoldable pub page_line : EventRow Number → String × (String × String)
  unfolding fmt_int fmt_pct
  page_line row = (
    if truthy row.key then row.key else "(empty)",
    (fmt_int (some row.value), fmt_pct (some row.share)),
  )

  abbrev vital_fmt : VitalName → Number → String
  vital_fmt cls v = to_fixed 3 v
  vital_fmt m v = fmt_ms (some v)

  -- A row of the table of vitals; without data its cells are dashes.
  unfoldable pub vitals_line : VitalName → Option (Distribution Number) → VitalsLine
  unfolding fmt_int fmt_pct fmt_ms
  vitals_line name none = record {
    metric = name;
    samples = fmt_int none;
    p75 = "—";
    p95 = "—";
    good = fmt_pct none;
    needs_improvement = fmt_pct none;
    poor = fmt_pct none;
  }
  vitals_line name (some m) = record {
    metric = name;
    samples = fmt_int (some m.samples);
    p75 = vital_fmt name m.p75;
    p95 = vital_fmt name m.p95;
    good = fmt_pct (some m.good);
    needs_improvement = fmt_pct (some m.needs_improvement);
    poor = fmt_pct (some m.poor);
  }

  -- The table: a row for every metric, whatever the first group of the answer has.
  unfoldable pub vitals_table : (VitalName → Option (Distribution Number)) → List VitalsLine
  unfolding metrics vitals_line
  vitals_table group = map (λ name. vitals_line name (group name)) metrics

  -- The tiles of the first page, from the count of live visitors and the metrics of the summary.
  unfoldable pub realtime_tiles : Number → (String → Option Number) → List (String × String)
  unfolding fmt_int fmt_pct
  realtime_tiles online metric =
      ("Online now", fmt_int (some online))
      ∷ ("Visitors (24h)", fmt_int (metric "visitors"))
      ∷ ("Pageviews (24h)", fmt_int (metric "pageviews"))
      ∷ ("Sessions (24h)", fmt_int (metric "sessions"))
      ∷ ("Bounce rate (24h)", fmt_pct (metric "bounce_rate"))
      ∷ ("Avg session", fmt_int (metric "avg_session_s"))
      ∷ []
