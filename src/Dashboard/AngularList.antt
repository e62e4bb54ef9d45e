-- ===== src/Dashboard/AngularList.antt =====
-- The lists of a breakdown in packages/dashboard-angular/src/components/top-list.component.ts, and
-- what they have in common with those of packages/dashboard-react.
use webalytics.Common.{
  ℕ, String, Option, none, some, List, [], ◌∷◌, map, get_or_else, take, if◌then◌else◌,
}
use webalytics.Numbers.{Floats, max, min, max_of, or_one}
use webalytics.Client.Types.{
  DimensionName, path, hostname, referrer_host, country, device, browser, os, utm_source,
  utm_medium, utm_campaign, event_name,
}
use webalytics.Format.Core.{format_int, format_pct, country_flag}
use webalytics.Dashboard.TopList as React
use webalytics.Dashboard.TopList.{
  Row, Breakdown, ListRow, ListView, is_empty, is_country, text_or, max_share,
}

unfoldable pub default_title : DimensionName → String
default_title path = "Top pages"
default_title hostname = "Top hostnames"
default_title referrer_host = "Top referrers"
default_title country = "Top countries"
default_title device = "Devices"
default_title browser = "Browsers"
default_title os = "Operating systems"
default_title utm_source = "UTM sources"
default_title utm_medium = "UTM mediums"
default_title utm_campaign = "UTM campaigns"
default_title event_name = "Top events"

abbrev unspoken : {N : Type 0} → ListRow N → ListRow N
unspoken r = record r { spoken = none }

-- The first rows of a list, without their texts for screen readers.
abbrev pub shortened : {N : Type 0} → ℕ → ListView N → ListView N
shortened n v = record v { rows = take n (map unspoken v.rows) }

module _ (F : Floats) (to_upper : String → String) (units : String → List ℕ) where
  open F use {Number, lit, le, lt, mul, div, is_finite}

  -- The component's input `maxRows` is 8 by default.
  unfoldable pub visible_rows : ℕ → Breakdown Number → List (Row Number)
  visible_rows max_rows data' = take max_rows data'.results

  unfoldable pub max_share_of : List (Row Number) → Number
  max_share_of [] = lit 1 0
  max_share_of (r ∷ rows) = or_one F (max_of F r.share (map (λ x. x.share) rows))

  unfoldable pub pct : Number → Number → Number
  pct max_share share = max F (lit 2 0) (min F (lit 100 0) (mul (div share max_share) (lit 100 0)))

  unfoldable pub row_view : DimensionName → Number → Row Number → ListRow Number
  unfolding pct
  row_view d max_share r = record {
    bar = pct max_share r.share;
    spoken = none;
    tooltip = text_or r.key "(unknown)";
    label = record {
      flag = if is_country d then some (country_flag (units r.key)) else none;
      label = text_or r.key "(direct / unknown)";
    };
    value = format_int F r.value;
    share = format_pct F r.share 1;
  }

  unfoldable pub resolved_title : Option String → Breakdown Number → String
  unfolding default_title
  resolved_title title data' = to_upper (get_or_else title (default_title data'.dimension))

  unfoldable pub list_view : ℕ → Option String → Breakdown Number → ListView Number
  unfolding visible_rows max_share_of row_view resolved_title
  list_view max_rows title data' =
      let rows = visible_rows max_rows data' in
      record {
        title = resolved_title title data';
        total = format_int F data'.total;
        no_data = is_empty data'.results;
        rows = map (row_view data'.dimension (max_share_of rows)) rows;
      }
