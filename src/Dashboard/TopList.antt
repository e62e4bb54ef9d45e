-- ===== src/Dashboard/TopList.antt =====
-- The lists of a breakdown: packages/dashboard-react/src/components/top-list.tsx, with `barFill` of
-- styles.ts, without the markup. `toUpperCase` and the UTF-16 units of a text are parameters.
use webalytics.Common.{
  ℕ, String, Bool, true, false, Option, none, some, List, [], ◌∷◌, map, ◌+++◌, get_or_else, truthy,
  if◌then◌else◌,
}
use webalytics.Numbers.{Floats, max, min, max_of, or_one}
use webalytics.Client.Types.{
  DimensionName, path, hostname, referrer_host, country, device, browser, os, utm_source,
  utm_medium, utm_campaign, event_name,
}
use webalytics.Format.Core.{int_text, format_int, format_pct, country_flag}

pub record Row (N : Type 0) : Type 0 where
  pub key : String
  pub value : N
  pub share : N

pub record Breakdown (N : Type 0) : Type 0 where
  pub dimension : DimensionName
  pub results : List (Row N)
  pub total : N

-- The label of a row, with the flag that stands before it.
pub record Label : Type 0 where
  pub flag : Option (List ℕ)
  pub label : String

-- What a row shows; `bar` is its width in percent, `spoken` the hidden text for screen readers.
pub record ListRow (N : Type 0) : Type 0 where
  pub bar : N
  pub spoken : Option String
  pub tooltip : String
  pub label : Label
  pub value : String
  pub share : String

-- What a list shows. `no_data` is the note that stands for an empty list.
pub record ListView (N : Type 0) : Type 0 where
  pub title : String
  pub total : String
  pub no_data : Bool
  pub rows : List (ListRow N)

abbrev pub is_empty {ℓ} : {A : Type ℓ} → List A → Bool
is_empty [] = true
is_empty (x ∷ xs) = false

abbrev pub is_country : DimensionName → Bool
is_country country = true
is_country d = false

unfoldable pub default_title : DimensionName → String
default_title path = "Top pages"
default_title hostname = "Top hostnames"
default_title referrer_host = "Top referrers"
default_title country = "Top countries"
default_title device = "Devices"
default_title browser = "Browsers"
default_title os = "Operating systems"
default_title utm_source = "UTM sources"
default_title utm_medium = "UTM mediums"
default_title utm_campaign = "UTM campaigns"
default_title event_name = "Top events"

-- `k || fallback`
abbrev pub text_or : String → String → String
text_or k fallback = if truthy k then k else fallback

module _ (F : Floats) where
  open F use {Number, lit, mul, div, round}

  -- `barFill`
  unfoldable pub bar_fill : Number → Number
  bar_fill share = max F (lit 2 0) (min F (lit 100 0) (mul share (lit 100 0)))

  -- The share for screen readers.
  unfoldable pub spoken : Number → String
  spoken share = int_text (round (mul share (lit 100 0))) +++ "%"

  unfoldable pub list_row :
      (String → DimensionName → Label) → DimensionName → Number → Row Number → ListRow Number
  unfolding bar_fill spoken
  list_row render d max_share r = record {
    bar = bar_fill (div r.share max_share);
    spoken = some (spoken r.share);
    tooltip = text_or r.key "(unknown)";
    label = render r.key d;
    value = format_int F r.value;
    share = format_pct F r.share 1;
  }

  -- `Math.max(...shares) || 1` of at least one row; of none it is -Infinity, which nothing reads.
  unfoldable pub max_share : Row Number → List (Row Number) → Number
  max_share r rows = or_one F (max_of F r.share (map (λ x. x.share) rows))

  unfoldable pub list_rows :
      (String → DimensionName → Label) → DimensionName → List (Row Number) → List (ListRow Number)
  unfolding list_row max_share
  list_rows render d [] = []
  list_rows render d (r ∷ rows) = map (list_row render d (max_share r rows)) (r ∷ rows)

module _ (F : Floats) (to_upper : String → String) (units : String → List ℕ) where
  open F use {Number}

  unfoldable pub default_render_key : String → DimensionName → Label
  default_render_key k d =
      let label = if truthy k then k else "(direct / unknown)" in
      record { flag = if is_country d then some (country_flag (units k)) else none; label = label }

  -- `TopList`, once the answer is there. The dimension is the prop; that of the answer is not read.
  unfoldable pub top_list :
      DimensionName
      → Option String
      → Option (String → DimensionName → Label)
      → Breakdown Number
      → ListView Number
  unfolding default_title default_render_key list_rows
  top_list d title render_key data' = record {
    title = to_upper (get_or_else title (default_title d));
    total = format_int F data'.total;
    no_data = is_empty data'.results;
    rows = list_rows F (get_or_else render_key default_render_key) d data'.results;
  }
