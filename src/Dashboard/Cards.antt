-- ===== src/Dashboard/Cards.antt =====
-- packages/dashboard-react/src/components/web-vitals.tsx: the thresholds and the badge of a card, beside
-- the rating of packages/tracker/src/vitals.ts. `no_row` is a vital that the answer lacks.
use webalytics.Common.{
  ℕ, ◌+◌, String, Option, none, some, ◌≡◌, refl, if◌then◌else◌, ◌=ℕ◌, ◌+++◌, arith,
}
use webalytics.Numbers.{Floats, pos}
use webalytics.Vitals.Core.{VitalName, lcp, fcp, cls, ttfb, inp, Rating, rate}
use webalytics.Format.Core.{format_ms, format_cls, format_int}

pub data Kind : Type 0 where
  good warn bad : Kind

pub record VitalRow (N : Type 0) : Type 0 where
  pub p75 : N
  pub samples : ℕ
  pub good : ℕ
  pub needs_improvement : ℕ
  pub poor : ℕ

-- What a card shows. The flex shares are fractions, the counts over their total.
pub record VitalCard : Type 0 where
  pub kind : Kind
  pub kind_label : String
  pub p75_display : String
  pub label : String
  pub total : ℕ
  pub samples_display : String

module _ (F : Floats) where
  open F use {Number, lit, le, of_int}

  pub record Threshold : Type 0 where
    pub good : Number
    pub poor : Number
    pub format : Number → String
    pub label : String

  abbrev pub thresholds : VitalName → Threshold
  thresholds lcp = record {
    good = lit 2500 0;
    poor = lit 4000 0;
    format = format_ms F;
    label = "Largest Contentful Paint";
  }
  thresholds inp = record {
    good = lit 200 0;
    poor = lit 500 0;
    format = format_ms F;
    label = "Interaction to Next Paint";
  }
  thresholds cls = record {
    good = lit 1 1;
    poor = lit 25 2;
    format = format_cls F;
    label = "Cumulative Layout Shift";
  }
  thresholds fcp = record {
    good = lit 1800 0;
    poor = lit 3000 0;
    format = format_ms F;
    label = "First Contentful Paint";
  }
  thresholds ttfb = record {
    good = lit 800 0;
    poor = lit 1800 0;
    format = format_ms F;
    label = "Time to First Byte";
  }

  unfoldable pub kind_of : VitalName → Option (VitalRow Number) → Kind
  kind_of m none = warn
  kind_of m (some row) =
      let t = thresholds m in
      if row.samples =ℕ 0
      then warn
      else if le row.p75 t.good
      then good
      else if le row.p75 t.poor
      then warn
      else bad

  abbrev kind_label : Kind → String
  kind_label good = "Good"
  kind_label warn = "Needs work"
  kind_label bad = "Poor"

  abbrev total_of : Option (VitalRow Number) → ℕ
  total_of none = 0
  total_of (some row) = row.good + row.needs_improvement + row.poor

  abbrev p75_text : VitalName → Option (VitalRow Number) → String
  p75_text m none = "—"
  p75_text m (some row) = (thresholds m).format row.p75

  abbrev samples_text : Option (VitalRow Number) → String
  samples_text none = "no samples"
  samples_text (some row) = format_int F (of_int (pos row.samples)) +++ " samples"

  unfoldable pub vital_card : VitalName → Option (VitalRow Number) → VitalCard
  unfolding kind_of
  vital_card m row = record {
    kind = kind_of m row;
    kind_label = kind_label (kind_of m row);
    p75_display = p75_text m row;
    label = (thresholds m).label;
    total = total_of row;
    samples_display = samples_text row;
  }

  abbrev pub kind_of_rating : Rating → Kind
  kind_of_rating Rating.good = good
  kind_of_rating Rating.needs_improvement = warn
  kind_of_rating Rating.poor = bad

  -- A card with samples shows the rating that the tracker gives the 75th percentile; a card without
  -- them, or without a row, shows the middle one.
  pub kind_is_rating :
      (m : VitalName) (row : VitalRow Number)
      → ((vital_card m none).kind ≡ warn)
        × (vital_card m (some row)).kind
          ≡ (if row.samples =ℕ 0 then warn else kind_of_rating (rate F m row.p75))
  unfolding vital_card kind_of rate
  kind_is_rating lcp row = (refl, ground arith)
  kind_is_rating fcp row = (refl, ground arith)
  kind_is_rating cls row = (refl, ground arith)
  kind_is_rating ttfb row = (refl, ground arith)
  kind_is_rating inp row = (refl, ground arith)
