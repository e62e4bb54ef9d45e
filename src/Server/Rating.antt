-- ===== src/Server/Rating.antt =====
-- internal/enrich/rating.go: the rating that the collector gives a vital whose event brings none,
-- beside that of packages/tracker/src/vitals.ts and the badge of
-- packages/dashboard-react/src/components/web-vitals.tsx.
use webalytics.Common.{String, Option, none, some, ◌==◌, ◌≡◌, arith, if◌then◌else◌, ◌=ℕ◌}
use webalytics.Numbers.{Floats}
use webalytics.Vitals.Core.{VitalName, lcp, fcp, cls, ttfb, inp, rate}
use webalytics.Page.{vital_text, rating_text}
use webalytics.Dashboard.Cards.{warn, VitalRow, vital_card, kind_of_rating, kind_is_rating}

module _ (F : Floats) where
  open F use {Number, lit, le}

  unfoldable pub vital_thresholds : String → Option (Number × Number)
  vital_thresholds metric =
      if metric == "LCP"
      then some (lit 2500 0, lit 4000 0)
      else if metric == "INP"
      then some (lit 200 0, lit 500 0)
      else if metric == "CLS"
      then some (lit 1 1, lit 25 2)
      else if metric == "FCP"
      then some (lit 1800 0, lit 3000 0)
      else if metric == "TTFB"
      then some (lit 800 0, lit 1800 0)
      else none

  unfoldable pub web_vital_rating : String → Number → String
  web_vital_rating metric value = elim (vital_thresholds metric) [
    | none ↦ ""
    | some (g, p) ↦
        if le value g then "good" else if le value p then "needs-improvement" else "poor"
  ]

  rating_lem :
      (m : VitalName) (v : Number) → web_vital_rating (vital_text m) v ≡ rating_text (rate F m v)
  unfolding web_vital_rating vital_thresholds rate
  rating_lem lcp v = ground arith
  rating_lem fcp v = ground arith
  rating_lem cls v = ground arith
  rating_lem ttfb v = ground arith
  rating_lem inp v = ground arith

  -- The three places that rate a vital agree: under the name that the tracker sends, the collector
  -- gives a value the rating that the tracker gives it, and a card with samples shows the rating that
  -- the tracker gives the 75th percentile; a card without them, or without a row, shows the middle
  -- one.
  pub ratings_agree :
      (m : VitalName) (v : Number) (row : VitalRow Number)
      → (web_vital_rating (vital_text m) v ≡ rating_text (rate F m v))
        × ((vital_card F m none).kind ≡ warn)
        × (vital_card F m (some row)).kind
          ≡ (if row.samples =ℕ 0 then warn else kind_of_rating F (rate F m row.p75))
  ratings_agree m v row =
      let (without, with_row) = kind_is_rating F m row in (rating_lem m v, without, with_row)
