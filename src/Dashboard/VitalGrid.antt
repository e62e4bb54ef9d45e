-- ===== src/Dashboard/VitalGrid.antt =====
-- The cards of the web vitals side by side, with the bar of their shares:
-- packages/dashboard-react/src/components/web-vitals.tsx, `badge` and `grid` of styles.ts, and
-- packages/dashboard-angular/src/components/web-vitals-cards.component.ts. The answer has a list of groups, each
-- of which may have a row for a vital. A share is the exact fraction that the source computes in
-- floating point numbers.
use webalytics.Common.{
  ℕ, ◌+◌, ◌*◌, ◌/◌, ◌≤◌, String, Option, none, some, List, [], ◌∷◌, map, ◌+++◌, ◌≡◌, refl, ap,
  arith, if◌then◌else◌, ltb, get_or_else, length, if_elim, All, subst, sym,
}
use webalytics.Numbers.{Floats}
use webalytics.Format.Core.{decimal}
use webalytics.Vitals.Core.{VitalName, lcp, cls, inp}
use webalytics.Dashboard.Cards.{Kind, good, warn, bad, VitalRow, VitalCard, vital_card}
use webalytics.Dashboard.Chart.{Fraction}
use webalytics.Dashboard.AngularCharts.{view_for, views_agree}

-- The widths of the three parts, as shares of the bar.
pub record Bar : Type 0 where
  pub good_part : Fraction
  pub warn_part : Fraction
  pub bad_part : Fraction

pub record GridCard : Type 0 where
  pub metric : VitalName
  pub card : VitalCard
  pub bar : Option Bar

-- `badge`: the background of a badge.
unfoldable pub badge : Kind → String
badge good = "var(--wbx-good)"
badge warn = "var(--wbx-warn)"
badge bad = "var(--wbx-bad)"

-- `grid`; `Math.round` of a fraction that is not negative.
unfoldable pub grid : Option ℕ → String
grid cols =
    let n = get_or_else cols 4 in
    "repeat(auto-fit, minmax(" +++ (decimal ((2 * 900 + n) / (2 * n)) +++ "px, 1fr))")

abbrev core_vitals : List VitalName
core_vitals = lcp ∷ inp ∷ cls ∷ []

module _ (F : Floats) where
  open F use {Number}

  -- A group: its row for each vital.
  abbrev pub Group : Type 0
  Group = VitalName → Option (VitalRow Number)

  -- `groups[0]?.metrics[k]`
  abbrev row_of : List Group → Group
  row_of [] k = none
  row_of (g ∷ gs) k = g k

  abbrev pub part : ℕ → ℕ → Fraction
  part n total = record { num = n; den = total }

  -- The bar, where the counts are not all zero.
  unfoldable pub shares : Option (VitalRow Number) → Option Bar
  shares none = none
  shares (some row) =
      let total = row.good + row.needs_improvement + row.poor in
      if ltb 0 total
      then some (record {
        good_part = part row.good total;
        warn_part = part row.needs_improvement total;
        bad_part = part row.poor total;
      })
      else none

  unfoldable pub grid_card : List Group → VitalName → GridCard
  unfolding shares
  grid_card groups m = record {
    metric = m;
    card = vital_card F m (row_of groups m);
    bar = shares (row_of groups m);
  }

  -- `WebVitalsCards`: the columns, and a card for each metric that is asked for.
  unfoldable pub web_vitals_cards : Option (List VitalName) → List Group → String × List GridCard
  unfolding grid_card grid
  web_vitals_cards metrics groups =
      let ms = get_or_else metrics core_vitals in
      (grid (some (length ms)), map (grid_card groups) ms)

  -- `goodPct`, `warnPct`, `badPct` and `hasSamples` of a view: its total, and the parts of it.
  abbrev part_of : (VitalRow Number → ℕ) → Option (VitalRow Number) → ℕ → Fraction
  part_of count none total = part 0 1
  part_of count (some row) total = part (count row) total

  unfoldable pub angular_card : List Group → VitalName → GridCard
  angular_card groups k =
      let row = row_of groups k in
      let view = view_for F k row in
      record {
        metric = k;
        card = view;
        bar =
            if ltb 0 view.total
            then some (record {
              good_part = part_of (λ r. r.good) row view.total;
              warn_part = part_of (λ r. r.needs_improvement) row view.total;
              bad_part = part_of (λ r. r.poor) row view.total;
            })
            else none;
      }

  -- `views`; the component's input `metrics` has the three core vitals by default.
  unfoldable pub views : Option (List VitalName) → List Group → List GridCard
  unfolding angular_card
  views metrics groups = map (angular_card groups) (get_or_else metrics core_vitals)

  bars_agree :
      (k : VitalName) (row : Option (VitalRow Number))
      → (if ltb 0 (view_for F k row).total
          then some (record {
            good_part = part_of (λ r. r.good) row (view_for F k row).total;
            warn_part = part_of (λ r. r.needs_improvement) row (view_for F k row).total;
            bad_part = part_of (λ r. r.poor) row (view_for F k row).total;
          })
          else none)
        ≡ shares row
  unfolding shares view_for
  bars_agree k none = refl
  bars_agree k (some row) = refl

  cards_agree : (groups : List Group) (k : VitalName) → angular_card groups k ≡ grid_card groups k
  unfolding angular_card grid_card
  cards_agree groups k = λ i. record {
    metric = k;
    card = views_agree F k (row_of groups k) i;
    bar = bars_agree k (row_of groups k) i;
  }

  -- The parts of a bar make up the whole of it, which is not empty.
  abbrev pub IsWhole : Option Bar → Type 0
  IsWhole none = Unit
  IsWhole (some b) =
      (1 ≤ b.good_part.den)
      × (b.good_part.num + b.warn_part.num + b.bad_part.num ≡ b.good_part.den)
      × (b.warn_part.den ≡ b.good_part.den)
      × (b.bad_part.den ≡ b.good_part.den)

  shares-IsWhole : (row : Option (VitalRow Number)) → IsWhole (shares row)
  unfolding shares
  shares-IsWhole none = tt
  shares-IsWhole (some row) =
      if_elim IsWhole (ltb 0 (row.good + row.needs_improvement + row.poor))
        (λ h. (ground arith, refl, refl, refl)) (λ h. tt)

  -- For every answer and every choice of vitals, the Angular component shows the cards that the React
  -- one shows, bars included, and the three parts of each bar make up the whole of it.
  pub grids_agree :
      (metrics : Option (List VitalName)) (groups : List Group)
      → (views metrics groups ≡ (web_vitals_cards metrics groups).1)
        × All (λ c. IsWhole c.bar) (views metrics groups)
  unfolding views web_vitals_cards angular_card
  grids_agree metrics groups =
      let ms = get_or_else metrics core_vitals in
      (ap (λ f. map f ms) (λ i k. cards_agree groups k i), whole ms)
    where
      whole : (ms : List VitalName) → All (λ c. IsWhole c.bar) (map (angular_card groups) ms)
      whole [] = tt
      whole (k ∷ ms) = (
        subst IsWhole (sym (bars_agree k (row_of groups k))) (shares-IsWhole (row_of groups k)),
        whole ms,
      )
