-- ===== src/Dashboard/Tiles.antt =====
-- The tiles beside the charts, React and Angular: packages/dashboard-react/src/components/summary.tsx,
-- realtime.tsx and window-picker.tsx, and summary-cards.component.ts, realtime.component.ts and
-- window-picker.component.ts in packages/dashboard-angular/src/components.
use webalytics.Common.{
  ℕ, ◌≤◌, String, Bool, true, false, Option, none, some, List, [], ◌∷◌, ◌+++◌, map, ◌≡◌, refl, ap,
  ap₂, zero, suc, get_or_else, truthy, take, length, or_empty, All, if◌then◌else◌, arith,
}
use webalytics.Numbers.{Floats}
use webalytics.Client.Types.{WindowSpec, When, w1h, w24h, w7d, w30d, w90d, range}
use webalytics.Client.Query.{Calendar}
use webalytics.Format.Core.{format_int, format_pct, format_duration}
use webalytics.Dashboard.TopList.{text_or}
use webalytics.Dashboard.Feed.{Dashboard, window_change, on_window_change}
use webalytics.Dashboard.Feed as Feed

pub record Metrics (N : Type 0) : Type 0 where
  pub visitors : N
  pub pageviews : N
  pub bounce_rate : N
  pub avg_session_s : N

pub record Visit : Type 0 where
  pub path : String
  pub country_code : Option String
  pub device : Option String

pub record Live (N : Type 0) : Type 0 where
  pub online : N
  pub top_pages : List (String × N)
  pub recent : List Visit

-- What the card of the live visitors shows: the count, and the rows of its two lists. A list
-- without rows is left out.
pub record LiveView : Type 0 where
  pub online : String
  pub pages : List (String × String)
  pub recent : List (String × String)

missing : (o : Option String) → get_or_else o "" ≡ or_empty o
missing none = refl
missing (some s) = refl

shown-length : {A B : Type 0} (f : A → B) (n : ℕ) (xs : List A) → length (map f (take n xs)) ≤ n
shown-length f zero xs = omega arith
shown-length f (suc n) [] = omega arith
shown-length f (suc n) (x ∷ xs) = omega (arith, shown-length f n xs)

module _ (F : Floats) where
  open F use {Number}

  -- `SummaryCards`: the labels and values of the four tiles.
  unfoldable pub summary_tiles : Metrics Number → List (String × String)
  summary_tiles m =
      ("Visitors", format_int F m.visitors)
      ∷ ("Pageviews", format_int F m.pageviews)
      ∷ ("Bounce rate", format_pct F m.bounce_rate 1)
      ∷ ("Avg session", format_duration F m.avg_session_s)
      ∷ []

  unfoldable pub angular_tiles : Metrics Number → List (String × String)
  angular_tiles m =
      ("VISITORS", format_int F m.visitors)
      ∷ ("PAGEVIEWS", format_int F m.pageviews)
      ∷ ("BOUNCE RATE", format_pct F m.bounce_rate 1)
      ∷ ("AVG SESSION", format_duration F m.avg_session_s)
      ∷ []

  abbrev page_row : String × Number → String × String
  page_row p = (text_or p.0 "/", format_int F p.1)

  abbrev visit_row : Visit → String × String
  visit_row r =
      (text_or r.path "/", get_or_else r.country_code "" +++ (" " +++ get_or_else r.device ""))

  abbrev visit_view : Visit → String × String
  visit_view r = (
    if truthy r.path then r.path else "/",
    or_empty r.country_code +++ (" " +++ or_empty r.device),
  )

  visits_agree : (r : Visit) → visit_row r ≡ visit_view r
  visits_agree r =
      ap₂ (λ c d. (text_or r.path "/", c +++ (" " +++ d))) (missing r.country_code)
        (missing r.device)

  -- `Realtime`; the limit is 5 by default, and the feed is shown by default.
  unfoldable pub realtime : Option ℕ → Option Bool → Live Number → LiveView
  realtime limit show_recent data' = record {
    online = format_int F data'.online;
    pages = map page_row (take (get_or_else limit 5) data'.top_pages);
    recent = if get_or_else show_recent true then map visit_row (take 8 data'.recent) else [];
  }

  -- What an interpolation shows of a missing value is the empty text.
  unfoldable pub realtime_view : ℕ → Bool → Live Number → LiveView
  realtime_view limit show_recent data' = record {
    online = format_int F data'.online;
    pages =
        map (λ p. (if truthy p.0 then p.0 else "/", format_int F p.1)) (take limit data'.top_pages);
    recent = if show_recent then map visit_view (take 8 data'.recent) else [];
  }

  feed-length :
      (b : Bool) (rs : List Visit)
      → length (map visit_view rs) ≤ 8
      → length (if b then map visit_view rs else []) ≤ 8
  feed-length true rs h = h
  feed-length false rs h = omega arith

  -- The live visitors look the same in both dashboards, with at most as many pages as the limit and
  -- at most eight visits.
  pub live_views_agree :
      (limit : ℕ) (show_recent : Bool) (data' : Live Number)
      → (realtime (some limit) (some show_recent) data' ≡ realtime_view limit show_recent data')
        × (length (realtime_view limit show_recent data').pages ≤ limit)
        × (length (realtime_view limit show_recent data').recent ≤ 8)
  unfolding realtime realtime_view
  live_views_agree limit show_recent data' = (
    ap
        (λ f. record {
          online = format_int F data'.online;
          pages = map page_row (take limit data'.top_pages);
          recent = if show_recent then map f (take 8 data'.recent) else [];
        })
        (λ i r. visits_agree r i),
    shown-length page_row limit data'.top_pages,
    feed-length show_recent (take 8 data'.recent) (shown-length visit_view 8 data'.recent),
  )

module _ (C : Calendar) where
  open C use {Date}

  -- `p.value === active` for the value of a preset: a range is an object, and never a preset.
  unfoldable pub is_active : WindowSpec Date → WindowSpec Date → Bool
  is_active w1h w1h = true
  is_active w24h w24h = true
  is_active w7d w7d = true
  is_active w30d w30d = true
  is_active w90d w90d = true
  is_active v w = false

  unfoldable pub presets : List (String × WindowSpec Date)
  presets = ("1H", w1h) ∷ ("24H", w24h) ∷ ("7D", w7d) ∷ ("30D", w30d) ∷ ("90D", w90d) ∷ []

  abbrev pub filter {ℓ} : {A : Type ℓ} → (A → Bool) → List A → List A
  filter p [] = []
  filter p (x ∷ xs) = if p x then x ∷ filter p xs else filter p xs

  -- The buttons that the picker marks.
  unfoldable pub marked : WindowSpec Date → List (String × WindowSpec Date)
  unfolding presets is_active
  marked active = filter (λ p. is_active p.1 active) presets

  active_after :
      (w : WindowSpec Date) (s : Dashboard C) → (on_window_change C w s).active_window ≡ w
  unfolding on_window_change Feed.start
  active_after w s = ground arith

  -- A dashboard whose window was picked marks just the button of that pick, and one whose window is
  -- a range marks none.
  pub picker_follows :
      (s : Dashboard C) (a b : When Date)
      → All (λ p. marked (Feed.receive C (window_change p.1) s).active_window ≡ p ∷ []) presets
        × (marked (Feed.receive C (window_change (range a b)) s).active_window ≡ [])
  unfolding marked Feed.receive
  picker_follows s a b = (
    (
      ap marked (active_after w1h s),
      (
        ap marked (active_after w24h s),
        (
          ap marked (active_after w7d s),
          (ap marked (active_after w30d s), (ap marked (active_after w90d s), tt)),
        ),
      ),
    ),
    ap marked (active_after (range a b) s),
  )
