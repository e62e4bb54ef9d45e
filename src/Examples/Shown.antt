-- ===== src/Examples/Shown.antt =====
-- Dashboards, pages and the script tag at work.
use webalytics.Common.{
  ℕ, length, String, true, Option, none, some, List, [], ◌∷◌, ◌++◌, map, ◌==◌, ◌≡◌, refl, All,
  if◌then◌else◌,
}
use webalytics.Tracker.Types.{CollectPayload}
use webalytics.Tracker.Core.{init}
use webalytics.Tracker.Loop.{Action, click, step}
use webalytics.Tracker.Delivery.{history}
use webalytics.Client.Types.{visitors, day, path, DimensionName}
use webalytics.Dashboard.TopList.{Row, Label, list_row, max_share, list_rows}
use webalytics.Dashboard.Bars.{IsBar, bars_show_shares}
use webalytics.Dashboard.Theme.{Theme, accent}
use webalytics.Dashboard.Chart.{Utc}
use webalytics.Dashboard.ChartView.{Series, angular_chart, chart_view, charts_agree}
use webalytics.App.Pages.{custom_events}
use webalytics.App.Tables.{is_click, is_followed, row_of, own_events_shown}
use webalytics.Adapter.Script.{Dataset, Scripts}
use webalytics.Adapter.RoundTrip.{attributes_of}
use webalytics.Adapter.Boot.{script_runs, dom_content_loaded, not_booted, boot_all, deferred_boot}
use webalytics.Examples.Data.{page_at, shop}
use webalytics.Examples.Decimals.{Decimal, decimals}

abbrev home : Row Decimal
home = record { key = "/"; value = (30, 0); share = (75, 2) }

abbrev cart : Row Decimal
cart = record { key = "/cart"; value = (10, 0); share = (25, 2) }

abbrev plain : String → DimensionName → Label
plain k d = record { flag = none; label = k }

bars_show_shares_example :
    let shown = list_row decimals plain path (max_share decimals home (cart ∷ [])) in
    All (IsBar decimals) (list_rows decimals plain path (home ∷ cart ∷ []))
    × (decimals.le (shown cart).bar (shown home).bar ≡ true)
bars_show_shares_example =
    bars_show_shares decimals plain path home (cart ∷ []) cart home
      ((refl, refl), ((refl, refl), tt)) refl

-- The upper case of the texts of the examples.
abbrev upper : String → String
upper s =
    if s == "Visitors"
    then "VISITORS"
    else if s == "Pageviews"
    then "PAGEVIEWS"
    else if s == "Sessions"
    then "SESSIONS"
    else s

abbrev no_units : String → List ℕ
no_units s = []

abbrev green : Theme
green = record {
  accent = some "#00ff00";
  background = some "";
  surface = none;
  foreground = none;
  border = none;
  radius = none;
  font_family = none;
}

abbrev new_year : String → Option Utc
new_year s = some (record { year = 2026; month = 0; date = 1; hours = 0; minutes = 0 })

abbrev two_days : Series
two_days = record {
  metric = visitors;
  interval = day;
  points = record { bucket = "a"; value = 3 } ∷ record { bucket = "b"; value = 5 } ∷ [];
}

charts_agree_example :
    angular_chart decimals upper new_year none two_days
    ≡ chart_view decimals upper new_year none visitors day two_days
charts_agree_example = charts_agree decimals upper new_year none two_days (λ h. cc) refl refl refl

-- A click on a link to another site.
abbrev out : Action ℕ
out = click (some (some "https://other.test"))

own_events_shown_example :
    let s = init shop (page_at "/") in
    (es : List (CollectPayload ℕ)) × (history (step (page_at "/") out s) ≡ history s ++ es)
    × (custom_events (map (row_of 1) es) ≡ (if is_click out then map (row_of 1) es else []))
    × ((if is_click out then length es else 0) ≡ (if is_followed (page_at "/") out s then 1 else 0))
own_events_shown_example = own_events_shown 1 (page_at "/") out (init shop (page_at "/")) tt

abbrev tag_of : String → Dataset
tag_of site = record {
  site_id = some site;
  host = some "https://in.test";
  auto_pageviews = none;
  auto_web_vitals = none;
  auto_outbound = none;
  respect_dnt = none;
  environment = none;
  release = none;
  debug = none;
}

-- Two tags for two sites, of which the second one's script runs.
abbrev two_tags : List (Option Dataset)
two_tags = some (tag_of "wb_1") ∷ some (tag_of "wb_2") ∷ []

deferred_boot_example :
    let seen : Option Scripts =
      some (record { current_script = some (some (tag_of "wb_2")); all = two_tags }) in
    let there : Option Scripts =
      some (record { current_script = none; all = none ∷ some (attributes_of shop) ∷ two_tags }) in
    (boot_all {V = ℕ}
      (((seen, page_at "/"), script_runs true) ∷ ((there, page_at "/"), dom_content_loaded) ∷ [])
      not_booted).tracker
    ≡ some (init shop (page_at "/"))
deferred_boot_example =
    deferred_boot (some (tag_of "wb_2")) two_tags (none ∷ []) two_tags shop (page_at "/")
      (page_at "/") [] tt
      (record {
        site_id = refl;
        host = refl;
        environment = refl;
        release = refl;
        exclude_paths = refl;
        route = refl;
        transport = refl;
        location = refl;
      })
      (tt, tt)
