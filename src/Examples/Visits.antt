-- ===== src/Examples/Visits.antt =====
-- A page with its tracker and its collector at work.
use webalytics.Common.{true, false, none, List, [], ◌∷◌, map, ◌≡◌, refl}
use webalytics.Tracker.Types.{InitConfig}
use webalytics.Tracker.Browser.{Globals}
use webalytics.Tracker.Config.{dnt_active, resolve_config}
use webalytics.Tracker.Core.{init}
use webalytics.Tracker.Loop.{call_track, history_change, microtask, timeout}
use webalytics.Tracker.Delivery.{delivered}
use webalytics.Vitals.Core.{
  lcp, lcp_entries, shift_entries, event_entries, visibility_change, pagehide,
}
use webalytics.Vitals.Entries.{values_of, paints_of, entries_in}
use webalytics.Vitals.Values.{after_paints, if_positive}
use webalytics.Page.{PageAction, calls, delivers, to_vital, news, page_step}
use webalytics.Page.Recording.{vitals_in, IsReporting}
use webalytics.Page.Closing.{signals_of, visited, Says, closing_delivers, hidden_waits}
use webalytics.Examples.Data.{page_at, shop}
use webalytics.Examples.Decimals.{Decimal, decimals}
use webalytics.Examples.Rating.{chrome}

abbrev watched : InitConfig
watched = record shop { auto_web_vitals = none }

abbrev reading : List (Globals × PageAction Decimal)
reading =
    (page_at "/", calls microtask)
    ∷ (page_at "/", delivers (lcp_entries ((800, 0) ∷ (1200, 0) ∷ [])))
    ∷ (
      page_at "/",
      delivers (shift_entries (record { value = (5, 2); had_recent_input = false } ∷ [])),
    )
    ∷ (page_at "/", calls (call_track "buy" none))
    ∷ (page_at "/", calls timeout)
    ∷ (page_at "/cart", calls history_change)
    ∷ (page_at "/cart", delivers (event_entries ((40, 0) ∷ (90, 0) ∷ [])))
    ∷ []

watched-IsReporting : IsReporting (init {V = Decimal} watched (page_at "/"))
unfolding init resolve_config dnt_active
watched-IsReporting = record {
  on = refl;
  window = refl;
  web_vitals = refl;
  nothing_excluded = refl;
}

closing_delivers_example :
    let p =
      page_step decimals chrome
        (page_at "/cart")
        (delivers pagehide)
        (visited decimals chrome watched (page_at "/") reading) in
    (vitals_in (delivered p.tracker) ≡ map to_vital p.vitals.reports)
    × Says decimals chrome (signals_of decimals chrome reading) p.vitals.reports
closing_delivers_example =
    closing_delivers decimals chrome watched (page_at "/") (page_at "/cart") reading refl
      watched-IsReporting (tt, (tt, (tt, (tt, (tt, (tt, (tt, tt))))))) (tt, (tt, (tt, tt)))

hidden_waits_example :
    let p = visited decimals chrome watched (page_at "/") reading in
    let q = page_step decimals chrome (page_at "/cart") (delivers (visibility_change true)) p in
    let new = news decimals chrome (visibility_change true) p.vitals in
    (vitals_in (delivered q.tracker) ≡ map to_vital p.vitals.reports)
    × (vitals_in q.tracker.buf ≡ map to_vital new)
    × (values_of lcp p.vitals.reports ≡ [])
    × (values_of lcp new
        ≡ if_positive decimals chrome (
            after_paints decimals chrome
              (decimals.lit 0 0)
              (entries_in paints_of (signals_of decimals chrome reading))))
hidden_waits_example =
    hidden_waits decimals chrome watched (page_at "/") (page_at "/cart") reading refl
      watched-IsReporting (tt, (tt, (tt, (tt, (tt, (tt, (tt, tt))))))) (tt, (tt, (tt, tt)))
