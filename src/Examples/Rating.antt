-- ===== src/Examples/Rating.antt =====
-- The collector of the web vitals at work.
use webalytics.Common.{◌≤◌, true, false, some, List, [], ◌∷◌, refl, if◌then◌else◌}
use webalytics.Examples.Decimals.{Decimal, decimals}
use webalytics.Vitals.Core.{
  lcp, Page, Signal, paint_entries, shift_entries, event_entries, visibility_change, pagehide,
  observe_web_vitals, receive, receive_all,
}
use webalytics.Vitals.Entries.{
  durations_of, shifts_of, paints_of, entries_in, largest, latest, shift_sum,
}
use webalytics.Vitals.Once.{times, reports_once}
use webalytics.Vitals.Values.{Closes, closing_reports}

abbrev pub chrome : Page Decimal
chrome = record {
  support = record {
    performance_observer = true;
    paint = true;
    largest_contentful_paint = true;
    layout_shift = true;
    event = true;
  };
  navigation = some (record { response_start = (120, 0); start_time = (0, 0) });
  nav_type = some "navigate";
  rid = λ n. "id";
}

-- A browser without layout shifts.
abbrev safari : Page Decimal
safari = record chrome { support = record chrome.support { layout_shift = false } }

abbrev reading : List (Signal Decimal)
reading =
    paint_entries (record { name = "first-contentful-paint"; start_time = (900, 0) } ∷ [])
    ∷ shift_entries (record { value = (5, 2); had_recent_input = false } ∷ [])
    ∷ event_entries ((40, 0) ∷ (90, 0) ∷ [])
    ∷ visibility_change false
    ∷ []

reports_once_example :
    times lcp (receive_all decimals chrome reading (observe_web_vitals decimals chrome)).reports ≤ 1
reports_once_example = reports_once decimals chrome lcp reading

closing_reports_example :
    Closes decimals chrome
      (if true
        then shift_sum decimals (decimals.lit 0 0) (entries_in shifts_of reading)
        else decimals.lit 0 0)
      (if true then latest (decimals.lit 0 0) (entries_in paints_of reading) else decimals.lit 0 0)
      (if true
        then largest decimals (decimals.lit 0 0) (entries_in durations_of reading)
        else decimals.lit 0 0)
      (receive decimals chrome pagehide
        (receive_all decimals chrome reading (observe_web_vitals decimals chrome))).reports
closing_reports_example = closing_reports decimals chrome reading refl (tt, (tt, (tt, (tt, tt))))
