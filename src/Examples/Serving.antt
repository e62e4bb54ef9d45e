-- ===== src/Examples/Serving.antt =====
-- Events before the collector and queries before the API.
use mathlib.Core.Option
use webalytics.Common.{
  ℕ, true, false, none, some, List, [], ◌∷◌, map, ◌==◌, ◌≡◌, refl, ap, inl, ltb, ◌=ℕ◌,
  if◌then◌else◌,
}
use webalytics.Numbers.{pos}
use webalytics.Tracker.Types.{InitConfig, CollectPayload, empty, member, str}
use webalytics.Tracker.Browser.{Globals}
use webalytics.Tracker.Loop.{microtask, call_track, click}
use webalytics.Server.Payload.{Wire, Decoding, wire_of}
use webalytics.Server.Stats.{GoLibrary, route, parse_time_param}
use webalytics.Server.Answered.{expected, queries_answered}
use webalytics.Dashboard.Feed.{Inputs}
use webalytics.Server.Rating.{web_vital_rating, ratings_agree}
use webalytics.Client.Types.{w7d, TimeWindow, referrer_host, pageviews}
use webalytics.Client.Calls.{Query, breakdown, endpoint, to_qs}
use webalytics.Format.Core.{decimal}
use webalytics.Format.Decimal.{read_decimal, read-decimal, decimal-filled}
use webalytics.Vitals.Core.{lcp, rate, lcp_entries, shift_entries, pagehide}
use webalytics.Page.{PageAction, calls, delivers, vital_text, rating_text}
use webalytics.Dashboard.Cards.{warn, VitalRow, vital_card, kind_of_rating}
use webalytics.Examples.Data.{page_at, shop, hours}
use webalytics.Examples.Decimals.{Decimal, decimals}

abbrev live_shop : InitConfig
live_shop = record shop { site_id = "wb_live_0123456789abcdef"; auto_web_vitals = none }

abbrev visit : List (Globals × PageAction Decimal)
visit =
    (page_at "/", calls microtask)
    ∷ (page_at "/", calls (call_track "buy" (some (member "item" (str "cup") empty))))
    ∷ (page_at "/", delivers (lcp_entries ((800, 0) ∷ (1200, 0) ∷ [])))
    ∷ (
      page_at "/",
      delivers (shift_entries (record { value = (5, 2); had_recent_input = false } ∷ [])),
    )
    ∷ (page_at "/", calls (click (some (some "https://other.test"))))
    ∷ (page_at "/", delivers pagehide)
    ∷ []

-- Numbers are read as they are written, and every text of a number has a `float64`.
abbrev exact : Decoding decimals
exact = record { read_number = λ v. v; float64 = λ t. true; not_negative = λ v h. h }

abbrev decoded : CollectPayload Decimal → Wire Decimal
decoded e = wire_of (λ v. v) e

-- Times are told apart by their last day.
abbrev go : GoLibrary
go = record {
  Time = ℕ;
  parse_time = λ layout raw. if raw == "2026-01-01T00:00:00.000Z" then some 1 else some 8;
  is_after = λ a b. ltb b a;
  atoi = λ s. Option.map pos (read_decimal 0 s);
  is_uuid = λ s. true;
}

abbrev span : TimeWindow
span = record { from = "2026-01-01T00:00:00.000Z"; to = "2026-01-08T00:00:00.000Z" }

abbrev referrers : Query hours
referrers = breakdown w7d referrer_host (some pageviews) (some 10) none none none

queries_answered_example :
    route go "s1" (endpoint hours referrers) (to_qs hours decimal span referrers)
    ≡ some (expected hours decimal go span 1 8 "s1" referrers)
unfolding parse_time_param
queries_answered_example =
    queries_answered hours decimal go span 1 8 "s1" refl refl refl refl
      (λ n. (decimal-filled n, inl (ap (Option.map pos) (read-decimal n).0))) referrers

abbrev for_shop : Inputs hours
for_shop = record { window = w7d; site_id = none; filters = none; refresh_ms = 15000 }

abbrev slow_lcp : VitalRow Decimal
slow_lcp = record { p75 = (4100, 0); samples = 12; good = 1; needs_improvement = 2; poor = 9 }

ratings_agree_example :
    (web_vital_rating decimals (vital_text lcp) (4100, 0)
      ≡ rating_text (rate decimals lcp (4100, 0)))
    × ((vital_card decimals lcp none).kind ≡ warn)
    × ((vital_card decimals lcp (some slow_lcp)).kind ≡ (
        if slow_lcp.samples =ℕ 0
        then warn
        else kind_of_rating decimals (rate decimals lcp slow_lcp.p75)))
ratings_agree_example = ratings_agree decimals lcp (4100, 0) slow_lcp
