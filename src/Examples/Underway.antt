-- ===== src/Examples/Underway.antt =====
-- Requests of a page that overtake one another, and one that fails.
use webalytics.Common.{ℕ, String, Option, none, some, List, [], ◌∷◌, ◌++◌, ◌≡◌, refl, true, Perm}
use webalytics.Tracker.Browser.{Globals}
use webalytics.Tracker.Config.{dnt_active, is_excluded, path_of, current_location, resolve_config}
use webalytics.Tracker.Event.{base_event, pageview_event, track_event}
use webalytics.Tracker.Core.{
  schedule_flush, send_batch, flush_buffer, emit, pageview, track, flush, set_enabled, on_timer,
  on_microtask, init,
}
use webalytics.Tracker.Types.{CollectPayload}
use webalytics.Tracker.Loop.{Action, microtask, call_track, timeout, pagehide, step, run}
use webalytics.Tracker.Delivery.{recorded}
use webalytics.Transport.Core.{
  Browser, refused, send, send_loop, post, post_fetch, after_beacon, track_fetch, created,
}
use webalytics.Transport.Sending.{accepted, refusals}
use webalytics.Session.{network, send_all, event_posts, HaveTexts}
use webalytics.Session.World.{
  World, acts, arrives, fails, here, next, act, opening, page, collect_url, Reach,
}
use webalytics.Session.Conserved.{each_event_once, can_settle}
use webalytics.Examples.Data.{page_at, shop}

abbrev no_beacons : Browser
no_beacons = record { has_beacon = true; has_fetch = true; send_beacon = λ k. refused }

abbrev json : CollectPayload ℕ → Option String
json e = some e.event

all_texts : (es : List (CollectPayload ℕ)) → HaveTexts no_beacons json es
all_texts [] = tt
all_texts (e ∷ es) = (refl, all_texts es)

abbrev cart : Globals
cart = page_at "/cart"

abbrev does : Action ℕ → World ℕ → World ℕ
does a = act no_beacons json shop (page_at "/") cart a

-- A pageview, an event and the end of the batch's wait: two requests are under way.
abbrev after_flush : World ℕ
after_flush = does timeout (does (call_track "buy" none) (does microtask opening))

abbrev posted : String → String × String
posted e = (collect_url shop, e)

two_under_way : after_flush.waiting ≡ posted "pageview" ∷ posted "buy" ∷ []
unfolding run step init emit schedule_flush flush_buffer send_batch on_timer on_microtask pageview
    pageview_event track track_event flush set_enabled base_event resolve_config current_location
    dnt_active path_of is_excluded network send_all send send_loop post post_fetch after_beacon
    track_fetch created accepted refusals
two_under_way = refl

-- The second request arrives first, and the first one fails.
abbrev overtaken : World ℕ
overtaken = record after_flush {
  waiting = [];
  arrived = posted "buy" ∷ [];
  lost = after_flush.lost ++ posted "pageview" ∷ [];
}

overtaken-Reach : Reach no_beacons json shop (page_at "/") opening overtaken
overtaken-Reach =
    next
      (next
        (next
          (next (next here (acts cart microtask opening))
            (acts cart (call_track "buy" none) (does microtask opening)))
          (acts cart timeout (does (call_track "buy" none) (does microtask opening))))
        (arrives (posted "pageview" ∷ []) [] (posted "buy") after_flush two_under_way))
      (fails [] [] (posted "pageview")
        (record after_flush { waiting = posted "pageview" ∷ []; arrived = posted "buy" ∷ [] }) refl)

each_event_once_example :
    Perm
      (overtaken.arrived
        ++ (overtaken.lost
            ++ (overtaken.waiting
                ++ event_posts no_beacons json
                    (collect_url shop)
                    (page shop (page_at "/") overtaken).buf)))
      (event_posts no_beacons json
        (collect_url shop)
        (recorded overtaken.trace (init shop (page_at "/"))))
each_event_once_example =
    each_event_once no_beacons json shop (page_at "/") refl refl overtaken overtaken-Reach
      (all_texts _)

-- One more event, which waits in the buffer.
abbrev late : World ℕ
late = does (call_track "late" none) overtaken

late-Reach : Reach no_beacons json shop (page_at "/") opening late
late-Reach = next overtaken-Reach (acts cart (call_track "late" none) overtaken)

can_settle_example :
    (u : World ℕ) × Reach no_beacons json shop (page_at "/") (does pagehide late) u
    × (u.trace ≡ late.trace ++ (cart, pagehide) ∷ [])
    × (u.waiting ≡ [])
    × (u.lost ≡ (does pagehide late).lost)
    × Perm (u.arrived ++ u.lost) (
        event_posts no_beacons json
          (collect_url shop)
          (recorded late.trace (init shop (page_at "/"))))
can_settle_example =
    can_settle no_beacons json shop (page_at "/") refl refl cart pagehide late late-Reach refl
      (all_texts _)
