-- ===== src/Examples/Tracking.antt =====
-- The tracker and its transport at work.
use webalytics.Common.{
  ℕ, String, true, false, Option, none, some, List, [], ◌∷◌, ◌++◌, map, ◌≡◌, refl, All,
  strip_slashes, length, ◌+++◌, ◌==◌, if◌then◌else◌,
}
use webalytics.Tracker.Browser.{Globals}
use webalytics.Tracker.Config.{dnt_active, is_excluded, path_of, current_location, resolve_config}
use webalytics.Tracker.State.{State}
use webalytics.Tracker.Types.{CollectPayload}
use webalytics.Tracker.Core.{init}
use webalytics.Tracker.Loop.{
  Action, call_track, history_change, microtask, timeout, pagehide, visibility_change, step, run,
}
use webalytics.Tracker.Invariant.{IsBatch, IsValid, init-IsValid, run-IsValid}
use webalytics.Tracker.Delivery.{delivered, history, recorded}
use webalytics.Tracker.Consent.{dnt_silent, excluded_silent}
use webalytics.Tracker.Navigation.{changes, navigations, path_in, IsPageview, navigation_count}
use webalytics.Tracker.Payload.{IsStamped, sent_well_formed}
use webalytics.Transport.Core.{Browser, refused, created, send, flush, flushed}
use webalytics.Transport.Sending.{
  requests, Posts, accepted, send-Posts, refused_beacons_lose, send_throws,
}
use webalytics.Transport.Pending.{
  NetEvent, posts, settles, react_all, all_settled_in, in_flight, flush_waits,
}
use webalytics.Tracker.Liveness.{eventually_delivered}
use webalytics.Session.{network, event_posts, HaveTexts, page_posts}
use webalytics.Examples.Data.{page_at, private_page, shop, admin_hidden}

-- The initial pageview, an event, a navigation and the end of the batch's wait.
abbrev visit : List (Globals × Action ℕ)
visit =
    (page_at "/", microtask)
    ∷ (page_at "/", call_track "buy" none)
    ∷ (page_at "/cart", history_change)
    ∷ (page_at "/cart", timeout)
    ∷ []

abbrev opened : State ℕ
opened = init shop (page_at "/")

run-IsValid_example : IsValid (run visit opened)
run-IsValid_example = run-IsValid visit opened (init-IsValid shop (page_at "/"))

sent_well_formed_example :
    All (IsBatch (strip_slashes shop.host)) (run visit opened).sent
    × All (IsStamped shop) (delivered (run visit opened))
sent_well_formed_example = sent_well_formed shop (page_at "/") visit

dnt_silent_example : (run visit (init shop private_page)).sent ≡ []
unfolding dnt_active
dnt_silent_example =
    dnt_silent shop private_page visit refl (λ h. cc, (λ h. cc, (λ h. cc, (λ h. cc, tt))))

abbrev in_admin : List (Globals × Action ℕ)
in_admin =
    (page_at "/admin/users", call_track "edit" none) ∷ (page_at "/admin", history_change) ∷ []

excluded_silent_example : (run in_admin (init admin_hidden (page_at "/admin"))).sent ≡ []
unfolding is_excluded path_of current_location resolve_config
excluded_silent_example =
    excluded_silent admin_hidden (page_at "/admin") in_admin (refl, (refl, tt))

abbrev stops : List Globals
stops = page_at "/cart" ∷ page_at "/cart" ∷ page_at "/pay" ∷ []

navigation_count_example :
    (more : List (CollectPayload ℕ)) × (history (run (navigations stops) opened)
      ≡ history opened ++ more)
    × (length more ≡ changes opened.last_url (map path_in stops))
    × All IsPageview more
unfolding init resolve_config
navigation_count_example = navigation_count stops opened (refl, refl, refl, refl)

-- A browser whose queue for beacons is full.
abbrev full_queue : Browser
full_queue = record { has_beacon = true; has_fetch = true; send_beacon = λ k. refused }

-- Events that are their own JSON texts, but for one that has none.
abbrev json : String → Option String
json e = if e == "cycle" then none else some e

send-Posts_example :
    Posts full_queue json
      ("https://in.test" +++ "/collect")
      ("e1" ∷ "e2" ∷ [])
      created
      (send full_queue json "https://in.test" ("e1" ∷ "e2" ∷ []) false created)
send-Posts_example =
    send-Posts full_queue json "https://in.test" ("e1" ∷ "e2" ∷ []) false ("e1" ∷ "e2" ∷ []) created
      refl (refl, (refl, tt))

refused_beacons_lose_example :
    accepted (send full_queue json "https://in.test" ("e1" ∷ "e2" ∷ []) true created).0.calls
    ≡ accepted created.calls
refused_beacons_lose_example =
    refused_beacons_lose full_queue json "https://in.test" ("e1" ∷ "e2" ∷ []) ("e1" ∷ "e2" ∷ [])
      created refl (λ k. refl) (refl, (refl, tt))

send_throws_example :
    send full_queue json "https://in.test" ("e1" ∷ "cycle" ∷ "e2" ∷ []) false created
    ≡ ((send full_queue json "https://in.test" ("e1" ∷ []) false created).0, true)
send_throws_example =
    send_throws full_queue json "https://in.test" false ("e1" ∷ []) ("e1" ∷ []) "cycle" ("e2" ∷ [])
      created (refl, tt) refl

abbrev two_posts : List NetEvent
two_posts = posts "u" "e1" false ∷ posts "u" "e2" false ∷ []

flush_waits_example :
    flushed (flush (react_all full_queue two_posts created)) (
      react_all full_queue
        (settles 0 ∷ posts "u" "e3" false ∷ [])
        (react_all full_queue two_posts created))
    ≡ all_settled_in
        (in_flight full_queue two_posts created [])
        (settles 0 ∷ posts "u" "e3" false ∷ [])
flush_waits_example = flush_waits full_queue two_posts (settles 0 ∷ posts "u" "e3" false ∷ [])

-- The visit is flushed by the page's being hidden; then it is shown again and goes on.
abbrev goes_on : List (Globals × Action ℕ)
goes_on = (page_at "/cart", visibility_change false) ∷ (page_at "/pay", history_change) ∷ []

eventually_delivered_example :
    (more : List (CollectPayload ℕ)) × (delivered
        (run (visit ++ (page_at "/cart", visibility_change true) ∷ goes_on) opened)
      ≡ recorded visit opened ++ more)
eventually_delivered_example =
    eventually_delivered shop (page_at "/") (page_at "/cart") (visibility_change true) visit goes_on
      refl

abbrev event_text : CollectPayload ℕ → Option String
event_text e = some e.site_id

all_texts : (es : List (CollectPayload ℕ)) → HaveTexts full_queue event_text es
all_texts [] = tt
all_texts (e ∷ es) = (refl, all_texts es)

page_posts_example :
    (requests (network full_queue event_text (run visit opened)).calls
      ≡ event_posts full_queue event_text
          (strip_slashes shop.host +++ "/collect")
          (delivered (run visit opened)))
    × (requests
          (network full_queue event_text (step (page_at "/cart") pagehide (run visit opened))).calls
        ≡ event_posts full_queue event_text
            (strip_slashes shop.host +++ "/collect")
            (recorded visit opened))
page_posts_example =
    page_posts full_queue event_text shop (page_at "/") (page_at "/cart") pagehide visit refl refl
      refl (all_texts _)
