-- ===== src/Examples/Adapting.antt =====
-- The adapters over the tracker, and the dashboard's stream of views.
use mathlib.Core.Option
use webalytics.Common.{
  ℕ, ◌+◌, String, true, false, Option, none, some, List, [], ◌∷◌, ◌++◌, ◌≡◌, refl, length,
}
use webalytics.Tracker.Browser.{Globals}
use webalytics.Tracker.Core as Core
use webalytics.Tracker.Loop.{history_change, step, run}
use webalytics.Adapter.Angular as Angular
use webalytics.Adapter.Angular.{AngularConfig, Service, init_once, router_counts_alone}
use webalytics.Adapter.Next.{WebalyticsProps, Inner, renders, key_changes, renders_count}
use webalytics.Adapter.Pages.{
  WebalyticsPagesProps, PagesState, mount, unmount, mounted, route_change, pages_site, pages_host,
  remount_deaf,
}
use webalytics.Adapter.Script.{Dataset, auto_init}
use webalytics.Adapter.RoundTrip.{attributes_of, script_roundtrip}
use webalytics.Client.Types.{w24h, w7d}
use webalytics.Dashboard.Feed.{
  Inputs, Dashboard, Signal, window_change, tick, answer, destroy, ng_on_init, receive_all,
}
use webalytics.Dashboard.Latest.{polls_when_destroyed, ticks}
use webalytics.Examples.Data.{page_at, shop, hours}

abbrev wired : AngularConfig
wired = record { core = shop; track_router_navigation = none; manual_init = some true }

abbrev waiting : Service ℕ
waiting = record { config = wired; router = true; tracker = none; subscribed = false }

abbrev as_given : AngularConfig → AngularConfig
as_given c = c

abbrev unrouted : AngularConfig → AngularConfig
unrouted c = record c { track_router_navigation = some false }

router_counts_alone_example :
    ((Angular.init as_given (page_at "/a") waiting).subscribed ≡ true)
    × (Option.map (λ t. t.microtasks) (Angular.init as_given (page_at "/a") waiting).tracker
        ≡ some 0)
    × (Option.map
          (λ t. step (page_at "/b") history_change (run [] t))
          (Angular.init as_given (page_at "/a") waiting).tracker
        ≡ Option.map (run []) (Angular.init as_given (page_at "/a") waiting).tracker)
router_counts_alone_example =
    router_counts_alone as_given (page_at "/a") (page_at "/b") waiting [] refl refl

abbrev props : WebalyticsProps
props = record {
  site_id = some "wb_1";
  host = some "https://in.test";
  auto_pageviews = none;
  core = shop;
}

abbrev mounted_inner : Inner ℕ
mounted_inner = record { tracker = some (Core.init shop (page_at "/")); fired = "" }

abbrev three_renders : List (String × Globals)
three_renders = ("/", page_at "/") ∷ ("/", page_at "/") ∷ ("/cart", page_at "/cart") ∷ []

renders_count_example :
    (renders props three_renders mounted_inner).tracker
    ≡ some (run (key_changes "" three_renders) (Core.init shop (page_at "/")))
renders_count_example =
    renders_count props three_renders mounted_inner (Core.init shop (page_at "/")) refl refl

abbrev not_mounted : Inner ℕ
not_mounted = record { tracker = none; fired = "" }

abbrev pages_props : WebalyticsPagesProps
pages_props = record {
  site_id = some "wb_1";
  host = some "https://in.test";
  auto_pageviews = none;
  core = shop;
}

remount_deaf_example :
    let first =
      mount pages_props none (page_at "/") (record { tracker = none; listening = false }) in
    let again : PagesState ℕ = mounted pages_props none (page_at "/") (unmount first.1 first.0) in
    (first.1 ≡ true) × (route_change (page_at "/cart") again ≡ again)
unfolding pages_site pages_host
remount_deaf_example =
    remount_deaf pages_props none (page_at "/") (page_at "/") (page_at "/cart") refl refl

abbrev untagged : List (Option Dataset)
untagged = none ∷ []

script_roundtrip_example :
    (auto_init true
        (some (record { current_script = some (some (attributes_of shop)); all = untagged }))
        (page_at "/")
      ≡ some (Core.init {V = ℕ} shop (page_at "/")))
    × (auto_init true
          (some
            (record { current_script = none; all = untagged ++ some (attributes_of shop) ∷ [] }))
          (page_at "/")
        ≡ some (Core.init {V = ℕ} shop (page_at "/")))
script_roundtrip_example =
    script_roundtrip shop (page_at "/") untagged []
      (record {
        site_id = refl;
        host = refl;
        environment = refl;
        release = refl;
        exclude_paths = refl;
        route = refl;
        transport = refl;
        location = refl;
      })
      (tt, tt)

abbrev week : Inputs hours
week = record { window = w7d; site_id = none; filters = none; refresh_ms = 15000 }

-- The window changes before the first fetch is answered.
abbrev hurried : List (Signal hours)
hurried = tick ∷ window_change w24h ∷ answer 0 ∷ []

abbrev hurried_state : Dashboard hours
hurried_state = receive_all hours hurried (ng_on_init hours week)

polls_when_destroyed_example :
    length (receive_all hours (destroy ∷ ticks hours 3) (ng_on_init hours week)).started
    ≡ 3 + length (ng_on_init hours week).started
unfolding ng_on_init
polls_when_destroyed_example = polls_when_destroyed hours 3 (ng_on_init hours week) refl refl
