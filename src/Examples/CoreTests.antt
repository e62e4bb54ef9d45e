-- ===== src/Examples/CoreTests.antt =====
-- packages/tracker/tests/core.test.ts: the repository's tests of the tracker, on the model. After
-- each test's calls the timeout of 250 ms runs, unless the test is about `flush()`.
use webalytics.Common.{
  ℕ, String, true, false, Option, none, some, List, [], ◌∷◌, map, ◌≡◌, refl, starts_with,
  strip_slashes,
}
use webalytics.Tracker.Types.{
  InitConfig, CollectPayload, Members, empty, member, str, prefix, reg_exp,
}
use webalytics.Tracker.Browser.{Globals}
use webalytics.Tracker.Config.{dnt_active, is_excluded, path_of, current_location, resolve_config}
use webalytics.Tracker.State.{State}
use webalytics.Tracker.Event.{base_event, pageview_event, track_event}
use webalytics.Tracker.Core.{
  schedule_flush, send_batch, flush_buffer, emit, pageview, track, flush, set_enabled, on_timer,
  on_microtask, init,
}
use webalytics.Tracker.Loop.{
  Action, call_track, call_identify, call_flush, call_set_enabled, timeout, microtask, step, run,
}
use webalytics.Examples.Data.{page_at, private_page}

abbrev config : InitConfig
config = record {
  site_id = "s";
  host = "http://api.test";
  auto_pageviews = some false;
  auto_web_vitals = some false;
  auto_outbound = none;
  respect_dnt = none;
  exclude_paths = none;
  environment = none;
  release = none;
  route = none;
  debug = none;
  transport = true;
  location = none;
}

-- The calls of a test, all in one page.
abbrev all_at : Globals → List (Action ℕ) → List (Globals × Action ℕ)
all_at g as' = map (λ a. (g, a)) as'

abbrev home : Globals
home = page_at "/"

-- The tracker after a test: the state that `init` and the calls leave.
unfoldable tested : InitConfig → Globals → List (Globals × Action ℕ) → State ℕ
unfolding run step init emit schedule_flush flush_buffer send_batch on_timer on_microtask pageview
    pageview_event track track_event flush set_enabled base_event resolve_config current_location
    dnt_active path_of is_excluded
tested c g calls = run calls (init c g)

-- A field of the events of each call of the recording transport.
abbrev sent : (A : Type 0) → (CollectPayload ℕ → A) → State ℕ → List (List A)
sent A f s = map (λ x. map f x.events) s.sent

abbrev sent_names : State ℕ → List (List String)
sent_names s = sent String (λ e. e.event) s

abbrev plan : Option Members
plan = some (member "plan" (str "pro") empty)

abbrev cta : Option Members
cta = some (member "id" (str "cta") empty)

-- "init fires an auto pageview"
init_fires_pageview :
    sent
      (String × String)
      (λ e. (e.event, e.site_id))
      (tested
        (record config { site_id = "wb_live_abcdefghij012345"; auto_pageviews = none })
        home
        (all_at home (microtask ∷ timeout ∷ [])))
    ≡ (("pageview", "wb_live_abcdefghij012345") ∷ []) ∷ []
unfolding tested
init_fires_pageview = refl

-- "track() batches events within the flush window"
track_batches :
    ((tested config home
        (all_at home (call_track "signup" plan ∷ call_track "click" cta ∷ []))).sent
      ≡ [])
    × (sent
          (String × Option Members)
          (λ e. (e.event, e.props))
          (tested config home
            (all_at home (call_track "signup" plan ∷ call_track "click" cta ∷ timeout ∷ [])))
        ≡ (("signup", plan) ∷ ("click", cta) ∷ []) ∷ [])
unfolding tested
track_batches = (refl, refl)

-- "flush() drains the buffer synchronously on the transport"
flush_drains :
    sent_names (tested config home (all_at home (call_track "a" none ∷ call_flush ∷ [])))
    ≡ ("a" ∷ []) ∷ []
unfolding tested
flush_drains = refl

-- "respects DNT when respectDNT is on (default)" and "ignores DNT when respectDNT is false"
dnt_is_respected :
    ((tested
        (record config { auto_pageviews = none })
        private_page
        (all_at private_page (call_track "dropped" none ∷ microtask ∷ timeout ∷ []))).sent
      ≡ [])
    × (sent_names (
          tested
            (record config { respect_dnt = some false })
            private_page
            (all_at private_page (call_track "kept" none ∷ timeout ∷ [])))
        ≡ ("kept" ∷ []) ∷ [])
unfolding tested
dnt_is_respected = (refl, refl)

-- "excludePaths (string prefix + RegExp) suppresses events"
excluded_paths_suppress :
    sent_names (
      tested
        (record config {
          exclude_paths = some (prefix "/admin" ∷ reg_exp (λ s. starts_with s "/debug") ∷ []);
        })
        (page_at "/admin/foo")
        ((page_at "/admin/foo", call_track "from-admin" none)
          ∷ (page_at "/debug/page", call_track "from-debug" none)
          ∷ (page_at "/ok", call_track "from-ok" none)
          ∷ (page_at "/ok", timeout)
          ∷ []))
    ≡ ("from-ok" ∷ []) ∷ []
unfolding tested
excluded_paths_suppress = refl

-- "setEnabled(false) suppresses events; true re-enables"
disabled_suppresses :
    sent_names (
      tested config home (
        all_at home (
          call_set_enabled false
          ∷ call_track "dropped" none
          ∷ call_set_enabled true
          ∷ call_track "kept" none
          ∷ timeout
          ∷ [])))
    ≡ ("kept" ∷ []) ∷ []
unfolding tested
disabled_suppresses = refl

-- "strips trailing slashes from host"
host_stripped :
    map
      (λ x. x.host)
      (tested
        (record config { host = "http://api.test///" })
        home
        (all_at home (call_track "x" none ∷ timeout ∷ []))).sent
    ≡ "http://api.test" ∷ []
unfolding tested strip_slashes
host_stripped = refl

-- "includes environment and release fields when configured"
fields_included :
    sent
      (Option String × Option String)
      (λ e. (e.environment, e.release))
      (tested
        (record config { environment = some "staging"; release = some "abc123" })
        home
        (all_at home (call_track "x" none ∷ timeout ∷ [])))
    ≡ ((some "staging", some "abc123") ∷ []) ∷ []
unfolding tested
fields_included = refl

-- "route hook result lands on the payload"
route_lands :
    sent
      (Option String)
      (λ e. e.route)
      (tested
        (record config { route = some (λ g. some "/posts/[slug]") })
        home
        (all_at home (call_track "view" none ∷ timeout ∷ [])))
    ≡ (some "/posts/[slug]" ∷ []) ∷ []
unfolding tested
route_lands = refl

-- "identify is a safe no-op in cookieless mode"
identify_changes_nothing :
    tested config home (all_at home (call_identify (member "email" (str "a@b.com") empty) ∷ []))
    ≡ tested config home []
unfolding tested
identify_changes_nothing = refl
