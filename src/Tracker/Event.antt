-- ===== src/Tracker/Event.antt =====
-- packages/tracker/src/core.ts: the events that the handlers build.
use webalytics.Common.{String, not, Option, none, some, ◌==◌, truthy, if◌then◌else◌}
use webalytics.Tracker.Types.{Members, Vital, CollectPayload}
use webalytics.Tracker.Browser.{Size, Location, Document, Navigator, Window, Url, Globals}
use webalytics.Tracker.Config.{current_location}
use webalytics.Tracker.State.{State}

abbrev pub href_of : Option Location → String
href_of none = ""
href_of (some loc) = loc.href

abbrev referrer_of : Option Document → String
referrer_of none = ""
referrer_of (some doc) = doc.referrer

abbrev title_of : Option Document → String
title_of none = ""
title_of (some doc) = doc.title

abbrev language_of : Option Navigator → String
language_of none = ""
language_of (some n) = n.language

abbrev screen_or_zero : Option Size → Size
screen_or_zero none = record { w = 0; h = 0 }
screen_or_zero (some s) = s

abbrev pub screen_of : Option Window → Option Size
screen_of none = none
screen_of (some w) = some (screen_or_zero w.screen)

abbrev pub viewport_of : Option Window → Option Size
viewport_of none = none
viewport_of (some w) = some (record { w = w.inner_width; h = w.inner_height })

-- An optional text that is set only where it is truthy.
abbrev pub keep_truthy : Option String → Option String
keep_truthy none = none
keep_truthy (some s) = if truthy s then some s else none

abbrev call_route : Option (Globals → Option String) → Globals → Option String
call_route none g = none
call_route (some route) g = route g

-- `closest("a")` found an element (`some`), whose attribute `href` may be missing.
unfoldable pub outbound_url : Option (Option String) → Globals → Option Url
outbound_url none g = none
outbound_url (some none) g = none
outbound_url (some (some href)) g = if not (truthy href) then none else elim g.location [
  | none ↦ none
  | some loc ↦ elim (g.new_url href loc.href) [
    | none ↦ none
    | some u ↦ if not (u.host == loc.host) then some u else none
  ]
]

module _ {V : Type 0} where
  unfoldable pub base_event : State V → Globals → CollectPayload V
  base_event state g =
      let cfg = state.config in
      let env : String = if truthy cfg.environment then cfg.environment else "production" in
      record {
        site_id = cfg.site_id;
        event = "pageview";
        url = href_of (current_location cfg g);
        referrer = some (referrer_of g.document);
        title = some (title_of g.document);
        environment = some env;
        release = keep_truthy cfg.release;
        route = keep_truthy (call_route cfg.route g);
        screen = screen_of g.window;
        viewport = viewport_of g.window;
        language = some (language_of g.navigator);
        props = none;
        revenue = none;
        perf = none;
        vital = none;
        ts_client = some g.now;
      }

  abbrev with_url : Option String → CollectPayload V → CollectPayload V
  with_url none ev = ev
  with_url (some url) ev = if truthy url then record ev { url = url } else ev

  abbrev with_props : Option Members → CollectPayload V → CollectPayload V
  with_props none ev = ev
  with_props (some props) ev = record ev { props = some props }

  unfoldable pub pageview_event : Option String → State V → Globals → CollectPayload V
  unfolding base_event
  pageview_event url state g = with_url url (record (base_event state g) { event = "pageview" })

  unfoldable pub track_event : String → Option Members → State V → Globals → CollectPayload V
  unfolding base_event
  track_event name props state g = with_props props (record (base_event state g) { event = name })

  unfoldable pub vital_event : Vital V → State V → Globals → CollectPayload V
  unfolding base_event
  vital_event v state g = record (base_event state g) { event = "web_vital"; vital = some v }
