-- ===== src/Server/Accepted.antt =====
-- The events of a tracker (packages/tracker/src/core.ts) before the collector's validator
-- (internal/ingest/validator.go).
use webalytics.Common.{
  ℕ, zero, suc, ◌≤◌, ◌<◌, ◌^◌, String, true, false, not, ◌&&◌, Option, none, some, List, [], ◌∷◌,
  ◌==◌, ◌≡◌, refl, sym, ap, ◌∙◌, subst, arith, All, All-append, All-append_left, All-map,
  get_or_else, truthy, if_elim, if◌then◌else◌, ltb,
}
use webalytics.Numbers.{Floats}
use webalytics.Tracker.Types.{Members, Vital, CollectPayload, InitConfig}
use webalytics.Tracker.Browser.{Globals, Url}
use webalytics.Tracker.Config.{resolve_config, current_location, path_of}
use webalytics.Tracker.State.{State}
use webalytics.Tracker.Event.{
  href_of, screen_of, viewport_of, base_event, pageview_event, track_event, vital_event,
  outbound_url,
}
use webalytics.Tracker.Core.{init}
use webalytics.Tracker.Loop.{
  Action, call_pageview, call_track, call_identify, call_flush, call_set_enabled, timeout, click,
  vital_reported, history_change, microtask, pagehide, visibility_change, step, run,
}
use webalytics.Tracker.Delivery.{
  delivered, offered, accepts, outbound_events, queued_events, taken, recorded, history-run-init,
}
use webalytics.Tracker.Consent.{step-config}
use webalytics.Tracker.Payload.{environment_of}
use webalytics.Server.Payload.{
  Wire, Decoding, wire_of, vital_wire, Fits, reads_props, reads_members, reads_json, has_key,
  IsUint16,
}
use webalytics.Server.Validator.{
  validate, passes, site_id_re, event_re, env_re, len, valid_vital, props_count, vital_error,
  too_many,
}

-- A text that the collector takes for a URL.
abbrev pub IsUrl : String → Type 0
IsUrl u = (u == "" ≡ false) × (len u ≤ 2048)

-- The site and the environment of a configuration are such as the collector takes.
pub record IsRegular (c : InitConfig) : Type 0 where
  pub site : site_id_re c.site_id ≡ true
  pub environment : env_re (environment_of c.environment) ≡ true

-- The page has a URL that the collector takes, and its sizes and the time fit their fields.
pub record IsShown (c : InitConfig) (g : Globals) : Type 0 where
  pub url : IsUrl (href_of (current_location (resolve_config c) g))
  pub screen : IsUint16 (screen_of g.window)
  pub viewport : IsUint16 (viewport_of g.window)
  pub now : g.now < 2 ^ 63

module _ (F : Floats) (G : Decoding F) where
  open F use {Number, lit, lt}

  -- What callers hand to the tracker: no URL that is too long, a name of an event that is not the
  -- one of the vitals, at most fifty properties, which the
  -- decoder takes, and vitals with a known name that are not negative.
  abbrev pub IsProper : Action Number → Type 0
  IsProper (call_pageview (some url)) = len url ≤ 2048
  IsProper (call_track name props) =
      (event_re name ≡ true)
      × (name == "web_vital" ≡ false)
      × (too_many F props ≡ false)
      × (reads_props G.float64 props ≡ true)
  IsProper (vital_reported v) = (valid_vital v.name ≡ true) × (lt v.value (lit 0 0) ≡ false)
  IsProper _ = Unit

  abbrev IsAccepted : CollectPayload Number → Type 0
  IsAccepted e = (validate F (wire_of G.read_number e) ≡ none) × Fits G.float64 e

  validate_lem :
      (p : Wire Number)
      → site_id_re p.site_id ≡ true
      → event_re p.event ≡ true
      → IsUrl p.url
      → env_re p.environment ≡ true
      → vital_error F (p.event == "web_vital") p.vital ≡ none
      → too_many F p.props ≡ false
      → validate F p ≡ none
  unfolding validate
  validate_lem p s e (u, l) n v t =
      let short : ltb 2048 (len p.url) ≡ false = ground arith in
      rw (s, e, u, short, n, v, t) (ground arith)

  environment_lem :
      (o : Option String)
      → (if truthy (get_or_else o "production") then get_or_else o "production" else "production")
        ≡ environment_of o
  environment_lem none = refl
  environment_lem (some e) = refl

  module _ (c : InitConfig) (g : Globals) (s : State Number) (config : s.config ≡ resolve_config c)
      (regular : IsRegular c) (here : IsShown c g) where
    event_lem :
        (name url : String) (props : Option Members) (vital : Option (Vital Number))
        → event_re name ≡ true
        → IsUrl url
        → vital_error F (name == "web_vital") (vital_wire G.read_number vital) ≡ none
        → too_many F props ≡ false
        → reads_props G.float64 props ≡ true
        → IsAccepted
            (record (base_event s g) { event = name; url = url; props = props; vital = vital })
    unfolding base_event resolve_config
    event_lem name url props vital e u v t p = (
      validate_lem _ (ap (λ k. site_id_re k.site_id) config ∙ regular.site) e u
          (ap (λ k. env_re (if truthy k.environment then k.environment else "production")) config
            ∙ ap env_re (environment_lem c.environment)
            ∙ regular.environment)
          v t,
      (here.screen, here.viewport, here.now, p, refl),
    )

    here-IsUrl : IsUrl (href_of (current_location s.config g))
    here-IsUrl = subst (λ k. IsUrl (href_of (current_location k g))) (sym config) here.url

    pageview_lem :
        (url : Option String) → IsProper (call_pageview url) → IsAccepted (pageview_event url s g)
    unfolding pageview_event base_event event_re
    pageview_lem none p = event_lem "pageview" _ none none refl here-IsUrl refl refl refl
    pageview_lem (some url) p =
        if_elim IsAccepted (truthy url)
          (λ h. event_lem "pageview" url none none refl (ground arith, p) refl refl refl)
          (λ h. event_lem "pageview" _ none none refl here-IsUrl refl refl refl)

    track_lem :
        (name : String) (props : Option Members)
        → IsProper (call_track name props)
        → IsAccepted (track_event name props s g)
    unfolding track_event base_event
    track_lem name none (e, w, t, p) =
        event_lem name _ none none e here-IsUrl (ap (λ b. vital_error F b none) w) t p
    track_lem name (some props) (e, w, t, p) =
        event_lem name _ (some props) none e here-IsUrl (ap (λ b. vital_error F b none) w) t p

    vital_lem : (v : Vital Number) → IsProper (vital_reported v) → IsAccepted (vital_event v s g)
    unfolding vital_event base_event event_re
    vital_lem v (n, p) =
        event_lem "web_vital" _ none (some v) refl here-IsUrl
          (rw (n, G.not_negative v.value p) refl) refl refl

    outbound_lem : (o : Option Url) → All IsAccepted (outbound_events o g s)
    unfolding event_re props_count reads_members reads_json has_key
    outbound_lem none = tt
    outbound_lem (some u) = (track_lem "outbound_click" _ (refl, refl, refl, refl), tt)

    queued_lem : (n : ℕ) → All IsAccepted (queued_events n g s)
    queued_lem zero = tt
    queued_lem (suc n) = (pageview_lem none tt, tt)

    offered-IsAccepted : (a : Action Number) → IsProper a → All IsAccepted (offered g a s)
    offered-IsAccepted (call_pageview url) p = (pageview_lem url p, tt)
    offered-IsAccepted (call_track name props) p = (track_lem name props p, tt)
    offered-IsAccepted (call_identify traits) p = tt
    offered-IsAccepted call_flush p = tt
    offered-IsAccepted (call_set_enabled b) p = tt
    offered-IsAccepted timeout p = tt
    offered-IsAccepted microtask p = queued_lem s.microtasks
    offered-IsAccepted history_change p =
        if_elim (All IsAccepted)
          (s.has_window && s.config.auto_pageviews && not (path_of g.location == s.last_url))
          (λ h. (pageview_lem none tt, tt)) (λ h. tt)
    offered-IsAccepted (vital_reported v) p =
        if_elim (All IsAccepted) (s.has_window && s.config.auto_web_vitals)
          (λ h. (vital_lem v p, tt)) (λ h. tt)
    offered-IsAccepted (click target) p =
        if_elim (All IsAccepted) (s.has_window && s.config.auto_outbound)
          (λ h. outbound_lem (outbound_url target g)) (λ h. tt)
    offered-IsAccepted pagehide p = tt
    offered-IsAccepted (visibility_change hidden) p = tt

    taken-IsAccepted : (a : Action Number) → IsProper a → All IsAccepted (taken g a s)
    taken-IsAccepted a p =
        if_elim (All IsAccepted) (accepts g s) (λ h. offered-IsAccepted a p) (λ h. tt)

  -- What a page does, with the globals that each action meets.
  abbrev pub AreProper : InitConfig → List (Globals × Action Number) → Type 0
  AreProper c xs = All (λ x. IsShown c x.0 × IsProper x.1) xs

  recorded-IsAccepted :
      (c : InitConfig) (xs : List (Globals × Action Number)) (s : State Number)
      → s.config ≡ resolve_config c
      → IsRegular c
      → AreProper c xs
      → All IsAccepted (recorded xs s)
  unfolding recorded
  recorded-IsAccepted c [] s h r p = tt
  recorded-IsAccepted c ((g, a) ∷ rest) s h r ((here, p), ps) =
      All-append IsAccepted (taken g a s) (recorded rest (step g a s))
        (taken-IsAccepted c g s h r here a p)
        (recorded-IsAccepted c rest (step g a s) (step-config g a s ∙ h) r ps)

  -- Where the site and the environment are such as the collector takes, the page has a URL that it
  -- takes at each moment, and callers hand over proper names, properties and vitals, the collector's
  -- schema turns away none of the events that the tracker hands over. What the collector decodes
  -- an event to is a parameter; it is the event, where this fits.
  pub events_accepted :
      (received : CollectPayload Number → Option (Wire Number))
      → ((e : CollectPayload Number)
          → Fits G.float64 e
          → received e ≡ some (wire_of G.read_number e))
      → (c : InitConfig) (g : Globals) (xs : List (Globals × Action Number)) → IsRegular c
      → AreProper c xs
      → All (λ e. passes F (received e) ≡ true) (delivered (run xs (init c g)))
  unfolding passes init
  events_accepted received decodes c g xs r p =
      All-map (λ e a. ap (passes F) (decodes e a.1) ∙ rw (a.0, passes) refl)
        (delivered (run xs (init c g)))
        (All-append_left IsAccepted (delivered (run xs (init c g))) _ (
          subst (All IsAccepted) (sym (history-run-init c g xs))
            (recorded-IsAccepted c xs (init c g) refl r p)))
