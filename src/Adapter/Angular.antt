-- ===== src/Adapter/Angular.antt =====
-- packages/tracker-angular/src/service.ts (`WebalyticsService`). `router` says whether the Angular
-- Router is there; a subscription to it lives until the service is destroyed. The overrides of
-- `init` are the function that lays them over the configuration.
use mathlib.Core.Option
use webalytics.Common.{
  String, Bool, true, false, ◌&&◌, Option, none, some, List, ◌≡◌, refl, ap, ◌∙◌, if◌then◌else◌,
  arith,
}
use webalytics.Tracker.Types.{InitConfig, Members}
use webalytics.Tracker.Browser.{Globals}
use webalytics.Tracker.Config.{not_false, is_true, resolve_config}
use webalytics.Tracker.State.{State}
use webalytics.Tracker.Core as Core
use webalytics.Tracker.Loop.{Action, history_change, step, run}
use webalytics.Tracker.Payload.{run-config}

pub record AngularConfig : Type 0 where
  pub core : InitConfig
  pub track_router_navigation : Option Bool
  pub manual_init : Option Bool

pub record Service (V : Type 0) : Type 0 where
  pub config : AngularConfig
  pub router : Bool
  pub tracker : Option (State V)
  pub subscribed : Bool

-- Whether the merged configuration leaves navigations to the Router.
abbrev pub tracks_router : AngularConfig → Bool → Bool
tracks_router merged router = not_false merged.track_router_navigation && router

abbrev pub core_config : AngularConfig → Bool → InitConfig
core_config merged by_router =
    if by_router then record merged.core { auto_pageviews = some false } else merged.core

module _ {V : Type 0} where
  unfoldable pub init : (AngularConfig → AngularConfig) → Globals → Service V → Service V
  init overrides g s = elim s.tracker [
    | some _ ↦ s
    | none ↦
        let merged = overrides s.config in
        let by_router = tracks_router merged s.router in
        record s {
          tracker = some (Core.init (core_config merged by_router) g);
          subscribed = by_router;
        }
  ]

  unfoldable pub construct : AngularConfig → Bool → Globals → Service V
  unfolding init
  construct config router g =
      let s : Service V = record {
        config = config;
        router = router;
        tracker = none;
        subscribed = false;
      } in
      if is_true config.manual_init then s else init (λ c. c) g s

  -- `this.tracker?.f()`
  abbrev pub on_tracker : (State V → State V) → Service V → Service V
  on_tracker f s = record s { tracker = Option.map f s.tracker }

  unfoldable pub track : String → Option Members → Globals → Service V → Service V
  track name props g s = on_tracker (Core.track name props g) s

  unfoldable pub pageview : Option String → Globals → Service V → Service V
  pageview url g s = on_tracker (Core.pageview url g) s

  unfoldable pub set_enabled : Bool → Service V → Service V
  set_enabled enabled s = on_tracker (Core.set_enabled enabled) s

  unfoldable pub flush : Service V → Service V
  flush s = on_tracker Core.flush s

  -- The subscriber: `NavigationEnd` fires a pageview.
  unfoldable pub navigation_end : Globals → Service V → Service V
  unfolding pageview
  navigation_end g s = if s.subscribed then pageview none g s else s

  -- A tracker without automatic pageviews has no initial one, and ignores the history.
  quiet :
      (c : InitConfig) (g : Globals) (t : State V)
      → c.auto_pageviews ≡ some false
      → t ≡ Core.init c g
      → t.microtasks ≡ 0
  unfolding Core.init resolve_config
  quiet c g t off h = ground arith

  pub ignores_history :
      (c : InitConfig) (g h : Globals) (as' : List (Globals × Action V))
      → c.auto_pageviews ≡ some false
      → step h history_change (run as' (Core.init c g)) ≡ run as' (Core.init c g)
  unfolding Core.init step resolve_config
  ignores_history c g h as' off =
      let t : State V = Core.init c g in
      let quiet' : (run as' t).config.auto_pageviews ≡ false =
        ap (λ k. k.auto_pageviews) (run-config as' t) ∙ ap not_false off in
      ground arith

  init_fresh :
      (overrides : AngularConfig → AngularConfig) (g : Globals) (s : Service V)
      → s.tracker ≡ none
      → tracks_router (overrides s.config) s.router ≡ true
      → init overrides g s ≡ record s {
        tracker =
            some (Core.init (record (overrides s.config).core { auto_pageviews = some false }) g);
        subscribed = true;
      }
  unfolding init
  init_fresh overrides g s fresh by = rw (fresh, by)

  -- `init` is idempotent: after a first call, another one, with whatever overrides and whatever the
  -- browser shows by then, leaves the service as it is.
  pub init_once :
      (first second : AngularConfig → AngularConfig) (g h : Globals) (s : Service V)
      → init second h (init first g s) ≡ init first g s
  unfolding init
  init_once first second g h s = grind arith

  -- A service whose `init` leaves navigations to the Router has subscribed to it, has queued no
  -- initial pageview, and never again counts a navigation through the patched history: whatever the
  -- tracker went through, a history change leaves it as it is.
  pub router_counts_alone :
      (overrides : AngularConfig → AngularConfig) (g h : Globals) (s : Service V)
      (as' : List (Globals × Action V))
      → s.tracker ≡ none
      → tracks_router (overrides s.config) s.router ≡ true
      → ((init overrides g s).subscribed ≡ true)
        × (Option.map (λ t. t.microtasks) (init overrides g s).tracker ≡ some 0)
        × (Option.map (λ t. step h history_change (run as' t)) (init overrides g s).tracker
            ≡ Option.map (run as') (init overrides g s).tracker)
  router_counts_alone overrides g h s as' fresh by =
      let c = record (overrides s.config).core { auto_pageviews = some false } in
      let after = init_fresh overrides g s fresh by in
      (
        rw after,
        rw (after, quiet c g (Core.init c g) refl refl),
        rw (after, ignores_history c g h as' refl),
      )
