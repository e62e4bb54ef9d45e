-- ===== src/Tracker/Loop.antt =====
-- packages/tracker/src/core.ts: everything that can call into a tracker, as the steps of an event
-- loop. A listener acts only where `init` installed it.
use webalytics.Common.{String, Bool, ◌&&◌, Option, List, [], ◌∷◌, if◌then◌else◌}
use webalytics.Tracker.Types.{Members, Vital}
use webalytics.Tracker.Browser.{Globals}
use webalytics.Tracker.State.{State}
use webalytics.Tracker.Core.{
  pageview, track, flush, set_enabled, on_timer, on_microtask, dispatch, on_vital, on_click,
  unload_flush,
}

pub data Action (V : Type 0) : Type 0 where
  call_pageview : Option String → Action V
  call_track : String → Option Members → Action V
  call_identify : Members → Action V
  call_flush : Action V
  call_set_enabled : Bool → Action V
  timeout : Action V
  microtask : Action V
  history_change : Action V
  vital_reported : Vital V → Action V
  click : Option (Option String) → Action V
  pagehide : Action V
  visibility_change : (hidden : Bool) → Action V

module _ {V : Type 0} where
  -- `identify` is a no-op in the cookieless mode.
  unfoldable pub step : Globals → Action V → State V → State V
  step g (call_pageview url) state = pageview url g state
  step g (call_track name props) state = track name props g state
  step g (call_identify traits) state = state
  step g call_flush state = flush state
  step g (call_set_enabled enabled) state = set_enabled enabled state
  step g timeout state = on_timer state
  step g microtask state = on_microtask g state
  step g history_change state =
      if state.has_window && state.config.auto_pageviews then dispatch g state else state
  step g (vital_reported v) state =
      if state.has_window && state.config.auto_web_vitals then on_vital v g state else state
  step g (click target) state =
      if state.has_window && state.config.auto_outbound then on_click target g state else state
  step g pagehide state = if state.has_window then unload_flush state else state
  step g (visibility_change hidden) state =
      if state.has_window && hidden then unload_flush state else state

  -- A history: each action with the globals that it meets.
  unfoldable pub run : List (Globals × Action V) → State V → State V
  run [] state = state
  run ((g, a) ∷ rest) state = run rest (step g a state)
