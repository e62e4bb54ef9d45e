-- ===== src/Tracker/Core.antt =====
-- packages/tracker/src/core.ts: the handlers of a tracker, and `init`. A handler takes the
-- browser's globals at the moment it runs and returns the new state. `console.debug` is left out.
use webalytics.Common.{
  zero, suc, String, Bool, true, false, not, ◌&&◌, Option, none, some, List, [], ◌∷◌, ◌++◌, ◌==◌,
  if◌then◌else◌,
}
use webalytics.Tracker.Types.{str, Members, empty, member, Vital, CollectPayload, InitConfig}
use webalytics.Tracker.Browser.{Window, Globals}
use webalytics.Tracker.Config.{path_of, is_excluded, dnt_active, current_location, resolve_config}
use webalytics.Tracker.State.{custom, default, State}
use webalytics.Tracker.Event.{outbound_url, pageview_event, track_event, vital_event}

abbrev pub has : Option Window → Bool
has none = false
has (some w) = true

module _ {V : Type 0} where
  unfoldable pub schedule_flush : State V → State V
  schedule_flush state = elim state.flush_timer [
    | some _ ↦ state
    | none ↦ record state {
      flush_timer = some state.next_timer;
      timers = state.timers ++ state.next_timer ∷ [];
      next_timer = suc state.next_timer;
    }
  ]

  -- Sends a batch, if there is one.
  unfoldable pub send_batch : State V → List (CollectPayload V) → Bool → State V
  send_batch state [] unload = state
  send_batch state (e ∷ es) unload = record state {
    buf = [];
    sent = state.sent ++ record { host = state.config.host; events = e ∷ es; unload = unload } ∷ [];
  }

  unfoldable pub flush_buffer : State V → Bool → State V
  unfolding send_batch
  flush_buffer state unload = send_batch state state.buf unload

  -- Whether `emit` takes an event now.
  unfoldable pub emit : Globals → CollectPayload V → State V → State V
  unfolding schedule_flush
  emit g payload state =
      if not state.enabled
      then state
      else if is_excluded (path_of (current_location state.config g)) state.config.exclude_paths
      then state
      else schedule_flush (record state { buf = state.buf ++ payload ∷ [] })

  unfoldable pub pageview : Option String → Globals → State V → State V
  pageview url g state = emit g (pageview_event url state g) state

  unfoldable pub track : String → Option Members → Globals → State V → State V
  track name props g state = emit g (track_event name props state g) state

  -- The promise that `flush()` returns is the transport's.
  unfoldable pub flush : State V → State V
  flush state = flush_buffer state false

  unfoldable pub set_enabled : Bool → State V → State V
  set_enabled enabled state = record state { enabled = enabled }

  -- The callback of the timeout at the head of the event loop's list.
  unfoldable pub on_timer : State V → State V
  on_timer state = elim state.timers [
    | [] ↦ state
    | _ ∷ timers ↦ flush_buffer (record state { timers = timers; flush_timer = none }) false
  ]

  unfoldable pub on_microtask : Globals → State V → State V
  on_microtask g state = elim state.microtasks [
    | zero ↦ state
    | suc n ↦ pageview none g (record state { microtasks = n })
  ]

  -- `dispatch`, which runs after `pushState`, after `replaceState` and on `popstate`.
  unfoldable pub dispatch : Globals → State V → State V
  dispatch g state =
      let now = path_of g.location in
      if not (now == state.last_url)
      then pageview none g (record state { last_url = now })
      else state

  unfoldable pub on_vital : Vital V → Globals → State V → State V
  on_vital v g state = emit g (vital_event v state g) state

  unfoldable pub on_click : Option (Option String) → Globals → State V → State V
  on_click target g state = elim (outbound_url target g) [
    | none ↦ state
    | some u ↦ track "outbound_click" (some (member "href" (str u.href) empty)) g state
  ]

  unfoldable pub unload_flush : State V → State V
  unload_flush state = flush_buffer state true

  -- `init`: the state it builds and the initial pageview it queues.
  unfoldable pub init : InitConfig → Globals → State V
  unfolding dnt_active
  init config g =
      let cfg = resolve_config config in
      record {
        config = cfg;
        transport = if cfg.transport then custom else default cfg.debug;
        buf = [];
        flush_timer = none;
        enabled = not (dnt_active config g);
        last_url = path_of (current_location cfg g);
        has_window = has g.window;
        sent = [];
        timers = [];
        next_timer = 0;
        microtasks = if has g.window && cfg.auto_pageviews then 1 else 0;
      }
