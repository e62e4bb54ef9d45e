-- ===== src/App/Tables.antt =====
-- What the tables of apps/dashboard-next/app (page.tsx, vitals/page.tsx) show of the events and vitals
-- that the tracker of packages/tracker sends.
use webalytics.Common.{
  ℕ, zero, suc, length, arith, String, if_elim, truthy, Bool, true, false, not, ◌&&◌, Option, none,
  some, List, [], ◌∷◌, ◌++◌, map, ◌==◌, ◌≡◌, refl, if◌then◌else◌,
}
use webalytics.Numbers.{Floats, ℤ}
use webalytics.Tracker.Types.{Vital, CollectPayload}
use webalytics.Tracker.Browser.{Globals, Url}
use webalytics.Tracker.Config.{path_of}
use webalytics.Tracker.State.{State}
use webalytics.Tracker.Event.{pageview_event, track_event, vital_event, outbound_url}
use webalytics.Tracker.Loop.{
  Action, call_pageview, call_track, call_identify, call_flush, call_set_enabled, timeout,
  microtask, history_change, vital_reported, click, pagehide, visibility_change, step,
}
use webalytics.Tracker.Delivery.{
  accepts, taken, history, history-step, offered, outbound_events, queued_events,
}
use webalytics.Vitals.Core.{VitalName, lcp, inp, cls, fcp, ttfb}
use webalytics.Vitals.Once.{same}
use webalytics.App.Pages.{
  is_builtin, EventRow, custom_events, Distribution, VitalsLine, metrics, vitals_line, vitals_table,
}

abbrev is_some : Option Url → Bool
is_some none = false
is_some (some u) = true

nothing : {A : Type 0} (b : Bool) → ◌≡◌ {A = List A} [] (if b then [] else [])
nothing true = refl
nothing false = refl

module _ {V : Type 0} where
  -- An event that the site's own code did not track, and whether it is a click on a link.
  abbrev pub IsOwn : Action V → Type 0
  IsOwn (call_track name props) = ⊥
  IsOwn a = Unit

  abbrev pub is_click : Action V → Bool
  is_click (click target) = true
  is_click a = false

  -- The row of the breakdown by name that an event makes on its own.
  abbrev pub row_of : V → CollectPayload V → EventRow V
  row_of one e = record { key = e.event; value = one; share = one }

  abbrev Hidden : V → List (CollectPayload V) → Type 0
  Hidden one es = custom_events (map (row_of one) es) ≡ []

  abbrev IsShown : V → List (CollectPayload V) → Type 0
  IsShown one es = custom_events (map (row_of one) es) ≡ map (row_of one) es

  builtin_row : (one : V) (e : CollectPayload V) → is_builtin e.event ≡ true → Hidden one (e ∷ [])
  unfolding custom_events
  builtin_row one e h = rw h refl

  pageview-builtin :
      (url : Option String) (s : State V) (g : Globals)
      → is_builtin (pageview_event url s g).event ≡ true
  unfolding pageview_event is_builtin
  pageview-builtin none s g = refl
  pageview-builtin (some url) s g =
      if_elim {A = CollectPayload V} (λ e. is_builtin e.event ≡ true) (truthy url) (λ _. refl)
        (λ _. refl)

  queued-Hidden : (one : V) (n : ℕ) (g : Globals) (s : State V) → Hidden one (queued_events n g s)
  unfolding custom_events
  queued-Hidden one zero g s = refl
  queued-Hidden one (suc n) g s =
      builtin_row one (pageview_event none s g) (pageview-builtin none s g)

  vital-Hidden :
      (one : V) (v : Vital V) (s : State V) (g : Globals) → Hidden one (vital_event v s g ∷ [])
  unfolding custom_events is_builtin vital_event
  vital-Hidden one v s g = refl

  outbound-IsShown :
      (one : V) (o : Option Url) (g : Globals) (s : State V) → IsShown one (outbound_events o g s)
  unfolding custom_events is_builtin track_event
  outbound-IsShown one none g s = refl
  outbound-IsShown one (some u) g s = refl

  offered-Shown :
      (one : V) (g : Globals) (a : Action V) (s : State V)
      → IsOwn a
      → let rows = map (row_of one) (offered g a s) in
        custom_events rows ≡ (if is_click a then rows else [])
  unfolding custom_events
  offered-Shown one g (call_pageview url) s h =
      builtin_row one (pageview_event url s g) (pageview-builtin url s g)
  offered-Shown one g (call_track name props) s h = elim h [ ]
  offered-Shown one g microtask s h = queued-Hidden one s.microtasks g s
  offered-Shown one g history_change s h =
      if_elim (Hidden one)
        (s.has_window && s.config.auto_pageviews && not (path_of g.location == s.last_url))
        (λ _. builtin_row one (pageview_event none s g) (pageview-builtin none s g)) (λ _. refl)
  offered-Shown one g (vital_reported v) s h =
      if_elim (Hidden one) (s.has_window && s.config.auto_web_vitals) (λ _. vital-Hidden one v s g)
        (λ _. refl)
  offered-Shown one g (click target) s h =
      if_elim (IsShown one) (s.has_window && s.config.auto_outbound)
        (λ _. outbound-IsShown one (outbound_url target g) g s) (λ _. refl)
  offered-Shown one g (call_identify traits) s h = refl
  offered-Shown one g call_flush s h = refl
  offered-Shown one g (call_set_enabled b) s h = refl
  offered-Shown one g timeout s h = refl
  offered-Shown one g pagehide s h = refl
  offered-Shown one g (visibility_change hidden) s h = refl

  -- Whether an action is a click on an outbound link that the tracker takes.
  abbrev pub is_followed : Globals → Action V → State V → Bool
  is_followed g (click target) s =
      accepts g s && (s.has_window && s.config.auto_outbound && is_some (outbound_url target g))
  is_followed g a s = false

  outbound-length :
      (o : Option Url) (g : Globals) (s : State V) (b c : Bool)
      → length (if b then (if c then outbound_events o g s else []) else [])
        ≡ (if b && (c && is_some o) then 1 else 0)
  outbound-length none g s b c = ground arith
  outbound-length (some u) g s b c = ground arith

  clicks-length :
      (g : Globals) (a : Action V) (s : State V)
      → (if is_click a then length (taken g a s) else 0) ≡ (if is_followed g a s then 1 else 0)
  clicks-length g (click target) s =
      outbound-length (outbound_url target g) g s (accepts g s)
        (s.has_window && s.config.auto_outbound)
  clicks-length g (call_pageview url) s = refl
  clicks-length g (call_track name props) s = refl
  clicks-length g (call_identify traits) s = refl
  clicks-length g call_flush s = refl
  clicks-length g (call_set_enabled b) s = refl
  clicks-length g timeout s = refl
  clicks-length g microtask s = refl
  clicks-length g history_change s = refl
  clicks-length g (vital_reported v) s = refl
  clicks-length g pagehide s = refl
  clicks-length g (visibility_change hidden) s = refl

  -- Of what an action adds to the events that the tracker has handed over or buffered, where the
  -- site's own code did not track it, the page hides the pageviews and the vitals, and shows the
  -- clicks on outbound links among the custom events; and a click adds one event, where it is on an
  -- outbound link and the tracker takes it, and none otherwise.
  pub own_events_shown :
      (one : V) (g : Globals) (a : Action V) (s : State V)
      → IsOwn a
      → (es : List (CollectPayload V)) × (history (step g a s) ≡ history s ++ es)
        × (custom_events (map (row_of one) es) ≡ (if is_click a then map (row_of one) es else []))
        × ((if is_click a then length es else 0) ≡ (if is_followed g a s then 1 else 0))
  unfolding custom_events
  own_events_shown one g a s h = (
    taken g a s,
    history-step g a s,
    if_elim
        (λ es.
          custom_events (map (row_of one) es) ≡ (if is_click a then map (row_of one) es else []))
        (accepts g s) (λ _. offered-Shown one g a s h) (λ _. nothing (is_click a)),
    clicks-length g a s,
  )

module _ (F : Floats) (grouped : ℤ → String) (non_finite : F.Number → String) where
  open F use {Number}

  abbrev pub lines_of : VitalName → List VitalsLine → List VitalsLine
  lines_of n [] = []
  lines_of n (line ∷ lines) =
      if same n line.metric then line ∷ lines_of n lines else lines_of n lines

  lines_of-cons :
      (n m : VitalName) (o : Option (Distribution Number)) (lines : List VitalsLine)
      → let line = vitals_line F grouped non_finite m o in
        lines_of n (line ∷ lines) ≡ (if same n m then line ∷ lines_of n lines else lines_of n lines)
  unfolding vitals_line
  lines_of-cons n m none lines = refl
  lines_of-cons n m (some d) lines = refl

  -- The table of the vitals has exactly one row for each vital that the tracker reports, whether the
  -- answer has data for it or not.
  pub every_vital_shown :
      (group : VitalName → Option (Distribution Number)) (n : VitalName)
      → lines_of n (vitals_table F grouped non_finite group)
        ≡ vitals_line F grouped non_finite n (group n) ∷ []
  unfolding vitals_table metrics
  every_vital_shown group lcp = simp (lines_of-cons)
  every_vital_shown group fcp = simp (lines_of-cons)
  every_vital_shown group cls = simp (lines_of-cons)
  every_vital_shown group ttfb = simp (lines_of-cons)
  every_vital_shown group inp = simp (lines_of-cons)
