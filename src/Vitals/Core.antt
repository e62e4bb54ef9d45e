-- ===== src/Vitals/Core.antt =====
-- packages/tracker/src/vitals.ts: the observers and listeners of `observeWebVitals`, as a state
-- machine. The state has a flag for each observer (whether it delivers entries), the variables that
-- the closures share, and the calls of the callback, in `reports`.
use webalytics.Common.{
  ℕ, String, Bool, true, false, not, ◌&&◌, Option, none, some, List, [], ◌∷◌, ◌++◌, ◌==◌, length,
  if◌then◌else◌,
}
use webalytics.Numbers.{Floats}

pub data VitalName : Type 0 where
  lcp fcp cls ttfb inp : VitalName

pub data Rating : Type 0 where
  good needs_improvement poor : Rating

pub record VitalSample (V : Type 0) : Type 0 where
  pub name : VitalName
  pub value : V
  pub id : String
  pub nav_type : Option String
  pub rating : Rating

-- Whether the browser has `PerformanceObserver`, and which entry types it can observe.
pub record Support : Type 0 where
  pub performance_observer : Bool
  pub paint : Bool
  pub largest_contentful_paint : Bool
  pub layout_shift : Bool
  pub event : Bool

pub record NavigationTiming (V : Type 0) : Type 0 where
  pub response_start : V
  pub start_time : V

-- The navigation entry, its type, and the identifiers that `rid()` draws, by the report's number.
pub record Page (V : Type 0) : Type 0 where
  pub support : Support
  pub navigation : Option (NavigationTiming V)
  pub nav_type : Option String
  pub rid : ℕ → String

pub record PaintEntry (V : Type 0) : Type 0 where
  pub name : String
  pub start_time : V

pub record LayoutShift (V : Type 0) : Type 0 where
  pub value : V
  pub had_recent_input : Bool

pub record Vitals (V : Type 0) : Type 0 where
  pub listening : Bool
  pub paint_po : Bool
  pub lcp_po : Bool
  pub cls_po : Bool
  pub inp_po : Bool
  pub lcp_value : V
  pub lcp_reported : Bool
  pub cls_value : V
  pub cls_reported : Bool
  pub inp_value : V
  pub inp_reported : Bool
  pub reports : List (VitalSample V)

-- What the browser delivers: entries to an observer, or an event to a listener.
pub data Signal (V : Type 0) : Type 0 where
  paint_entries : List (PaintEntry V) → Signal V
  lcp_entries : List V → Signal V
  shift_entries : List (LayoutShift V) → Signal V
  event_entries : List V → Signal V
  visibility_change : (hidden : Bool) → Signal V
  pagehide : Signal V
  dispose : Signal V

-- `entries[entries.length - 1]`
unfoldable pub last : {A : Type 0} → List A → Option A
last [] = none
last (x ∷ []) = some x
last (x ∷ y ∷ xs) = last (y ∷ xs)

module _ (F : Floats) where
  open F use {Number, lit, le, lt, add, sub}

  abbrev grade : Number → Number → Number → Rating
  grade value g p = if le value g then good else if le value p then needs_improvement else poor

  unfoldable pub rate : VitalName → Number → Rating
  rate lcp value = grade value (lit 2500 0) (lit 4000 0)
  rate fcp value = grade value (lit 1800 0) (lit 3000 0)
  rate cls value = grade value (lit 1 1) (lit 25 2)
  rate ttfb value = grade value (lit 800 0) (lit 1800 0)
  rate inp value = grade value (lit 200 0) (lit 500 0)

  module _ (page : Page Number) where
    abbrev pub sample : VitalName → Number → Vitals Number → VitalSample Number
    sample name value s = record {
      name = name;
      value = value;
      id = page.rid (length s.reports);
      nav_type = page.nav_type;
      rating = rate name value;
    }

    unfoldable pub report : VitalName → Number → Vitals Number → Vitals Number
    report name value s = record s { reports = s.reports ++ sample name value s ∷ [] }

    -- The loop over paint entries: it reports the first that fits, disconnects and stops.
    unfoldable pub on_paint : List (PaintEntry Number) → Vitals Number → Vitals Number
    on_paint [] s = s
    on_paint (e ∷ entries) s =
        if e.name == "first-contentful-paint"
        then record (report fcp e.start_time s) { paint_po = false }
        else on_paint entries s

    unfoldable pub on_lcp : List Number → Vitals Number → Vitals Number
    on_lcp entries s = elim (last entries) [
      | none ↦ s
      | some start_time ↦ record s { lcp_value = start_time }
    ]

    unfoldable pub finalize_lcp : Vitals Number → Vitals Number
    unfolding report
    finalize_lcp s =
        if s.lcp_reported
        then s
        else (let t = record s { lcp_po = false } in
            if lt (lit 0 0) s.lcp_value
            then report lcp s.lcp_value (record t { lcp_reported = true })
            else t)

    unfoldable pub on_shifts : List (LayoutShift Number) → Vitals Number → Vitals Number
    on_shifts [] s = s
    on_shifts (e ∷ entries) s =
        on_shifts entries
          (if not e.had_recent_input then record s { cls_value = add s.cls_value e.value } else s)

    unfoldable pub finalize_cls : Vitals Number → Vitals Number
    unfolding report
    finalize_cls s =
        if s.cls_reported
        then s
        else report cls s.cls_value (record s { cls_po = false; cls_reported = true })

    unfoldable pub on_events : List Number → Vitals Number → Vitals Number
    on_events [] s = s
    on_events (dur ∷ entries) s =
        on_events entries (if lt s.inp_value dur then record s { inp_value = dur } else s)

    unfoldable pub finalize_inp : Vitals Number → Vitals Number
    unfolding report
    finalize_inp s =
        if s.inp_reported
        then s
        else (let t = record s { inp_po = false } in
            if lt (lit 0 0) s.inp_value
            then report inp s.inp_value (record t { inp_reported = true })
            else t)

    -- The three listeners of `pagehide`, in the order of their registration.
    unfoldable pub on_pagehide : Vitals Number → Vitals Number
    on_pagehide s = finalize_inp (finalize_cls (finalize_lcp s))

    abbrev no_observers : Vitals Number
    no_observers = record {
      listening = false;
      paint_po = false;
      lcp_po = false;
      cls_po = false;
      inp_po = false;
      lcp_value = lit 0 0;
      lcp_reported = false;
      cls_value = lit 0 0;
      cls_reported = false;
      inp_value = lit 0 0;
      inp_reported = false;
      reports = [];
    }

    unfoldable pub report_ttfb : Option (NavigationTiming Number) → Vitals Number → Vitals Number
    report_ttfb none s = s
    report_ttfb (some nav) s =
        if lt (lit 0 0) nav.response_start
        then report ttfb (sub nav.response_start nav.start_time) s
        else s

    -- The call of `observeWebVitals`.
    unfoldable pub observe_web_vitals : Vitals Number
    unfolding report_ttfb
    observe_web_vitals =
        if not page.support.performance_observer
        then no_observers
        else record (report_ttfb page.navigation no_observers) {
          listening = true;
          paint_po = page.support.paint;
          lcp_po = page.support.largest_contentful_paint;
          cls_po = page.support.layout_shift;
          inp_po = page.support.event;
        }

    -- A disconnected observer delivers nothing.
    unfoldable pub receive : Signal Number → Vitals Number → Vitals Number
    receive (paint_entries entries) s = if s.paint_po then on_paint entries s else s
    receive (lcp_entries entries) s = if s.lcp_po then on_lcp entries s else s
    receive (shift_entries entries) s = if s.cls_po then on_shifts entries s else s
    receive (event_entries entries) s = if s.inp_po then on_events entries s else s
    receive (visibility_change hidden) s = if s.listening && hidden then finalize_lcp s else s
    receive pagehide s = if s.listening then on_pagehide s else s
    receive dispose s = record s {
      paint_po = false;
      lcp_po = false;
      cls_po = false;
      inp_po = false;
    }

    unfoldable pub receive_all : List (Signal Number) → Vitals Number → Vitals Number
    receive_all [] s = s
    receive_all (x ∷ xs) s = receive_all xs (receive x s)
