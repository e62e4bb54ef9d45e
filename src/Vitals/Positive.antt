-- ===== src/Vitals/Positive.antt =====
-- The collector of packages/tracker/src/vitals.ts reports no negative value.
use webalytics.Common.{
  false, not, ◌&&◌, Option, none, some, List, [], ◌∷◌, ◌==◌, ◌≡◌, All, All-append, if_elim,
  Option-cases, inl, inr,
}
use webalytics.Numbers.{Floats}
use webalytics.Vitals.Core.{
  VitalName, lcp, fcp, cls, ttfb, inp, PaintEntry, LayoutShift, NavigationTiming, Page, Vitals,
  Signal, paint_entries, lcp_entries, shift_entries, event_entries, visibility_change, pagehide,
  dispose, last, report, on_paint, on_lcp, on_shifts, on_events, finalize_lcp, finalize_cls,
  finalize_inp, on_pagehide, report_ttfb, observe_web_vitals, receive,
}

module _ (F : Floats) where
  open F use {Number, lit, lt, sub, lt_asym, add-lt_zero, lit-lt_zero}

  abbrev pub IsPositive : Number → Type 0
  IsPositive v = lt v (lit 0 0) ≡ false

  -- The browser's entries are not negative: the start of a paint, and the value of a shift.
  abbrev pub IsGiven : Signal Number → Type 0
  IsGiven (paint_entries es) = All (λ e. IsPositive e.start_time) es
  IsGiven (shift_entries es) = All (λ e. IsPositive e.value) es
  IsGiven _ = Unit

  -- The response does not start before the navigation.
  abbrev pub IsTimed : Option (NavigationTiming Number) → Type 0
  IsTimed none = Unit
  IsTimed (some nav) = IsPositive (sub nav.response_start nav.start_time)

  pub record IsSound (s : Vitals Number) : Type 0 where
    pub shift : IsPositive s.cls_value
    pub all : All (λ x. IsPositive x.value) s.reports

  module _ (page : Page Number) where
    report-IsSound :
        (n : VitalName) (v : Number) (s : Vitals Number)
        → IsPositive v
        → IsSound s
        → IsSound (report F page n v s)
    unfolding report
    report-IsSound n v s h k = record {
      shift = k.shift;
      all = All-append _ s.reports _ k.all (h, tt);
    }

    on_paint-IsSound :
        (es : List (PaintEntry Number)) (s : Vitals Number)
        → All (λ e. IsPositive e.start_time) es
        → IsSound s
        → IsSound (on_paint F page es s)
    unfolding on_paint
    on_paint-IsSound [] s h k = k
    on_paint-IsSound (e ∷ es) s (p, h) k =
        if_elim IsSound (e.name == "first-contentful-paint")
          (λ _.
            let r = report-IsSound fcp e.start_time s p k in
            record { shift = r.shift; all = r.all })
          (λ _. on_paint-IsSound es s h k)

    on_lcp-IsSound :
        (es : List Number) (s : Vitals Number) → IsSound s → IsSound (on_lcp F page es s)
    unfolding on_lcp
    on_lcp-IsSound es s k = elim (Option-cases (last es)) [
      | inl e ↦ rw (e, on_lcp) k
      | inr (v, e) ↦ rw (e, on_lcp) (record { shift = k.shift; all = k.all })
    ]

    on_shifts-IsSound :
        (es : List (LayoutShift Number)) (s : Vitals Number)
        → All (λ e. IsPositive e.value) es
        → IsSound s
        → IsSound (on_shifts F page es s)
    unfolding on_shifts
    on_shifts-IsSound [] s h k = k
    on_shifts-IsSound (e ∷ es) s (p, h) k = on_shifts-IsSound es _ h (
        if_elim IsSound (not e.had_recent_input)
          (λ _. record { shift = add-lt_zero s.cls_value e.value k.shift p; all = k.all }) (λ _. k))

    on_events-IsSound :
        (es : List Number) (s : Vitals Number) → IsSound s → IsSound (on_events F page es s)
    unfolding on_events
    on_events-IsSound [] s k = k
    on_events-IsSound (d ∷ es) s k =
        on_events-IsSound es _ (
          if_elim IsSound (lt s.inp_value d) (λ _. record { shift = k.shift; all = k.all })
            (λ _. k))

    finalize_lcp-IsSound : (s : Vitals Number) → IsSound s → IsSound (finalize_lcp F page s)
    unfolding finalize_lcp
    finalize_lcp-IsSound s k =
        if_elim IsSound s.lcp_reported (λ _. k)
          (λ _.
            if_elim IsSound (lt (lit 0 0) s.lcp_value)
              (λ h.
                report-IsSound lcp s.lcp_value _ (lt_asym _ _ h)
                  (record { shift = k.shift; all = k.all }))
              (λ _. record { shift = k.shift; all = k.all }))

    finalize_cls-IsSound : (s : Vitals Number) → IsSound s → IsSound (finalize_cls F page s)
    unfolding finalize_cls
    finalize_cls-IsSound s k =
        if_elim IsSound s.cls_reported (λ _. k)
          (λ _. report-IsSound cls s.cls_value _ k.shift (record { shift = k.shift; all = k.all }))

    finalize_inp-IsSound : (s : Vitals Number) → IsSound s → IsSound (finalize_inp F page s)
    unfolding finalize_inp
    finalize_inp-IsSound s k =
        if_elim IsSound s.inp_reported (λ _. k)
          (λ _.
            if_elim IsSound (lt (lit 0 0) s.inp_value)
              (λ h.
                report-IsSound inp s.inp_value _ (lt_asym _ _ h)
                  (record { shift = k.shift; all = k.all }))
              (λ _. record { shift = k.shift; all = k.all }))

    -- The collector keeps to values that are not negative, whatever the browser delivers.
    pub receive-IsSound :
        (x : Signal Number) (s : Vitals Number)
        → IsGiven x
        → IsSound s
        → IsSound (receive F page x s)
    unfolding receive on_pagehide
    receive-IsSound (paint_entries es) s h k =
        if_elim IsSound s.paint_po (λ _. on_paint-IsSound es s h k) (λ _. k)
    receive-IsSound (lcp_entries es) s h k =
        if_elim IsSound s.lcp_po (λ _. on_lcp-IsSound es s k) (λ _. k)
    receive-IsSound (shift_entries es) s h k =
        if_elim IsSound s.cls_po (λ _. on_shifts-IsSound es s h k) (λ _. k)
    receive-IsSound (event_entries es) s h k =
        if_elim IsSound s.inp_po (λ _. on_events-IsSound es s k) (λ _. k)
    receive-IsSound (visibility_change hidden) s h k =
        if_elim IsSound (s.listening && hidden) (λ _. finalize_lcp-IsSound s k) (λ _. k)
    receive-IsSound pagehide s h k =
        if_elim IsSound s.listening
          (λ _. finalize_inp-IsSound _ (finalize_cls-IsSound _ (finalize_lcp-IsSound s k))) (λ _. k)
    receive-IsSound dispose s h k = record { shift = k.shift; all = k.all }

    report_ttfb-IsSound :
        (nav : Option (NavigationTiming Number)) (s : Vitals Number)
        → IsTimed nav
        → IsSound s
        → IsSound (report_ttfb F page nav s)
    unfolding report_ttfb
    report_ttfb-IsSound none s h k = k
    report_ttfb-IsSound (some nav) s h k =
        if_elim IsSound (lt (lit 0 0) nav.response_start) (λ _. report-IsSound ttfb _ s h k)
          (λ _. k)

    pub observe-IsSound : IsTimed page.navigation → IsSound (observe_web_vitals F page)
    unfolding observe_web_vitals
    observe-IsSound h =
        if_elim IsSound (not page.support.performance_observer)
          (λ _. record { shift = lit-lt_zero 0 0; all = tt })
          (λ _.
            let k =
              report_ttfb-IsSound page.navigation _ h
                (record { shift = lit-lt_zero 0 0; all = tt }) in
            record { shift = k.shift; all = k.all })
