-- ===== src/Vitals/Rating.antt =====
-- The ratings of the reports, and what the interaction and layout values mean.
use webalytics.Common.{
  ℕ, ◌≤◌, true, false, ◌&&◌, List, [], ◌∷◌, ◌==◌, ◌≡◌, refl, sym, subst, arith, All, All-append,
  if◌then◌else◌, if_elim,
}
use webalytics.Numbers.{Floats}
use webalytics.Vitals.Core.{
  VitalName, lcp, fcp, cls, ttfb, inp, Rating, good, needs_improvement, poor, VitalSample,
  PaintEntry, Page, Vitals, Signal, paint_entries, lcp_entries, shift_entries, event_entries,
  visibility_change, pagehide, dispose, rate, report, on_paint, finalize_lcp, finalize_cls,
  finalize_inp, on_pagehide, observe_web_vitals, receive, receive_all,
}
use webalytics.Vitals.Entries.{
  values_of, durations_of, shifts_of, entries_in, IsOpen, largest, shift_sum,
}
use webalytics.Vitals.Values.{
  closing_reports, if_positive, on_lcp_lem, on_shifts_lem, on_events_lem,
}

abbrev pub rank : Rating → ℕ
rank good = 0
rank needs_improvement = 1
rank poor = 2

module _ (F : Floats) where
  open F use {Number, lit, le, lt, add, le_trans, le_of_lt, le_of_not_lt, le-lit}

  -- A larger value is never rated better.
  pub rate_mono :
      (n : VitalName) (v w : Number) → le v w ≡ true → rank (rate F n v) ≤ rank (rate F n w)
  unfolding rate
  rate_mono lcp v w h = ground (arith, le_trans v w (lit 2500 0), le_trans v w (lit 4000 0))
  rate_mono fcp v w h = ground (arith, le_trans v w (lit 1800 0), le_trans v w (lit 3000 0))
  rate_mono cls v w h = ground (arith, le_trans v w (lit 1 1), le_trans v w (lit 25 2))
  rate_mono ttfb v w h = ground (arith, le_trans v w (lit 800 0), le_trans v w (lit 1800 0))
  rate_mono inp v w h = ground (arith, le_trans v w (lit 200 0), le_trans v w (lit 500 0))

  abbrev pub IsNumber : Number → Type 0
  IsNumber v = le v v ≡ true

  largest_bounds :
      (acc : Number) (ds : List Number)
      → IsNumber acc
      → All IsNumber ds
      → (le acc (largest F acc ds) ≡ true) × All (λ d. le d (largest F acc ds) ≡ true) ds
  unfolding largest
  largest_bounds acc [] a n = (a, tt)
  largest_bounds acc (d ∷ ds) a (m, n) =
      if_elim
        (λ acc'.
          (le acc (largest F acc' ds) ≡ true)
          × ((le d (largest F acc' ds) ≡ true) × All (λ e. le e (largest F acc' ds) ≡ true) ds))
        (lt acc d)
        (λ h.
          let (up, rest) = largest_bounds d ds m n in
          (le_trans _ _ _ (le_of_lt acc d h) up, (up, rest)))
        (λ h.
          let (up, rest) = largest_bounds acc ds a n in
          (up, (le_trans _ _ _ (le_of_not_lt acc d a m h) up, rest)))

  module _ (page : Page Number) where
    -- Where the browser can observe interactions, whose lengths are no NaN, and the page was not
    -- hidden before it goes away, the INP that is reported then is at least as long as every
    -- interaction observed.
    pub inp_upper :
        (xs : List (Signal Number))
        → page.support.performance_observer ≡ true
        → page.support.event ≡ true
        → All IsOpen xs
        → All IsNumber (entries_in durations_of xs)
        → All
            (λ v. All (λ d. le d v ≡ true) (entries_in durations_of xs))
            (values_of inp
              (receive F page pagehide (receive_all F page xs (observe_web_vitals F page))).reports)
    inp_upper xs h e os n =
        let ds = entries_in durations_of xs in
        let v = largest F (lit 0 0) ds in
        let s = receive F page pagehide (receive_all F page xs (observe_web_vitals F page)) in
        let P = λ (u : Number). All (λ d. le d u ≡ true) ds in
        let reported : values_of inp s.reports ≡ if_positive F page v =
          subst (λ b. values_of inp s.reports ≡ if_positive F page (if b then v else lit 0 0)) e
            (closing_reports F page xs h os).2 in
        subst (All P) (sym reported) (
          if_elim (All P) (lt (lit 0 0) v)
            (λ _. ((largest_bounds (lit 0 0) ds (le-lit 0 0 0 0 (omega arith)) n).1, tt)) (λ _. tt))

    -- In a browser with `PerformanceObserver` but without `layout-shift` entries, a page that was not
    -- hidden before it goes away reports a CLS of 0 all the same, which is rated good.
    pub cls_unsupported :
        (xs : List (Signal Number))
        → page.support.performance_observer ≡ true
        → page.support.layout_shift ≡ false
        → All IsOpen xs
        → (values_of cls
              (receive F page pagehide (receive_all F page xs (observe_web_vitals F page))).reports
            ≡ lit 0 0 ∷ [])
          × (rate F cls (lit 0 0) ≡ good)
    unfolding rate
    cls_unsupported xs h e os =
        let s = receive F page pagehide (receive_all F page xs (observe_web_vitals F page)) in
        let sum = shift_sum F (lit 0 0) (entries_in shifts_of xs) in
        (
          subst (λ b. values_of cls s.reports ≡ (if b then sum else lit 0 0) ∷ []) e
              (closing_reports F page xs h os).0,
          rw (le-lit 0 0 1 1 (omega arith)),
        )

    abbrev IsRated : VitalSample Number → Type 0
    IsRated x = x.rating ≡ rate F x.name x.value

    abbrev pub AllRated : Vitals Number → Type 0
    AllRated s = All IsRated s.reports

    report-AllRated :
        (n : VitalName) (v : Number) (s : Vitals Number)
        → AllRated s
        → AllRated (report F page n v s)
    unfolding report
    report-AllRated n v s h = All-append IsRated s.reports _ h (refl, tt)

    on_paint-AllRated :
        (es : List (PaintEntry Number)) (s : Vitals Number)
        → AllRated s
        → AllRated (on_paint F page es s)
    unfolding on_paint
    on_paint-AllRated [] s h = h
    on_paint-AllRated (e ∷ es) s h =
        if_elim AllRated (e.name == "first-contentful-paint")
          (λ _. report-AllRated fcp e.start_time s h) (λ _. on_paint-AllRated es s h)

    finalize_lcp-AllRated : (s : Vitals Number) → AllRated s → AllRated (finalize_lcp F page s)
    unfolding finalize_lcp
    finalize_lcp-AllRated s h =
        if_elim AllRated s.lcp_reported (λ _. h)
          (λ _.
            if_elim AllRated (lt (lit 0 0) s.lcp_value) (λ _. report-AllRated lcp s.lcp_value s h)
              (λ _. h))

    finalize_cls-AllRated : (s : Vitals Number) → AllRated s → AllRated (finalize_cls F page s)
    unfolding finalize_cls
    finalize_cls-AllRated s h =
        if_elim AllRated s.cls_reported (λ _. h) (λ _. report-AllRated cls s.cls_value s h)

    finalize_inp-AllRated : (s : Vitals Number) → AllRated s → AllRated (finalize_inp F page s)
    unfolding finalize_inp
    finalize_inp-AllRated s h =
        if_elim AllRated s.inp_reported (λ _. h)
          (λ _.
            if_elim AllRated (lt (lit 0 0) s.inp_value) (λ _. report-AllRated inp s.inp_value s h)
              (λ _. h))

    receive-AllRated :
        (x : Signal Number) (s : Vitals Number) → AllRated s → AllRated (receive F page x s)
    unfolding receive on_pagehide
    receive-AllRated (paint_entries es) s h =
        if_elim AllRated s.paint_po (λ _. on_paint-AllRated es s h) (λ _. h)
    receive-AllRated (lcp_entries es) s h =
        if_elim AllRated s.lcp_po (λ _. rw on_lcp_lem h) (λ _. h)
    receive-AllRated (shift_entries es) s h =
        if_elim AllRated s.cls_po (λ _. rw on_shifts_lem h) (λ _. h)
    receive-AllRated (event_entries es) s h =
        if_elim AllRated s.inp_po (λ _. rw on_events_lem h) (λ _. h)
    receive-AllRated (visibility_change hidden) s h =
        if_elim AllRated (s.listening && hidden) (λ _. finalize_lcp-AllRated s h) (λ _. h)
    receive-AllRated pagehide s h =
        if_elim AllRated s.listening
          (λ _. finalize_inp-AllRated _ (finalize_cls-AllRated _ (finalize_lcp-AllRated s h)))
          (λ _. h)
    receive-AllRated dispose s h = h

    receive_all-AllRated :
        (xs : List (Signal Number)) (s : Vitals Number)
        → AllRated s
        → AllRated (receive_all F page xs s)
    unfolding receive_all
    receive_all-AllRated [] s h = h
    receive_all-AllRated (x ∷ xs) s h =
        receive_all-AllRated xs (receive F page x s) (receive-AllRated x s h)
