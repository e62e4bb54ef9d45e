-- ===== src/Vitals/Values.antt =====
-- Which values the collector reports when the page is hidden for good.
use webalytics.Common.{
  true, false, List, [], ◌∷◌, ◌++◌, ◌==◌, ◌≡◌, refl, arith, All, if◌then◌else◌, if_elim, append-nil,
}
use webalytics.Numbers.{Floats}
use webalytics.Vitals.Core.{
  lcp, fcp, cls, inp, VitalSample, PaintEntry, LayoutShift, Support, Page, Vitals, Signal,
  paint_entries, lcp_entries, shift_entries, event_entries, visibility_change, pagehide, dispose,
  last, sample, report, on_paint, on_lcp, finalize_lcp, on_shifts, finalize_cls, on_events,
  finalize_inp, on_pagehide, observe_web_vitals, receive, receive_all,
}
use webalytics.Vitals.Entries.{
  values_of, values_of-append, shifts_of, durations_of, paints_of, entries_in, IsOpen, latest,
  latest-append, shift_sum, largest, shift_sum-append, largest-append,
}

-- A page that is still shown, and what its collector has seen: `c` the shifts, `l` the paints, `i`
-- the interactions.
record Watching {V : Type 0} (sup : Support) (c l i : V) (s : Vitals V) : Type 0 where
  listening : s.listening ≡ true
  cls_po : s.cls_po ≡ sup.layout_shift
  lcp_po : s.lcp_po ≡ sup.largest_contentful_paint
  inp_po : s.inp_po ≡ sup.event
  cls_value : s.cls_value ≡ c
  lcp_value : s.lcp_value ≡ l
  inp_value : s.inp_value ≡ i
  cls_open : s.cls_reported ≡ false
  lcp_open : s.lcp_reported ≡ false
  inp_open : s.inp_reported ≡ false
  cls_none : values_of cls s.reports ≡ []
  lcp_none : values_of lcp s.reports ≡ []
  inp_none : values_of inp s.reports ≡ []

module _ (F : Floats) where
  open F use {Number, lit, le, lt, add}

  module _ (page : Page Number) where
    pub on_shifts_lem :
        (es : List (LayoutShift Number)) (s : Vitals Number)
        → on_shifts F page es s ≡ record s { cls_value = shift_sum F s.cls_value es }
    unfolding on_shifts shift_sum
    on_shifts_lem [] s = refl
    on_shifts_lem (e ∷ es) s = ground (
      arith,
      on_shifts_lem es s,
      on_shifts_lem es (record s { cls_value = add s.cls_value e.value }),
    )

    pub on_events_lem :
        (es : List Number) (s : Vitals Number)
        → on_events F page es s ≡ record s { inp_value = largest F s.inp_value es }
    unfolding on_events largest
    on_events_lem [] s = refl
    on_events_lem (e ∷ es) s =
        ground (arith, on_events_lem es s, on_events_lem es (record s { inp_value = e }))

    pub on_lcp_lem :
        (es : List Number) (s : Vitals Number)
        → on_lcp F page es s ≡ record s { lcp_value = latest s.lcp_value es }
    unfolding on_lcp last latest
    on_lcp_lem [] s = refl
    on_lcp_lem (e ∷ []) s = refl
    on_lcp_lem (e ∷ d ∷ es) s = on_lcp_lem (d ∷ es) s

    module _ {c l i : Number} where
      on_paint-Watching :
          (es : List (PaintEntry Number)) (s : Vitals Number)
          → Watching page.support c l i s
          → Watching page.support c l i (on_paint F page es s)
      unfolding on_paint report values_of
      on_paint-Watching [] s w = w
      on_paint-Watching (e ∷ es) s w =
          if_elim (Watching page.support c l i) (e.name == "first-contentful-paint")
            (λ h. ground (
              arith,
              values_of-append cls s.reports (sample F page fcp e.start_time s ∷ []),
              values_of-append lcp s.reports (sample F page fcp e.start_time s ∷ []),
              values_of-append inp s.reports (sample F page fcp e.start_time s ∷ []),
            ))
            (λ h. on_paint-Watching es s w)

    abbrev pub after_shifts : Number → List (LayoutShift Number) → Number
    after_shifts c es = if page.support.layout_shift then shift_sum F c es else c

    abbrev pub after_paints : Number → List Number → Number
    after_paints l es = if page.support.largest_contentful_paint then latest l es else l

    abbrev pub after_events : Number → List Number → Number
    after_events i es = if page.support.event then largest F i es else i

    receive-Watching :
        (x : Signal Number) (c l i : Number) (s : Vitals Number)
        → IsOpen x
        → Watching page.support c l i s
        → Watching page.support
            (after_shifts c (shifts_of x))
            (after_paints l (paints_of x))
            (after_events i (durations_of x))
            (receive F page x s)
    unfolding receive shift_sum largest latest
    receive-Watching (paint_entries es) c l i s o w = ground (arith, on_paint-Watching es s w)
    receive-Watching (shift_entries es) c l i s o w = ground (arith, on_shifts_lem es s)
    receive-Watching (lcp_entries es) c l i s o w = ground (arith, on_lcp_lem es s)
    receive-Watching (event_entries es) c l i s o w = ground (arith, on_events_lem es s)
    receive-Watching (visibility_change true) c l i s o w = elim o [ ]
    receive-Watching (visibility_change false) c l i s o w = ground arith
    receive-Watching pagehide c l i s o w = elim o [ ]
    receive-Watching dispose c l i s o w = elim o [ ]

    receive_all-Watching :
        (xs : List (Signal Number)) (c l i : Number) (s : Vitals Number)
        → All IsOpen xs
        → Watching page.support c l i s
        → Watching page.support
            (after_shifts c (entries_in shifts_of xs))
            (after_paints l (entries_in paints_of xs))
            (after_events i (entries_in durations_of xs))
            (receive_all F page xs s)
    unfolding receive_all shift_sum largest latest
    receive_all-Watching [] c l i s o w = ground arith
    receive_all-Watching (x ∷ xs) c l i s (o, os) w =
        let w' =
          receive_all-Watching xs _ _ _ (receive F page x s) os (receive-Watching x c l i s o w) in
        ground (
          arith,
          w',
          shift_sum-append F c (shifts_of x) (entries_in shifts_of xs),
          latest-append l (paints_of x) (entries_in paints_of xs),
          largest-append F i (durations_of x) (entries_in durations_of xs),
        )

    observe-Watching :
        page.support.performance_observer ≡ true
        → Watching page.support (lit 0 0) (lit 0 0) (lit 0 0) (observe_web_vitals F page)
    unfolding observe_web_vitals report values_of
    observe-Watching h = ground arith

    -- A value is reported only if it is positive.
    abbrev pub if_positive : Number → List Number
    if_positive v = if lt (lit 0 0) v then v ∷ [] else []

    -- The reports that hiding the page makes.
    abbrev pub Closes : Number → Number → Number → List (VitalSample Number) → Type 0
    Closes c l i rs =
        (values_of cls rs ≡ c ∷ [])
        × (values_of lcp rs ≡ if_positive l)
        × (values_of inp rs ≡ if_positive i)

    -- The first two of the three listeners, and what they leave to the next.
    finalize_lcp_lem :
        (c l i : Number) (s : Vitals Number)
        → Watching page.support c l i s
        → let t = finalize_lcp F page s in
          (t.cls_value ≡ c)
          × (t.inp_value ≡ i)
          × (t.cls_reported ≡ false)
          × (t.inp_reported ≡ false)
          × (values_of lcp t.reports ≡ if_positive l)
          × (values_of cls t.reports ≡ [])
          × (values_of inp t.reports ≡ [])
    unfolding finalize_lcp report values_of
    finalize_lcp_lem c l i s w = ground (
      arith,
      values_of-append lcp s.reports (sample F page lcp s.lcp_value s ∷ []),
      values_of-append cls s.reports (sample F page lcp s.lcp_value s ∷ []),
      values_of-append inp s.reports (sample F page lcp s.lcp_value s ∷ []),
    )

    finalize_cls_lem :
        (s : Vitals Number)
        → s.cls_reported ≡ false
        → let t = finalize_cls F page s in
          (t.inp_value ≡ s.inp_value)
          × (t.inp_reported ≡ s.inp_reported)
          × (values_of lcp t.reports ≡ values_of lcp s.reports)
          × (values_of cls t.reports ≡ values_of cls s.reports ++ s.cls_value ∷ [])
          × (values_of inp t.reports ≡ values_of inp s.reports)
    unfolding finalize_cls report values_of
    finalize_cls_lem s h =
        let x = sample F page cls s.cls_value s in
        ground (
          arith,
          values_of-append lcp s.reports (x ∷ []),
          values_of-append cls s.reports (x ∷ []),
          values_of-append inp s.reports (x ∷ []),
          append-nil (values_of lcp s.reports),
          append-nil (values_of inp s.reports),
        )

    finalize_inp_lem :
        (s : Vitals Number)
        → s.inp_reported ≡ false
        → let t = finalize_inp F page s in
          (values_of lcp t.reports ≡ values_of lcp s.reports)
          × (values_of cls t.reports ≡ values_of cls s.reports)
          × (values_of inp t.reports ≡ values_of inp s.reports ++ if_positive s.inp_value)
    unfolding finalize_inp report values_of
    finalize_inp_lem s h =
        let x = sample F page inp s.inp_value s in
        ground (
          arith,
          values_of-append lcp s.reports (x ∷ []),
          values_of-append cls s.reports (x ∷ []),
          values_of-append inp s.reports (x ∷ []),
          append-nil (values_of lcp s.reports),
          append-nil (values_of cls s.reports),
          append-nil (values_of inp s.reports),
        )

    on_pagehide-Closes :
        (c l i : Number) (s : Vitals Number)
        → Watching page.support c l i s
        → Closes c l i (on_pagehide F page s).reports
    unfolding on_pagehide
    on_pagehide-Closes c l i s w =
        let t = finalize_lcp F page s in
        let u = finalize_cls F page t in
        let a = finalize_lcp_lem c l i s w in
        let b = finalize_cls_lem t a.2 in ground (arith, a, b, finalize_inp_lem u)

    -- In a browser with `PerformanceObserver`, when a page goes away that was not hidden before, the
    -- collector has reported exactly one CLS, the sum of the layout shifts that no user input caused;
    -- the last LCP entry and the longest interaction are reported if they are positive. How the
    -- browser batched the entries makes no difference, and an entry type that it cannot observe
    -- counts as no entries.
    pub closing_reports :
        (xs : List (Signal Number))
        → page.support.performance_observer ≡ true
        → All IsOpen xs
        → Closes
            (after_shifts (lit 0 0) (entries_in shifts_of xs))
            (after_paints (lit 0 0) (entries_in paints_of xs))
            (after_events (lit 0 0) (entries_in durations_of xs))
            (receive F page pagehide (receive_all F page xs (observe_web_vitals F page))).reports
    unfolding receive
    closing_reports xs h os =
        let s = receive_all F page xs (observe_web_vitals F page) in
        let w = receive_all-Watching xs _ _ _ (observe_web_vitals F page) os (observe-Watching h) in
        ground (arith, w, on_pagehide-Closes _ _ _ s w)

    -- When a page is first hidden, the collector reports the last LCP entry, if it is positive; it
    -- had not reported it before.
    pub hidden_reports :
        (xs : List (Signal Number))
        → page.support.performance_observer ≡ true
        → All IsOpen xs
        → let v = receive_all F page xs (observe_web_vitals F page) in
          (values_of lcp v.reports ≡ [])
          × (values_of lcp (receive F page (visibility_change true) v).reports
              ≡ if_positive (after_paints (lit 0 0) (entries_in paints_of xs)))
    unfolding receive
    hidden_reports xs h os =
        let v = receive_all F page xs (observe_web_vitals F page) in
        let w = receive_all-Watching xs _ _ _ (observe_web_vitals F page) os (observe-Watching h) in
        let (_, _, _, _, shown, _, _) = finalize_lcp_lem _ _ _ v w in
        (w.lcp_none, ground (arith, w.listening, shown))
