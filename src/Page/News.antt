-- ===== src/Page/News.antt =====
-- What the collector of packages/tracker/src/vitals.ts reports while it handles a signal.
use webalytics.Common.{
  Bool, if_elim, ◌&&◌, List, [], ◌∷◌, ◌++◌, ◌≡◌, refl, sym, ap, ◌∙◌, length, drop, drop-append,
  append_assoc, append-nil, ◌==◌, if◌then◌else◌,
}
use webalytics.Numbers.{Floats}
use webalytics.Vitals.Core.{
  VitalSample, PaintEntry, Vitals, Signal, paint_entries, lcp_entries, shift_entries, event_entries,
  visibility_change, pagehide, dispose, report, sample, fcp, lcp, cls, inp, on_lcp, on_shifts,
  on_events, on_paint, finalize_lcp, finalize_cls, finalize_inp, on_pagehide, receive,
}
use webalytics.Vitals.Core as Core
use webalytics.Vitals.Values.{on_shifts_lem, on_events_lem, on_lcp_lem}
use webalytics.Page.{news}

module _ (F : Floats) (page : Core.Page F.Number) where
  open F use {Number, lit, lt}

  -- Reports are only added.
  abbrev Grows : Vitals Number → Vitals Number → Type 0
  Grows v w = (more : List (VitalSample Number)) × (w.reports ≡ v.reports ++ more)

  Grows-same : (v w : Vitals Number) → w.reports ≡ v.reports → Grows v w
  Grows-same v w h = ([], h ∙ sym (append-nil v.reports))

  Grows-trans : (u v w : Vitals Number) → Grows u v → Grows v w → Grows u w
  Grows-trans u v w (xs, h) (ys, k) =
      (xs ++ ys, k ∙ ap (λ r. r ++ ys) h ∙ append_assoc u.reports xs ys)

  Grows-if :
      (v : Vitals Number) (b : Bool) (x y : Vitals Number)
      → Grows v x
      → Grows v y
      → Grows v (if b then x else y)
  Grows-if v b x y h k = if_elim (Grows v) b (λ _. h) (λ _. k)

  on_paint-Grows :
      (es : List (PaintEntry Number)) (v : Vitals Number) → Grows v (on_paint F page es v)
  unfolding on_paint report
  on_paint-Grows [] v = Grows-same v v refl
  on_paint-Grows (e ∷ es) v =
      Grows-if v (e.name == "first-contentful-paint") _ _
        (sample F page fcp e.start_time v ∷ [], refl) (on_paint-Grows es v)

  finalize_lcp-Grows : (v : Vitals Number) → Grows v (finalize_lcp F page v)
  unfolding finalize_lcp report
  finalize_lcp-Grows v =
      Grows-if v v.lcp_reported v _ ([], sym (append-nil v.reports))
        (Grows-if v (lt (lit 0 0) v.lcp_value) _ _ (sample F page lcp v.lcp_value v ∷ [], refl)
          ([], sym (append-nil v.reports)))

  finalize_cls-Grows : (v : Vitals Number) → Grows v (finalize_cls F page v)
  unfolding finalize_cls report
  finalize_cls-Grows v =
      Grows-if v v.cls_reported v _ ([], sym (append-nil v.reports))
        (sample F page cls v.cls_value v ∷ [], refl)

  finalize_inp-Grows : (v : Vitals Number) → Grows v (finalize_inp F page v)
  unfolding finalize_inp report
  finalize_inp-Grows v =
      Grows-if v v.inp_reported v _ ([], sym (append-nil v.reports))
        (Grows-if v (lt (lit 0 0) v.inp_value) _ _ (sample F page inp v.inp_value v ∷ [], refl)
          ([], sym (append-nil v.reports)))

  on_pagehide-Grows : (v : Vitals Number) → Grows v (on_pagehide F page v)
  unfolding on_pagehide
  on_pagehide-Grows v =
      let a = finalize_lcp F page v in
      let b = finalize_cls F page a in
      Grows-trans v b (finalize_inp F page b)
        (Grows-trans v a b (finalize_lcp-Grows v) (finalize_cls-Grows a)) (finalize_inp-Grows b)

  receive-Grows : (x : Signal Number) (v : Vitals Number) → Grows v (receive F page x v)
  unfolding receive
  receive-Grows (paint_entries es) v =
      Grows-if v v.paint_po _ v (on_paint-Grows es v) ([], sym (append-nil v.reports))
  receive-Grows (lcp_entries es) v =
      Grows-if v v.lcp_po _ v
        (Grows-same v (on_lcp F page es v) (ap (λ w. w.reports) (on_lcp_lem F page es v)))
        ([], sym (append-nil v.reports))
  receive-Grows (shift_entries es) v =
      Grows-if v v.cls_po _ v
        (Grows-same v (on_shifts F page es v) (ap (λ w. w.reports) (on_shifts_lem F page es v)))
        ([], sym (append-nil v.reports))
  receive-Grows (event_entries es) v =
      Grows-if v v.inp_po _ v
        (Grows-same v (on_events F page es v) (ap (λ w. w.reports) (on_events_lem F page es v)))
        ([], sym (append-nil v.reports))
  receive-Grows (visibility_change hidden) v =
      Grows-if v (v.listening && hidden) _ v (finalize_lcp-Grows v) ([], sym (append-nil v.reports))
  receive-Grows pagehide v =
      Grows-if v v.listening _ v (on_pagehide-Grows v) ([], sym (append-nil v.reports))
  receive-Grows dispose v = ([], sym (append-nil v.reports))

  -- The reports after a signal are those before and the news.
  pub reports-receive :
      (x : Signal Number) (v : Vitals Number)
      → (receive F page x v).reports ≡ v.reports ++ news F page x v
  reports-receive x v =
      let (more, h) = receive-Grows x v in
      h
      ∙ ap (λ m. v.reports ++ m) (sym (ap (drop (length v.reports)) h ∙ drop-append v.reports more))
