-- ===== src/Vitals/Once.antt =====
-- How often the collector of packages/tracker/src/vitals.ts reports each vital.
use webalytics.Common.{
  ℕ, ◌+◌, ◌≤◌, Bool, true, false, not, ◌&&◌, none, some, List, [], ◌∷◌, ◌++◌, ◌==◌, ◌≡◌, refl,
  subst, arith, ◌=ℕ◌, if◌then◌else◌, if_elim,
}
use webalytics.Numbers.{Floats}
use webalytics.Vitals.Core.{
  VitalName, lcp, fcp, cls, ttfb, inp, VitalSample, PaintEntry, LayoutShift, Page, Vitals, Signal,
  paint_entries, lcp_entries, shift_entries, event_entries, visibility_change, pagehide, dispose,
  last, sample, report, on_paint, on_lcp, finalize_lcp, on_shifts, finalize_cls, on_events,
  finalize_inp, on_pagehide, observe_web_vitals, receive, receive_all,
}

abbrev pub index : VitalName → ℕ
index lcp = 0
index fcp = 1
index cls = 2
index ttfb = 3
index inp = 4

abbrev pub same : VitalName → VitalName → Bool
same a b = index a =ℕ index b

-- How many samples of a vital a list holds.
abbrev pub times : {V : Type 0} → VitalName → List (VitalSample V) → ℕ
times n [] = 0
times n (x ∷ xs) = (if same n x.name then 1 else 0) + times n xs

times-append :
    {V : Type 0} (n : VitalName) (xs ys : List (VitalSample V))
    → times n (xs ++ ys) ≡ times n xs + times n ys
times-append n [] ys = omega arith
times-append n (x ∷ xs) ys = omega (arith, times-append n xs ys)

abbrev bit : Bool → ℕ
bit true = 1
bit false = 0

-- The flags that guard the reports; the observer's own flag guards that of the first paint.
record Counts {V : Type 0} (paint lcp_done cls_done inp_done : Bool) (rs : List (VitalSample V))
    : Type 0 where
  ttfb_once : times ttfb rs ≤ 1
  fcp_once : times fcp rs + bit paint ≤ 1
  lcp_once : times lcp rs ≡ bit lcp_done
  cls_once : times cls rs ≡ bit cls_done
  inp_once : times inp rs ≡ bit inp_done

abbrev IsCounted : {V : Type 0} → Vitals V → Type 0
IsCounted s = Counts s.paint_po s.lcp_reported s.cls_reported s.inp_reported s.reports

module _ {V : Type 0} (p l c i : Bool) (rs : List (VitalSample V)) where
  Counts-unpaint : Counts p l c i rs → Counts false l c i rs
  Counts-unpaint k = ground arith

  -- One more sample counts for its own vital alone.
  module _ (x : VitalSample V) where
    times-snoc : (m : VitalName) → times m (rs ++ x ∷ []) ≡ times m rs + bit (same m x.name)
    times-snoc m = ground (arith, times-append m rs (x ∷ []))

    Counts-fcp : x.name ≡ fcp → Counts true l c i rs → Counts false l c i (rs ++ x ∷ [])
    Counts-fcp e k =
        ground
          (arith, times-snoc ttfb, times-snoc fcp, times-snoc lcp, times-snoc cls, times-snoc inp)

    Counts-lcp : x.name ≡ lcp → Counts p false c i rs → Counts p true c i (rs ++ x ∷ [])
    Counts-lcp e k =
        ground
          (arith, times-snoc ttfb, times-snoc fcp, times-snoc lcp, times-snoc cls, times-snoc inp)

    Counts-cls : x.name ≡ cls → Counts p l false i rs → Counts p l true i (rs ++ x ∷ [])
    Counts-cls e k =
        ground
          (arith, times-snoc ttfb, times-snoc fcp, times-snoc lcp, times-snoc cls, times-snoc inp)

    Counts-inp : x.name ≡ inp → Counts p l c false rs → Counts p l c true (rs ++ x ∷ [])
    Counts-inp e k =
        ground
          (arith, times-snoc ttfb, times-snoc fcp, times-snoc lcp, times-snoc cls, times-snoc inp)

bit_le : (b : Bool) → bit b ≤ 1
bit_le b = ground arith

at_most_once : {V : Type 0} (s : Vitals V) → IsCounted s → (n : VitalName) → times n s.reports ≤ 1
at_most_once s c lcp = omega (arith, c.lcp_once, bit_le s.lcp_reported)
at_most_once s c fcp = omega (arith, c.fcp_once)
at_most_once s c cls = omega (arith, c.cls_once, bit_le s.cls_reported)
at_most_once s c ttfb = omega (arith, c.ttfb_once)
at_most_once s c inp = omega (arith, c.inp_once, bit_le s.inp_reported)

module _ (F : Floats) (page : Page F.Number) where
  on_paint-IsCounted :
      (es : List (PaintEntry F.Number)) (s : Vitals F.Number)
      → s.paint_po ≡ true
      → IsCounted s
      → IsCounted (on_paint F page es s)
  unfolding on_paint report
  on_paint-IsCounted [] s p c = c
  on_paint-IsCounted (e ∷ es) s p c =
      if_elim IsCounted (e.name == "first-contentful-paint")
        (λ h.
          Counts-fcp true _ _ _ s.reports (sample F page fcp e.start_time s) refl
            (subst (λ b. Counts b s.lcp_reported s.cls_reported s.inp_reported s.reports) p c))
        (λ h. on_paint-IsCounted es s p c)

  finalize_lcp-IsCounted : (s : Vitals F.Number) → IsCounted s → IsCounted (finalize_lcp F page s)
  unfolding finalize_lcp
  finalize_lcp-IsCounted s c =
      if_elim IsCounted s.lcp_reported (λ h. c)
        (λ h.
          if_elim IsCounted (F.lt (F.lit 0 0) s.lcp_value)
            (λ k.
              Counts-lcp _ false _ _ s.reports (sample F page lcp s.lcp_value s) refl
                (subst (λ b. Counts s.paint_po b s.cls_reported s.inp_reported s.reports) h c))
            (λ k. c))

  finalize_cls-IsCounted : (s : Vitals F.Number) → IsCounted s → IsCounted (finalize_cls F page s)
  unfolding finalize_cls
  finalize_cls-IsCounted s c =
      if_elim IsCounted s.cls_reported (λ h. c)
        (λ h.
          Counts-cls _ _ false _ s.reports (sample F page cls s.cls_value s) refl
            (subst (λ b. Counts s.paint_po s.lcp_reported b s.inp_reported s.reports) h c))

  finalize_inp-IsCounted : (s : Vitals F.Number) → IsCounted s → IsCounted (finalize_inp F page s)
  unfolding finalize_inp
  finalize_inp-IsCounted s c =
      if_elim IsCounted s.inp_reported (λ h. c)
        (λ h.
          if_elim IsCounted (F.lt (F.lit 0 0) s.inp_value)
            (λ k.
              Counts-inp _ _ _ false s.reports (sample F page inp s.inp_value s) refl
                (subst (λ b. Counts s.paint_po s.lcp_reported s.cls_reported b s.reports) h c))
            (λ k. c))

  on_lcp-IsCounted :
      (es : List F.Number) (s : Vitals F.Number) → IsCounted s → IsCounted (on_lcp F page es s)
  unfolding on_lcp
  on_lcp-IsCounted es s c =
      elim (last es)
        as (λ o. IsCounted (elim o [ none ↦ s | some v ↦ record s { lcp_value = v } ])) [
          | none ↦ c
          | some v ↦ c
        ]

  on_shifts-IsCounted :
      (es : List (LayoutShift F.Number)) (s : Vitals F.Number)
      → IsCounted s
      → IsCounted (on_shifts F page es s)
  unfolding on_shifts
  on_shifts-IsCounted [] s c = c
  on_shifts-IsCounted (e ∷ es) s c =
      on_shifts-IsCounted es _ (if_elim IsCounted (not e.had_recent_input) (λ _. c) (λ _. c))

  on_events-IsCounted :
      (es : List F.Number) (s : Vitals F.Number) → IsCounted s → IsCounted (on_events F page es s)
  unfolding on_events
  on_events-IsCounted [] s c = c
  on_events-IsCounted (d ∷ es) s c =
      on_events-IsCounted es _ (if_elim IsCounted (F.lt s.inp_value d) (λ _. c) (λ _. c))

  receive-IsCounted :
      (x : Signal F.Number) (s : Vitals F.Number) → IsCounted s → IsCounted (receive F page x s)
  unfolding receive on_pagehide
  receive-IsCounted (paint_entries es) s c =
      if_elim IsCounted s.paint_po (λ p. on_paint-IsCounted es s p c) (λ _. c)
  receive-IsCounted (lcp_entries es) s c =
      if_elim IsCounted s.lcp_po (λ _. on_lcp-IsCounted es s c) (λ _. c)
  receive-IsCounted (shift_entries es) s c =
      if_elim IsCounted s.cls_po (λ _. on_shifts-IsCounted es s c) (λ _. c)
  receive-IsCounted (event_entries es) s c =
      if_elim IsCounted s.inp_po (λ _. on_events-IsCounted es s c) (λ _. c)
  receive-IsCounted (visibility_change hidden) s c =
      if_elim IsCounted (s.listening && hidden) (λ _. finalize_lcp-IsCounted s c) (λ _. c)
  receive-IsCounted pagehide s c =
      if_elim IsCounted s.listening
        (λ _. finalize_inp-IsCounted _ (finalize_cls-IsCounted _ (finalize_lcp-IsCounted s c)))
        (λ _. c)
  receive-IsCounted dispose s c = Counts-unpaint _ _ _ _ s.reports c

  observe-IsCounted : IsCounted (observe_web_vitals F page)
  unfolding observe_web_vitals report
  observe-IsCounted = ground arith

  receive_all-IsCounted :
      (xs : List (Signal F.Number)) (s : Vitals F.Number)
      → IsCounted s
      → IsCounted (receive_all F page xs s)
  unfolding receive_all
  receive_all-IsCounted [] s c = c
  receive_all-IsCounted (x ∷ xs) s c = receive_all-IsCounted xs _ (receive-IsCounted x s c)

  -- Whatever entries and events the browser delivers, and however often the page is hidden, each
  -- of the five vitals is reported at most once.
  pub reports_once :
      (n : VitalName) (xs : List (Signal F.Number))
      → times n (receive_all F page xs (observe_web_vitals F page)).reports ≤ 1
  reports_once n xs =
      let s = receive_all F page xs (observe_web_vitals F page) in
      at_most_once s (receive_all-IsCounted xs _ observe-IsCounted) n
