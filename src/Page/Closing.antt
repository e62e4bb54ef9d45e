-- ===== src/Page/Closing.antt =====
-- What a page hands over when it goes away, vitals included: the tracker of
-- packages/tracker/src/core.ts together with the collector of packages/tracker/src/vitals.ts.
use webalytics.Common.{
  concat, subst, true, List, [], ◌∷◌, ◌++◌, map, ◌≡◌, refl, sym, ap, ◌∙◌, subst, arith, map-append,
  All,
}
use webalytics.Numbers.{Floats}
use webalytics.Tracker.Types.{InitConfig}
use webalytics.Tracker.Browser.{Globals}
use webalytics.Tracker.State.{State}
use webalytics.Tracker.Core.{init}
use webalytics.Tracker.Loop.{Action, vital_reported, call_set_enabled, step}
use webalytics.Tracker.Loop as Loop
use webalytics.Tracker.Delivery.{delivered, history}
use webalytics.Vitals.Core.{
  lcp, VitalSample, Vitals, Signal, visibility_change, pagehide, observe_web_vitals, receive,
  receive_all,
}
use webalytics.Vitals.Core as Core
use webalytics.Page.{
  PageAction, PageState, calls, delivers, to_vital, forward, news, page_step, page_run, open_page,
}
use webalytics.Page.News.{reports-receive}
use webalytics.Page.Recording.{
  vitals_in, IsReporting, IsPlain, plain_step, forward-vitals, forward-sent, forward-buf,
  pagehide-buf, hidden-buf, left-vitals,
}
use webalytics.Vitals.Entries.{
  values_of, values_of-append, shifts_of, durations_of, paints_of, entries_in, IsOpen,
}
use webalytics.Vitals.Values.{
  after_shifts, after_paints, after_events, if_positive, Closes, closing_reports, hidden_reports,
}

module _ (F : Floats) (page : Core.Page F.Number) where
  open F use {Number, lit}

  -- The tracker of a page has recorded the reports of its collector, each once and in order.
  abbrev pub IsInStep : PageState Number → Type 0
  IsInStep p =
      (vitals_in (history p.tracker) ≡ map to_vital p.vitals.reports) × IsReporting p.tracker

  -- What may happen in a page: somebody calls the tracker, without turning it off, or the browser
  -- delivers something.
  abbrev pub IsPlainCall : PageAction Number → Type 0
  IsPlainCall (calls a) = IsPlain a
  IsPlainCall (delivers x) = Unit

  delivered-IsInStep :
      (g : Globals) (x : Signal Number) (v : Vitals Number) (t : State Number)
      → vitals_in (history t) ≡ map to_vital v.reports
      → IsReporting t
      → IsInStep (record { vitals = receive F page x v; tracker = forward g (news F page x v) t })
  delivered-IsInStep g x v t h r =
      let (all, s) = forward-vitals g (news F page x v) t r in
      (
        all
            ∙ ap (λ l. l ++ map to_vital (news F page x v)) h
            ∙ sym (map-append to_vital v.reports (news F page x v))
            ∙ ap (map to_vital) (sym (reports-receive F page x v)),
        s,
      )

  page_step-IsInStep :
      (g : Globals) (a : PageAction Number) (p : PageState Number)
      → IsPlainCall a
      → IsInStep p
      → IsInStep (page_step F page g a p)
  unfolding page_step
  page_step-IsInStep g (calls a) p c (h, r) =
      let (same, s) = plain_step g a p.tracker c r in (same ∙ h, s)
  page_step-IsInStep g (delivers pagehide) p c (h, r) =
      let (all, s) = delivered-IsInStep g pagehide p.vitals p.tracker h r in
      let (same, u) =
        plain_step g Loop.pagehide (forward g (news F page pagehide p.vitals) p.tracker) tt s in
      (same ∙ all, u)
  page_step-IsInStep g (delivers (visibility_change hidden)) p c (h, r) =
      let (same, s) = plain_step g (Loop.visibility_change hidden) p.tracker tt r in
      delivered-IsInStep g (visibility_change hidden) p.vitals _ (same ∙ h) s
  page_step-IsInStep g (delivers x) p c (h, r) = delivered-IsInStep g x p.vitals p.tracker h r

  page_run-IsInStep :
      (xs : List (Globals × PageAction Number)) (p : PageState Number)
      → All (λ x. IsPlainCall x.1) xs
      → IsInStep p
      → IsInStep (page_run F page xs p)
  unfolding page_run
  page_run-IsInStep [] p h s = s
  page_run-IsInStep ((g, a) ∷ xs) p (c, h) s =
      page_run-IsInStep xs (page_step F page g a p) h (page_step-IsInStep g a p c s)

  -- What the browser delivered in a page's life.
  abbrev pub signals_of : List (Globals × PageAction Number) → List (Signal Number)
  signals_of [] = []
  signals_of ((g, calls a) ∷ xs) = signals_of xs
  signals_of ((g, delivers x) ∷ xs) = x ∷ signals_of xs

  page_step-vitals :
      (g : Globals) (x : Signal Number) (p : PageState Number)
      → (page_step F page g (delivers x) p).vitals ≡ receive F page x p.vitals
  unfolding page_step
  page_step-vitals g x p = ground arith

  page_run-vitals :
      (xs : List (Globals × PageAction Number)) (p : PageState Number)
      → (page_run F page xs p).vitals ≡ receive_all F page (signals_of xs) p.vitals
  unfolding page_run receive_all page_step
  page_run-vitals [] p = refl
  page_run-vitals ((g, calls a) ∷ xs) p = page_run-vitals xs (page_step F page g (calls a) p)
  page_run-vitals ((g, delivers x) ∷ xs) p =
      page_run-vitals xs (page_step F page g (delivers x) p)
      ∙ ap (receive_all F page (signals_of xs)) (page_step-vitals g x p)

  open_page-IsInStep :
      (c : InitConfig) (g : Globals)
      → IsReporting (init {V = Number} c g)
      → IsInStep (open_page F page c g)
  unfolding open_page init vitals_in
  open_page-IsInStep c g r = forward-vitals g (observe_web_vitals F page).reports (init c g) r

  -- The page after `init` and all that followed.
  abbrev pub visited : InitConfig → Globals → List (Globals × PageAction Number) → PageState Number
  visited c g xs = page_run F page xs (open_page F page c g)

  visited-IsInStep :
      (c : InitConfig) (g : Globals) (xs : List (Globals × PageAction Number))
      → IsReporting (init {V = Number} c g)
      → All (λ x. IsPlainCall x.1) xs
      → IsInStep (visited c g xs)
  visited-IsInStep c g xs r h =
      page_run-IsInStep xs (open_page F page c g) h (open_page-IsInStep c g r)

  -- What the collector's reports say of a page that goes away.
  abbrev pub Says : List (Signal Number) → List (VitalSample Number) → Type 0
  Says xs =
      Closes F page (after_shifts F page (lit 0 0) (entries_in shifts_of xs))
        (after_paints F page (lit 0 0) (entries_in paints_of xs))
        (after_events F page (lit 0 0) (entries_in durations_of xs))

  -- When a page goes away that was not hidden before, in a browser with `PerformanceObserver` and
  -- with a tracker in a window that takes every event, the flush of that very moment leaves the
  -- transport with every report of the collector, each once and in order: they hold exactly one
  -- CLS, the sum of the shifts, and the last LCP and the longest interaction if they are positive.
  pub closing_delivers :
      (c : InitConfig) (g h : Globals) (xs : List (Globals × PageAction Number))
      → page.support.performance_observer ≡ true
      → IsReporting (init {V = Number} c g)
      → All (λ x. IsPlainCall x.1) xs
      → All IsOpen (signals_of xs)
      → let p = page_step F page h (delivers pagehide) (visited c g xs) in
        (vitals_in (delivered p.tracker) ≡ map to_vital p.vitals.reports)
        × Says (signals_of xs) p.vitals.reports
  unfolding open_page page_step
  closing_delivers c g h xs o r cs os =
      let p = visited c g xs in
      let (all, s) = visited-IsInStep c g xs r cs in
      let (recorded, u) = delivered-IsInStep h pagehide p.vitals p.tracker all s in
      let t = forward h (news F page pagehide p.vitals) p.tracker in
      (
        left-vitals h Loop.pagehide t tt u (pagehide-buf h t u) ∙ recorded,
        subst (λ v. Says (signals_of xs) (receive F page pagehide v).reports)
            (sym (page_run-vitals xs (open_page F page c g)))
            (closing_reports F page (signals_of xs) o os),
      )

  -- The LCP that a page first reports when it is hidden.
  abbrev IsLate : List (Signal Number) → Vitals Number → Type 0
  IsLate xs v =
      (values_of lcp v.reports ≡ [])
      × (values_of lcp (news F page (visibility_change true) v)
          ≡ if_positive F page (after_paints F page (lit 0 0) (entries_in paints_of xs)))

  hidden-IsLate :
      (xs : List (Signal Number))
      → page.support.performance_observer ≡ true
      → All IsOpen xs
      → IsLate xs (receive_all F page xs (observe_web_vitals F page))
  hidden-IsLate xs o os =
      let v = receive_all F page xs (observe_web_vitals F page) in
      let (before, after) = hidden_reports F page xs o os in
      (
        before,
        ap (λ l. l ++ values_of lcp (news F page (visibility_change true) v)) (sym before)
            ∙ sym (values_of-append lcp v.reports (news F page (visibility_change true) v))
            ∙ ap (values_of lcp) (sym (reports-receive F page (visibility_change true) v))
            ∙ after,
      )

  -- When that page is hidden instead, the flush of that moment hands over what was recorded
  -- before, and with it no LCP: the LCP is reported right after, if it is positive, and waits in the
  -- buffer.
  pub hidden_waits :
      (c : InitConfig) (g h : Globals) (xs : List (Globals × PageAction Number))
      → page.support.performance_observer ≡ true
      → IsReporting (init {V = Number} c g)
      → All (λ x. IsPlainCall x.1) xs
      → All IsOpen (signals_of xs)
      → let p = visited c g xs in
        let q = page_step F page h (delivers (visibility_change true)) p in
        let new = news F page (visibility_change true) p.vitals in
        (vitals_in (delivered q.tracker) ≡ map to_vital p.vitals.reports)
        × (vitals_in q.tracker.buf ≡ map to_vital new)
        × (values_of lcp p.vitals.reports ≡ [])
        × (values_of lcp new
            ≡ if_positive F page
                (after_paints F page (lit 0 0) (entries_in paints_of (signals_of xs))))
  unfolding open_page page_step vitals_in
  hidden_waits c g h xs o r cs os =
      let p = visited c g xs in
      let new = news F page (visibility_change true) p.vitals in
      let hide : Action Number = Loop.visibility_change true in
      let t = step h hide p.tracker in
      let (all, s) = visited-IsInStep c g xs r cs in
      let empty = hidden-buf h p.tracker s in
      let (_, u) = plain_step h hide p.tracker tt s in
      let (before, after) =
        subst (IsLate (signals_of xs)) (sym (page_run-vitals xs (open_page F page c g)))
          (hidden-IsLate (signals_of xs) o os) in
      (
        ap (λ b. vitals_in (concat (map (λ x. x.events) b))) (forward-sent h new t)
            ∙ left-vitals h hide p.tracker tt s empty
            ∙ all,
        forward-buf h new t u ∙ ap (λ b. vitals_in b ++ map to_vital new) empty,
        before,
        after,
      )
