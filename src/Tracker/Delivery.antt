-- ===== src/Tracker/Delivery.antt =====
-- Which events a tracker of packages/tracker/src/core.ts takes, and what it hands over.
use webalytics.Common.{
  ℕ, zero, suc, Bool, true, false, not, ◌&&◌, Option, none, some, List, [], ◌∷◌, ◌++◌, map, ◌≡◌,
  refl, sym, ap, ◌∙◌, arith, concat, concat-append, map-append, append_assoc, append-nil,
  List-cases, Option-cases, ℕ-cases, inl, inr, ◌==◌, if◌then◌else◌,
}
use webalytics.Tracker.Types.{CollectPayload, str, member, empty, InitConfig}
use webalytics.Tracker.Browser.{Url, Globals}
use webalytics.Tracker.Config.{path_of, is_excluded, current_location}
use webalytics.Tracker.State.{State}
use webalytics.Tracker.Event.{pageview_event, track_event, vital_event, outbound_url}
use webalytics.Tracker.Core.{
  send_batch, flush_buffer, emit, pageview, track, flush, set_enabled, on_timer, on_microtask,
  dispatch, on_vital, on_click, unload_flush, init,
}
use webalytics.Tracker.Loop.{
  Action, call_pageview, call_track, call_identify, call_flush, call_set_enabled, timeout,
  microtask, history_change, vital_reported, click, pagehide, visibility_change, step, run,
}
use webalytics.Tracker.Invariant.{
  IsValid, armed_timers, init-IsValid, run-IsValid, emit-sent, flush_buffer-buf,
}

-- Nothing is added, whatever the test.
quiet {ℓ} : {A : Type ℓ} {xs ys : List A} (b : Bool) → ys ≡ xs → ys ≡ xs ++ (if b then [] else [])
quiet true h = h ∙ sym (append-nil _)
quiet false h = h ∙ sym (append-nil _)

no_timer : (o : Option ℕ) → armed_timers o ≡ [] → o ≡ none
no_timer none h = refl
no_timer (some t) h = cc

module _ {V : Type 0} where
  -- What the transport was given, in order.
  abbrev pub delivered : State V → List (CollectPayload V)
  delivered s = concat (map (λ b. b.events) s.sent)

  -- All that the tracker ever took: given to the transport, or waiting in the buffer.
  abbrev pub history : State V → List (CollectPayload V)
  history s = delivered s ++ s.buf

  -- Whether an event offered now is taken: tracking is on and the page's path is not excluded.
  abbrev pub accepts : Globals → State V → Bool
  accepts g s =
      s.enabled && not (is_excluded (path_of (current_location s.config g)) s.config.exclude_paths)

  abbrev pub outbound_events : Option Url → Globals → State V → List (CollectPayload V)
  outbound_events none g s = []
  outbound_events (some u) g s =
      track_event "outbound_click" (some (member "href" (str u.href) empty)) s g ∷ []

  abbrev pub queued_events : ℕ → Globals → State V → List (CollectPayload V)
  queued_events zero g s = []
  queued_events (suc n) g s = pageview_event none s g ∷ []

  -- The events that an action offers.
  abbrev pub offered : Globals → Action V → State V → List (CollectPayload V)
  offered g (call_pageview url) s = pageview_event url s g ∷ []
  offered g (call_track name props) s = track_event name props s g ∷ []
  offered g microtask s = queued_events s.microtasks g s
  offered g history_change s =
      if s.has_window && s.config.auto_pageviews && not (path_of g.location == s.last_url)
      then pageview_event none s g ∷ []
      else []
  offered g (vital_reported v) s =
      if s.has_window && s.config.auto_web_vitals then vital_event v s g ∷ [] else []
  offered g (click target) s =
      if s.has_window && s.config.auto_outbound
      then outbound_events (outbound_url target g) g s
      else []
  offered g _ s = []

  -- The events that an action adds, and those that a run adds.
  abbrev pub taken : Globals → Action V → State V → List (CollectPayload V)
  taken g a s = if accepts g s then offered g a s else []

  unfoldable pub recorded : List (Globals × Action V) → State V → List (CollectPayload V)
  recorded [] s = []
  recorded ((g, a) ∷ rest) s = taken g a s ++ recorded rest (step g a s)

  history-send_batch :
      (s : State V) (es : List (CollectPayload V)) (unload : Bool)
      → s.buf ≡ es
      → history (send_batch s es unload) ≡ history s
  unfolding send_batch
  history-send_batch s [] unload h = refl
  history-send_batch s (e ∷ es) unload h =
      simp (map-append, concat-append, append-nil, append-nil, h)

  pub history-flush_buffer :
      (s : State V) (unload : Bool) → history (flush_buffer s unload) ≡ history s
  unfolding flush_buffer
  history-flush_buffer s unload = history-send_batch s s.buf unload refl

  history-on_timer : (s : State V) → history (on_timer s) ≡ history s
  unfolding on_timer flush_buffer
  history-on_timer s = elim (List-cases s.timers) [
    | inl e ↦ rw (e, on_timer)
    | inr (t, ts, e) ↦
        rw (e, on_timer)
          (history-send_batch (record s { timers = ts; flush_timer = none }) s.buf false refl)
  ]

  pub emit-buf :
      (g : Globals) (p : CollectPayload V) (s : State V)
      → (emit g p s).buf ≡ s.buf ++ (if accepts g s then p ∷ [] else [])
  unfolding emit
  emit-buf g p s = ground (arith, append-nil s.buf)

  history-emit :
      (g : Globals) (p : CollectPayload V) (s : State V)
      → history (emit g p s) ≡ history s ++ (if accepts g s then p ∷ [] else [])
  history-emit g p s = cc (
    emit-sent g p s,
    emit-buf g p s,
    append_assoc (delivered s) s.buf (if accepts g s then p ∷ [] else []),
  )

  history-dispatch :
      (g : Globals) (s : State V)
      → history (dispatch g s)
        ≡ history s
          ++ (if accepts g s
              then (if not (path_of g.location == s.last_url)
                  then pageview_event none s g ∷ []
                  else [])
              else [])
  unfolding dispatch pageview pageview_event
  history-dispatch g s = ground (
    arith,
    append-nil (history s),
    history-emit g (pageview_event none s g) (record s { last_url = path_of g.location }),
  )

  pub history-step :
      (g : Globals) (a : Action V) (s : State V) → history (step g a s) ≡ history s ++ taken g a s
  unfolding step pageview track flush set_enabled on_microtask on_click on_vital unload_flush
      pageview_event
  history-step g (call_pageview url) s = history-emit g _ s
  history-step g (call_track name props) s = history-emit g _ s
  history-step g (call_identify traits) s = quiet (accepts g s) refl
  history-step g call_flush s = quiet (accepts g s) (history-flush_buffer s false)
  history-step g (call_set_enabled b) s = quiet (accepts g s) refl
  history-step g timeout s = quiet (accepts g s) (history-on_timer s)
  history-step g microtask s = elim (ℕ-cases s.microtasks) [
    | inl e ↦ rw (e, on_microtask) (quiet (accepts g s) refl)
    | inr (n, e) ↦
        rw (e, on_microtask)
          (history-emit g (pageview_event none s g) (record s { microtasks = n }))
  ]
  history-step g history_change s = ground (arith, append-nil (history s), history-dispatch g s)
  history-step g (vital_reported v) s =
      ground (arith, append-nil (history s), history-emit g (vital_event v s g) s)
  history-step g (click target) s = elim (Option-cases (outbound_url target g)) [
    | inl e ↦ ground (arith, append-nil (history s))
    | inr (u, e) ↦ ground (
      arith,
      append-nil (history s),
      history-emit g (track_event "outbound_click" (some (member "href" (str u.href) empty)) s g) s,
    )
  ]
  history-step g pagehide s = ground (arith, append-nil (history s), history-flush_buffer s true)
  history-step g (visibility_change hidden) s =
      ground (arith, append-nil (history s), history-flush_buffer s true)

  -- Events are neither lost, nor doubled, nor reordered: over any run, what the transport was
  -- given followed by what is buffered grows by exactly the events that were taken.
  pub history-run :
      (as' : List (Globals × Action V)) (s : State V)
      → history (run as' s) ≡ history s ++ recorded as' s
  unfolding run recorded
  history-run [] s = sym (append-nil (history s))
  history-run ((g, a) ∷ rest) s =
      history-run rest (step g a s)
      ∙ ap (λ h. h ++ recorded rest (step g a s)) (history-step g a s)
      ∙ append_assoc (history s) (taken g a s) (recorded rest (step g a s))

  pub history-run-init :
      (c : InitConfig) (g : Globals) (as' : List (Globals × Action V))
      → history (run as' (init c g)) ≡ recorded as' (init c g)
  unfolding init
  history-run-init c g as' = history-run as' (init c g)

  pub on_timer-buf : (s : State V) → IsValid s → (on_timer s).buf ≡ []
  unfolding on_timer
  on_timer-buf s v = elim (List-cases s.timers) [
    | inl e ↦ rw (e, on_timer) (v.armed (no_timer s.flush_timer (sym v.timers ∙ e)))
    | inr (t, ts, e) ↦
        rw (e, on_timer) (flush_buffer-buf (record s { timers = ts; flush_timer = none }) false)
  ]

  pub delivered_of_empty :
      (s : State V) (es : List (CollectPayload V)) → s.buf ≡ [] → history s ≡ es → delivered s ≡ es
  delivered_of_empty s es b h = sym (append-nil (delivered s)) ∙ cc

  -- Whatever happens to a tracker after `init`, its pending timeout, a call of `flush()` and the
  -- flush on page unload each hand over exactly the events that were taken, once and in order.
  pub flush_delivers :
      (c : InitConfig) (g : Globals) (as' : List (Globals × Action V))
      → let s = run as' (init c g) in
        (delivered (on_timer s) ≡ recorded as' (init c g))
        × (delivered (flush s) ≡ recorded as' (init c g))
        × (delivered (unload_flush s) ≡ recorded as' (init c g))
  unfolding flush unload_flush
  flush_delivers c g as' =
      let s = run as' (init c g) in
      let all : history s ≡ recorded as' (init c g) = history-run-init c g as' in
      let v : IsValid s = run-IsValid as' (init c g) (init-IsValid c g) in
      (
        delivered_of_empty (on_timer s) _ (on_timer-buf s v) (history-on_timer s ∙ all),
        delivered_of_empty (flush_buffer s false) _ (flush_buffer-buf s false)
            (history-flush_buffer s false ∙ all),
        delivered_of_empty (flush_buffer s true) _ (flush_buffer-buf s true)
            (history-flush_buffer s true ∙ all),
      )
