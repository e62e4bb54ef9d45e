-- ===== src/Session.antt =====
-- A tracker with its default transport, in one page: what `flushBuffer` of packages/tracker/src/core.ts
-- hands to `send` of packages/tracker/src/transport.ts, and what reaches the network.
pub mod World
pub mod Growth
pub mod Conserved
use webalytics.Common.{
  String, Bool, true, false, Option, some, List, [], ◌∷◌, ◌++◌, ◌+++◌, map, ◌≡◌, refl, sym, ap, ◌∙◌,
  subst, get_or_else, All-append_left, All-append_right, concat, append_assoc, append-nil,
  map-append, All, strip_slashes,
}
use webalytics.Tracker.Types.{CollectPayload, InitConfig}
use webalytics.Tracker.Config.{resolve_config}
use webalytics.Tracker.Browser.{Globals}
use webalytics.Tracker.State.{Sent, State, custom, default}
use webalytics.Tracker.Core.{has, init}
use webalytics.Tracker.Loop.{Action, step, run}
use webalytics.Tracker.Invariant.{IsBatch}
use webalytics.Tracker.Delivery.{delivered, recorded, history-run-init}
use webalytics.Tracker.Liveness.{hands_over, handed_now, recorded_handed}
use webalytics.Tracker.Runs.{run-append, run-transport}
use webalytics.Tracker.Payload.{sent_well_formed}
use webalytics.Transport.Core.{Browser, Net, created, send}
use webalytics.Transport.Sending.{requests, Bodies, send-Posts}

module _ {V : Type 0} (b : Browser) (stringify : CollectPayload V → Option String) where
  -- The calls of `state.transport.send`, in order. An exception leaves the handler that made the call
  -- (the listener, the timeout or the caller of `flush()`), and the next call is made all the same.
  unfoldable pub send_all : List (Sent V) → Net → Net
  send_all [] n = n
  send_all (x ∷ xs) n = send_all xs (send b stringify x.host x.events x.unload n).0

  -- The network of a page, as its tracker's default transport left it. A transport that the caller
  -- brings makes no request of ours.
  unfoldable pub network : State V → Net
  unfolding send_all
  network s = elim s.transport [ custom ↦ created | default debug ↦ send_all s.sent created ]

  -- The JSON text of an event that has one, and the events that all do.
  abbrev pub text : CollectPayload V → String
  text e = get_or_else (stringify e) ""

  abbrev pub HaveTexts : List (CollectPayload V) → Type 0
  HaveTexts es = All (λ e. stringify e ≡ some (text e)) es

  Bodies-map : (es : List (CollectPayload V)) → HaveTexts es → Bodies b stringify es (map text es)
  Bodies-map [] h = tt
  Bodies-map (e ∷ es) (t, h) = (t, Bodies-map es h)

  -- One request for each event.
  abbrev pub event_posts : String → List (CollectPayload V) → List (String × String)
  event_posts url es = map (λ e. (url, text e)) es

  map-event_posts :
      (url : String) (es : List (CollectPayload V))
      → map (λ body. (url, body)) (map text es) ≡ event_posts url es
  map-event_posts url [] = refl
  map-event_posts url (e ∷ es) = ap (λ ps. (url, text e) ∷ ps) (map-event_posts url es)

  requests-send_all :
      (host : String) (xs : List (Sent V)) (n : Net)
      → b.has_fetch ≡ true
      → All (IsBatch host) xs
      → HaveTexts (concat (map (λ x. x.events) xs))
      → requests (send_all xs n).calls
        ≡ requests n.calls ++ event_posts (host +++ "/collect") (concat (map (λ x. x.events) xs))
  unfolding send_all
  requests-send_all host [] n f h t = sym (append-nil _)
  requests-send_all host (x ∷ xs) n f (batch, h) t =
      let url = host +++ "/collect" in
      let later = concat (map (λ y. y.events) xs) in
      let (sent, calm) =
        send-Posts b stringify x.host x.events x.unload (map text x.events) n f
          (Bodies-map x.events (All-append_left _ x.events later t)) in
      let here : requests (send b stringify x.host x.events x.unload n).0.calls
          ≡ requests n.calls ++ event_posts url x.events =
        sent
        ∙ ap (λ ps. requests n.calls ++ ps) (map-event_posts (x.host +++ "/collect") x.events)
        ∙ ap (λ k. requests n.calls ++ event_posts (k +++ "/collect") x.events) batch.0 in
      requests-send_all host xs (send b stringify x.host x.events x.unload n).0 f h
        (All-append_right _ x.events later t)
      ∙ ap (λ ps. ps ++ event_posts url later) here
      ∙ append_assoc (requests n.calls) (event_posts url x.events) (event_posts url later)
      ∙ ap (λ ps. requests n.calls ++ ps) (sym (map-append (λ e. (url, text e)) x.events later))

  pub network-default :
      (s : State V) (d : Bool) → s.transport ≡ default d → network s ≡ send_all s.sent created
  unfolding network
  network-default s d h = rw h refl

  pub run-default :
      (c : InitConfig) (g : Globals) (xs : List (Globals × Action V))
      → c.transport ≡ false
      → (run xs (init c g)).transport ≡ default (init {V = V} c g).config.debug
  unfolding init resolve_config
  run-default c g xs d = run-transport xs (init c g) ∙ rw d refl

  pub network-run :
      (c : InitConfig) (g : Globals) (xs : List (Globals × Action V))
      → b.has_fetch ≡ true
      → c.transport ≡ false
      → HaveTexts (recorded xs (init c g))
      → requests (network (run xs (init c g))).calls
        ≡ event_posts (strip_slashes c.host +++ "/collect") (delivered (run xs (init c g)))
  unfolding created requests
  network-run c g xs f d t =
      let s = run xs (init c g) in
      let given : HaveTexts (delivered s) =
        All-append_left _ (delivered s) s.buf (subst HaveTexts (sym (history-run-init c g xs)) t) in
      ap (λ n. requests n.calls) (network-default s _ (run-default c g xs d))
      ∙ requests-send_all (strip_slashes c.host) s.sent created f (sent_well_formed c g xs).0 given

  -- In a page whose browser has `fetch`, a tracker with the default transport, whose events so far
  -- all have a JSON text, makes exactly one request for each event that it hands over, in order, to
  -- the configured host; after a timeout, a call of `flush()`, or the page's being hidden or left,
  -- these are all events taken so far.
  pub page_posts :
      (c : InitConfig) (g h : Globals) (a : Action V) (before : List (Globals × Action V))
      → b.has_fetch ≡ true
      → c.transport ≡ false
      → hands_over (has g.window) a ≡ true
      → HaveTexts (recorded before (init c g))
      → let url = strip_slashes c.host +++ "/collect" in
        (requests (network (run before (init c g))).calls
          ≡ event_posts url (delivered (run before (init c g))))
        × (requests (network (step h a (run before (init c g)))).calls
            ≡ event_posts url (recorded before (init c g)))
  unfolding run
  page_posts c g h a before f d hands t =
      let url = strip_slashes c.host +++ "/collect" in
      (
        network-run c g before f d t,
        ap (λ s. requests (network s).calls) (sym (run-append before ((h, a) ∷ []) (init c g)))
            ∙ network-run c g (before ++ (h, a) ∷ []) f d
                (subst HaveTexts (sym (recorded_handed c g h a before hands)) t)
            ∙ ap (λ s. event_posts url (delivered s)) (run-append before ((h, a) ∷ []) (init c g))
            ∙ ap (event_posts url) (handed_now c g h a before hands),
      )
