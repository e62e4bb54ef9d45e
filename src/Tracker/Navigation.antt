-- ===== src/Tracker/Navigation.antt =====
-- Automatic pageviews of a single page application: `dispatch` and the initial pageview.
use webalytics.Common.{
  ℕ, ◌+◌, String, true, none, List, [], ◌∷◌, map, ◌≡◌, refl, ap, ◌∙◌, arith, length, length-append,
  ◌==◌, eq_iff, ap₂, All, All-append, if_elim, not, ◌&&◌, ◌++◌, if◌then◌else◌,
}
use webalytics.Tracker.Types.{CollectPayload}
use webalytics.Tracker.Browser.{Globals}
use webalytics.Tracker.Config.{path_of, is_excluded}
use webalytics.Tracker.State.{State}
use webalytics.Tracker.Event.{pageview_event}
use webalytics.Tracker.Core.{emit, pageview, dispatch}
use webalytics.Tracker.Loop.{Action, history_change, step, run}
use webalytics.Tracker.Delivery.{accepts, taken, recorded, history, history-run}

-- How often a sequence of paths leaves the path before it.
pub changes : String → List String → ℕ
changes last [] = 0
changes last (p ∷ ps) = (if p == last then 0 else 1) + changes p ps

abbrev pub path_in : Globals → String
path_in g = path_of g.location

module _ {V : Type 0} where
  -- A tracker that patched the history, is switched on and excludes no path.
  abbrev pub Follows : State V → Type 0
  Follows s =
      (s.has_window ≡ true)
      × (s.config.auto_pageviews ≡ true)
      × (s.enabled ≡ true)
      × (s.config.exclude_paths ≡ none)

  abbrev pub navigations : List Globals → List (Globals × Action V)
  navigations gs = map (λ g. (g, history_change)) gs

  emit_frame :
      (g : Globals) (p : CollectPayload V) (s : State V)
      → ((emit g p s).last_url ≡ s.last_url)
        × ((emit g p s).has_window ≡ s.has_window)
        × ((emit g p s).config ≡ s.config)
        × ((emit g p s).enabled ≡ s.enabled)
  unfolding emit
  emit_frame g p s = (ground arith, ground arith, ground arith, ground arith)

  dispatch-last_url : (g : Globals) (s : State V) → (dispatch g s).last_url ≡ path_in g
  unfolding dispatch pageview
  dispatch-last_url g s =
      let moved = record s { last_url = path_in g } in
      ground
        (arith, eq_iff (path_in g) s.last_url, emit_frame g (pageview_event none moved g) moved)

  step-last_url :
      (g : Globals) (s : State V) → Follows s → (step g history_change s).last_url ≡ path_in g
  unfolding step
  step-last_url g s h = ground (arith, dispatch-last_url g s)

  step-Follows : (g : Globals) (s : State V) → Follows s → Follows (step g history_change s)
  unfolding step dispatch pageview
  step-Follows g s h =
      let moved = record s { last_url = path_in g } in
      ground (arith, emit_frame g (pageview_event none moved g) moved)

  length-taken :
      (g : Globals) (s : State V)
      → Follows s
      → length (taken g history_change s) ≡ (if path_in g == s.last_url then 0 else 1)
  unfolding is_excluded
  length-taken g s h = ground arith

  length-recorded :
      (gs : List Globals) (s : State V)
      → Follows s
      → length (recorded (navigations gs) s) ≡ changes s.last_url (map path_in gs)
  unfolding recorded changes
  length-recorded [] s h = refl
  length-recorded (g ∷ gs) s h =
      let s' = step g history_change s in
      let ih = length-recorded gs s' (step-Follows g s h) in
      length-append (taken g history_change s) (recorded (navigations gs) s')
      ∙ ap₂ ◌+◌ (length-taken g s h)
          (ih ∙ ap (λ last. changes last (map path_in gs)) (step-last_url g s h))

  abbrev pub IsPageview : CollectPayload V → Type 0
  IsPageview e = e.event ≡ "pageview"

  taken-IsPageview : (g : Globals) (s : State V) → All IsPageview (taken g history_change s)
  unfolding pageview_event
  taken-IsPageview g s =
      if_elim (All IsPageview) (accepts g s)
        (λ _.
          if_elim (All IsPageview)
            (s.has_window && s.config.auto_pageviews && not (path_in g == s.last_url))
            (λ _. (refl, tt)) (λ _. tt))
        (λ _. tt)

  recorded-IsPageview :
      (gs : List Globals) (s : State V) → All IsPageview (recorded (navigations gs) s)
  unfolding recorded
  recorded-IsPageview [] s = tt
  recorded-IsPageview (g ∷ gs) s =
      let s' = step g history_change s in
      All-append IsPageview (taken g history_change s) (recorded (navigations gs) s')
        (taken-IsPageview g s) (recorded-IsPageview gs s')

  -- To what a tracker that follows the history has handed over or buffered, navigations add one
  -- pageview for each change of the path, none where a navigation leaves the path as it was, and
  -- nothing else.
  pub navigation_count :
      (gs : List Globals) (s : State V)
      → Follows s
      → (more : List (CollectPayload V)) × (history (run (navigations gs) s) ≡ history s ++ more)
        × (length more ≡ changes s.last_url (map path_in gs))
        × All IsPageview more
  navigation_count gs s h = (
    recorded (navigations gs) s,
    history-run (navigations gs) s,
    length-recorded gs s h,
    recorded-IsPageview gs s,
  )
