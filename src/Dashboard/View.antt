-- ===== src/Dashboard/View.antt =====
-- packages/dashboard-angular/src/components/dashboard.component.ts: the component with the promises
-- of its client. Each fetch makes eight requests, whose promises settle in any order; the answers
-- of all eight make a view, which the template hands to the child components. An answer is of any
-- type `A`.
use webalytics.Common.{ℕ, Bool, Option, none, some, List, [], ◌∷◌, if◌then◌else◌, ◌=ℕ◌, length}
use webalytics.Client.Types.{WindowSpec}
use webalytics.Client.Query.{Calendar}
use webalytics.Client.Calls as Calls
use webalytics.Client.Calls.{Query}
use webalytics.Dashboard.Feed as Feed
use webalytics.Dashboard.Feed.{Inputs, Dashboard, awaits, receive, ng_on_init}
use webalytics.Dashboard.Slots.{no_values, fill, all_there}

pub record View (A : Type 0) : Type 0 where
  pub summary : A
  pub realtime : A
  pub timeseries : A
  pub pages : A
  pub referrers : A
  pub countries : A
  pub devices : A
  pub vitals : A

pub data Child : Type 0 where
  summary_cards realtime timeseries_chart top_list web_vitals_cards : Child

-- What stands under the picker: the note that the analytics are loading, or the child components,
-- in order, each with its data.
pub data Body (A : Type 0) : Type 0 where
  loading : Body A
  showing : List (Child × A) → Body A

module _ {A : Type 0} where
  -- The array of the answers, taken apart.
  abbrev pub view_of : List A → Option (View A)
  view_of (a ∷ b ∷ c ∷ d ∷ e ∷ f ∷ g ∷ h ∷ []) = some (record {
    summary = a;
    realtime = b;
    timeseries = c;
    pages = d;
    referrers = e;
    countries = f;
    devices = g;
    vitals = h;
  })
  view_of _ = none

  abbrev pub children : View A → List (Child × A)
  children v =
      (summary_cards, v.summary)
      ∷ (realtime, v.realtime)
      ∷ (timeseries_chart, v.timeseries)
      ∷ (top_list, v.pages)
      ∷ (top_list, v.referrers)
      ∷ (top_list, v.countries)
      ∷ (top_list, v.devices)
      ∷ (web_vitals_cards, v.vitals)
      ∷ []

  abbrev pub body_of : Option (View A) → Body A
  body_of none = loading
  body_of (some v) = showing (children v)

module _ (C : Calendar) (A : Type 0) where
  open C use {Date}

  -- `values` are those of the fetch that is under way; `view` is what `async` holds.
  pub record Component : Type 0 where
    pub feed : Dashboard C
    pub values : List (Option A)
    pub view : Option (View A)

  -- What happens to the component. The promise of request `i` of a fetch resolves to an answer, or
  -- one of the promises of the fetch rejects.
  pub data Event : Type 0 where
    window_change : WindowSpec Date → Event
    tick : Event
    resolved : (id i : ℕ) → A → Event
    rejected : (id : ℕ) → Event
    destroy : Event

  unfoldable pub created : Inputs C → Component
  created i = record { feed = ng_on_init C i; values = no_values 8; view = none }

  -- A fetch that has just started has no answers yet.
  abbrev pub move : Dashboard C → Component → Component
  move f s = record s {
    feed = f;
    values = if length f.started =ℕ length s.feed.started then s.values else no_values 8;
  }

  abbrev pub emit : ℕ → Option (List A) → Component → Component
  emit id none s = s
  emit id (some as') s = record s {
    feed = receive C (Feed.answer id) s.feed;
    view = if s.feed.destroyed then s.view else view_of as';
  }

  unfoldable pub on_resolved : ℕ → ℕ → A → Component → Component
  on_resolved id i a s =
      let vs = fill i a s.values in
      if awaits C id s.feed.current then emit id (all_there vs) (record s { values = vs }) else s

  unfoldable pub handle : Event → Component → Component
  unfolding on_resolved
  handle (window_change w) s = move (receive C (Feed.window_change w) s.feed) s
  handle tick s = move (receive C Feed.tick s.feed) s
  handle (resolved id i a) s = on_resolved id i a s
  handle (rejected id) s = move (receive C (Feed.failure id) s.feed) s
  handle destroy s = move (receive C Feed.destroy s.feed) s

  unfoldable pub handle_all : List Event → Component → Component
  unfolding handle
  handle_all [] s = s
  handle_all (x ∷ xs) s = handle_all xs (handle x s)

  -- The template: the active window of the picker, where it is shown, and what stands below.
  unfoldable pub template : Bool → Component → Option (WindowSpec Date) × Body A
  template show_window_picker s =
      (if show_window_picker then some s.feed.active_window else none, body_of s.view)

  -- The child component that displays the answer to a query.
  abbrev pub child_of : Query C → Child
  child_of (Calls.realtime site) = realtime
  child_of (Calls.summary w site f) = summary_cards
  child_of (Calls.timeseries w m i site f) = timeseries_chart
  child_of (Calls.breakdown w d m l o site f) = top_list
  child_of (Calls.web_vitals w g site f) = web_vitals_cards
