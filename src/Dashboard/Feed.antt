-- ===== src/Dashboard/Feed.antt =====
-- packages/dashboard-angular/src/components/dashboard.component.ts: the stream of views. A window
-- change and a tick of the timer each start a fetch, and answers arrive in any order. The operators
-- are taken as rxjs documents them: `combineLatest` waits for each of its sources, `switchMap` leaves
-- the fetch before for the new one, an error ends the stream, and `shareReplay(1)` stays subscribed
-- to its source when its subscribers leave. Fetches are numbered in the order they start.
use webalytics.Common.{
  ℕ, suc, String, Bool, true, false, not, ◌&&◌, ◌||◌, Option, none, some, List, [], ◌∷◌,
  if◌then◌else◌, ◌=ℕ◌,
}
use webalytics.Client.Types.{
  WindowSpec, w1h, w24h, IntervalName, minute, hour, day, visitors, path, referrer_host, country,
  device, Filters,
}
use webalytics.Client.Query.{Calendar}
use webalytics.Client.Calls.{Query, summary, realtime, timeseries, breakdown, web_vitals}

pub record Inputs (C : Calendar) : Type 0 where
  pub window : WindowSpec C.Date
  pub site_id : Option String
  pub filters : Option Filters
  pub refresh_ms : ℕ

module _ (C : Calendar) where
  open C use {Date}

  unfoldable pub default_interval : WindowSpec Date → IntervalName
  default_interval w1h = minute
  default_interval w24h = hour
  default_interval _ = day

  -- The requests of one view.
  unfoldable pub fetch_all : Inputs C → WindowSpec Date → List (Query C)
  fetch_all i w =
      summary w i.site_id i.filters
      ∷ realtime i.site_id
      ∷ timeseries w visitors (default_interval w) i.site_id i.filters
      ∷ breakdown w path none none none i.site_id i.filters
      ∷ breakdown w referrer_host none none none i.site_id i.filters
      ∷ breakdown w country none none none i.site_id i.filters
      ∷ breakdown w device none none none i.site_id i.filters
      ∷ web_vitals w none i.site_id i.filters
      ∷ []

  -- A fetch under way: its number and its window.
  pub record Fetch : Type 0 where
    pub id : ℕ
    pub window : WindowSpec Date

  -- `started` lists all fetches, the latest first; `current` is the one that `switchMap` listens to
  -- (a fetch that was answered is over); `shown` is the fetch whose view the page shows; `live` is
  -- whether no fetch of the stream has failed.
  pub record Dashboard : Type 0 where
    pub inputs : Inputs C
    pub active_window : WindowSpec Date
    pub ticked : Bool
    pub live : Bool
    pub current : Option Fetch
    pub started : List Fetch
    pub shown : Option Fetch
    pub destroyed : Bool

  pub data Signal : Type 0 where
    window_change : WindowSpec Date → Signal
    tick : Signal
    answer : (id : ℕ) → Signal
    failure : (id : ℕ) → Signal
    destroy : Signal

  abbrev next_id : List Fetch → ℕ
  next_id [] = 0
  next_id (f ∷ fs) = suc f.id

  abbrev pub the_fetch : WindowSpec Date → Dashboard → Fetch
  the_fetch w s = record { id = next_id s.started; window = w }

  -- `switchMap(([w]) => this.fetchAll(w))`
  unfoldable pub start : WindowSpec Date → Dashboard → Dashboard
  start w s = record s { current = some (the_fetch w s); started = the_fetch w s ∷ s.started }

  -- `timer(0, …)` has not fired yet when `ngOnInit` returns.
  unfoldable pub ng_on_init : Inputs C → Dashboard
  ng_on_init i = record {
    inputs = i;
    active_window = i.window;
    ticked = false;
    live = true;
    current = none;
    started = [];
    shown = none;
    destroyed = false;
  }

  unfoldable pub on_window_change : WindowSpec Date → Dashboard → Dashboard
  unfolding start
  on_window_change w s =
      let s' = record s { active_window = w } in if s.live && s.ticked then start w s' else s'

  -- With a `refreshMs` of 0 the timer fires once.
  unfoldable pub on_tick : Dashboard → Dashboard
  unfolding start
  on_tick s =
      if not s.live || (s.ticked && (s.inputs.refresh_ms =ℕ 0))
      then s
      else start s.active_window (record s { ticked = true })

  abbrev pub awaits : ℕ → Option Fetch → Bool
  awaits id none = false
  awaits id (some f) = f.id =ℕ id

  -- All answers of a fetch are there.
  unfoldable pub on_answer : ℕ → Dashboard → Dashboard
  on_answer id s =
      if awaits id s.current
      then record s { shown = if s.destroyed then s.shown else s.current; current = none }
      else s

  unfoldable pub on_failure : ℕ → Dashboard → Dashboard
  on_failure id s = if awaits id s.current then record s { live = false; current = none } else s

  unfoldable pub receive : Signal → Dashboard → Dashboard
  receive (window_change w) s = on_window_change w s
  receive tick s = on_tick s
  receive (answer id) s = on_answer id s
  receive (failure id) s = on_failure id s
  receive destroy s = record s { destroyed = true }

  unfoldable pub receive_all : List Signal → Dashboard → Dashboard
  unfolding receive
  receive_all [] s = s
  receive_all (x ∷ xs) s = receive_all xs (receive x s)
