-- ===== src/Examples/Viewing.antt =====
-- The Angular dashboard with its requests.
use mathlib.Core.List.{Mem}
use webalytics.Common.{
  ℕ, zero, suc, ◌<◌, String, true, none, some, List, [], ◌∷◌, map, ◌≡◌, refl, ◌⊎◌, arith,
}
use webalytics.Client.Types.{w7d, w24h}
use webalytics.Dashboard.Feed.{Inputs, Fetch, fetch_all}
use webalytics.Dashboard.Feed as Feed
use webalytics.Dashboard.View.{
  View, Child, Component, Event, tick, window_change, resolved, view_of, loading, showing, child_of,
  created, handle, handle_all, template,
}
use webalytics.Dashboard.Answers.{answers_of, AnswersTold}
use webalytics.Dashboard.OwnAnswers.{shows_own_answers}
use webalytics.Dashboard.Arrival.{view_is_current}
use webalytics.Dashboard.AnyOrder.{answers, any_order}
use webalytics.Examples.Data.{hours}

abbrev week : Inputs hours
week = record { window = w7d; site_id = none; filters = none; refresh_ms = 15000 }

abbrev eight : List String
eight = "a" ∷ "b" ∷ "c" ∷ "d" ∷ "e" ∷ "f" ∷ "g" ∷ "h" ∷ []

-- The answers, in the order in which they arrive.
abbrev arrived : List (ℕ × String)
arrived = (7, "h") ∷ (0, "a") ∷ (2, "c") ∷ (1, "b") ∷ (6, "g") ∷ (3, "d") ∷ (5, "f") ∷ (4, "e") ∷ []

abbrev session : List (Event hours String)
session = tick ∷ map (λ p. resolved 0 p.0 p.1) arrived

shows_own_answers_example :
    let s = handle_all hours String session (created hours String week) in
    ((template hours String true s).1 ≡ loading)
    ⊎ (f : Fetch hours) × (shown : List (Child × String)) × (s.feed.shown ≡ some f)
      × ((template hours String true s).1 ≡ showing shown)
      × (map (λ p. p.0) shown ≡ map (child_of hours String) (fetch_all hours week f.window))
      × AnswersTold hours String
          (λ id j a. Mem (resolved id j a) session)
          f.id
          0
          (map (λ p. p.1) shown)
shows_own_answers_example = shows_own_answers hours String week true session

-- The window changes during the first fetch, and all but one of the answers to the second arrive.
abbrev hurried : List (Event hours String)
hurried =
    tick
    ∷ resolved 0 0 "z"
    ∷ window_change w24h
    ∷ map (λ (p : ℕ × String). resolved 1 p.0 p.1)
        ((7, "h") ∷ (0, "a") ∷ (2, "c") ∷ (1, "b") ∷ (6, "g") ∷ (3, "d") ∷ (5, "f") ∷ [])

view_is_current_example :
    let s = handle_all hours String hurried (created hours String week) in
    let t = handle hours String (resolved 1 4 "e") s in
    (t.view ≡ s.view)
    ⊎ (f : Fetch hours) × (rest : List (Fetch hours)) × (v : View String) × (t.feed.started
        ≡ f ∷ rest)
      × (f.window ≡ t.feed.active_window)
      × (t.view ≡ some v)
      × AnswersTold hours String
          (λ id j a. Mem (resolved id j a) (resolved 1 4 "e" ∷ hurried))
          f.id
          0
          (answers_of v)
view_is_current_example = view_is_current hours String week hurried (resolved 1 4 "e")

abbrev first : Fetch hours
first = record { id = 0; window = w7d }

abbrev ticked : Component hours String
ticked = handle hours String tick (created hours String week)

all_answered : (i : ℕ) → i < 8 → answers arrived i ≡ true
all_answered zero h = refl
all_answered (suc zero) h = refl
all_answered (suc (suc zero)) h = refl
all_answered (suc (suc (suc zero))) h = refl
all_answered (suc (suc (suc (suc zero)))) h = refl
all_answered (suc (suc (suc (suc (suc zero))))) h = refl
all_answered (suc (suc (suc (suc (suc (suc zero)))))) h = refl
all_answered (suc (suc (suc (suc (suc (suc (suc zero))))))) h = refl
all_answered (suc (suc (suc (suc (suc (suc (suc (suc n)))))))) h = absurd (omega (arith, h))

any_order_example :
    let t = handle_all hours String (map (λ p. resolved 0 p.0 p.1) arrived) ticked in
    (t.view ≡ view_of eight) × (t.feed.shown ≡ some first)
unfolding handle created Feed.receive Feed.on_tick Feed.start Feed.ng_on_init
any_order_example =
    any_order hours String first eight arrived ticked refl
      (refl, (refl, (refl, (refl, (refl, (refl, (refl, (refl, tt)))))))) all_answered refl refl refl
