-- ===== src/Client/Query.antt =====
-- packages/dashboard-react/src/client.ts: windows, filters and query strings. A JavaScript object
-- is the list of its properties in insertion order; writing to a property that is there keeps its
-- place. Dates are a parameter: the clock, the calendar in local time and `toISOString`, which
-- throws on an invalid date (`none`).
use webalytics.Common.{
  ℕ, String, not, Option, none, some, List, [], ◌∷◌, ◌==◌, ◌+++◌, if◌then◌else◌, truthy,
}
use webalytics.Client.Types.{
  When, date, text, WindowSpec, range, w1h, w24h, w7d, w30d, w90d, TimeWindow, Filters, filter_key,
}

pub record Calendar : Type 1 where
  pub Date : Type 0
  pub now : Date
  pub back_hours : ℕ → Date → Date
  pub back_days : ℕ → Date → Date
  pub to_iso_string : Date → Option String

module _ {ℓ} {V : Type ℓ} where
  -- `o[key] = value`
  unfoldable pub put : String → V → List (String × V) → List (String × V)
  put key value [] = (key, value) ∷ []
  put key value ((k, v) ∷ o) = if k == key then (k, value) ∷ o else (k, v) ∷ put key value o

  -- `{ ...o, ...props }`
  unfoldable pub spread : List (String × V) → List (String × V) → List (String × V)
  unfolding put
  spread o [] = o
  spread o ((k, v) ∷ props) = spread (put k v o) props

  unfoldable pub lookup : String → List (String × V) → Option V
  lookup key [] = none
  lookup key ((k, v) ∷ o) = if k == key then some v else lookup key o

-- `v.join(",")`
unfoldable pub join : List String → String
join [] = ""
join (v ∷ []) = v
join (v ∷ w ∷ vs) = v +++ ("," +++ join (w ∷ vs))

-- The loop of `filtersToQS` over the entries.
unfoldable pub filter_entries :
    Filters → List (String × Option String) → List (String × Option String)
unfolding put
filter_entries [] out = out
filter_entries ((k, []) ∷ f) out = filter_entries f out
filter_entries ((k, v ∷ vs) ∷ f) out =
    filter_entries f (put (filter_key k) (some (join (v ∷ vs))) out)

unfoldable pub filters_to_qs : Option Filters → List (String × Option String)
unfolding filter_entries
filters_to_qs none = []
filters_to_qs (some f) = filter_entries f []

-- The pairs of the `URLSearchParams` that `toQS` fills.
unfoldable pub search_params :
    List (String × Option String) → List (String × String) → List (String × String)
unfolding put
search_params [] p = p
search_params ((k, none) ∷ parts) p = search_params parts p
search_params ((k, some v) ∷ parts) p =
    search_params parts (if not (truthy v) then p else put k v p)

module _ (C : Calendar) where
  open C use {Date, now, back_hours, back_days, to_iso_string}

  unfoldable pub to_iso : When Date → Option String
  to_iso (text d) = some d
  to_iso (date d) = to_iso_string d

  abbrev pub both : Option String → Option String → Option TimeWindow
  both none to = none
  both (some from) none = none
  both (some from) (some to) = some (record { from = from; to = to })

  abbrev until_now : Date → Option TimeWindow
  until_now from = both (to_iso_string from) (to_iso_string now)

  unfoldable pub expand_window : WindowSpec Date → Option TimeWindow
  unfolding to_iso
  expand_window (range from to) = both (to_iso from) (to_iso to)
  expand_window w1h = until_now (back_hours 1 now)
  expand_window w24h = until_now (back_hours 24 now)
  expand_window w7d = until_now (back_days 7 now)
  expand_window w30d = until_now (back_days 30 now)
  expand_window w90d = until_now (back_days 90 now)

abbrev pub window_parts : TimeWindow → List (String × Option String)
window_parts w = ("from", some w.from) ∷ ("to", some w.to) ∷ []
