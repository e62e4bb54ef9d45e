-- ===== src/Client/Angular.antt =====
-- packages/dashboard-angular/src/client.ts: the Angular package's own copy of the client, without a
-- guard and without a revalidation time. Its configuration is read like React's.
use webalytics.Common.{
  ℕ, String, true, not, Option, none, some, List, [], ◌∷◌, ◌++◌, ◌+++◌, if◌then◌else◌, truthy,
  get_or_else, strip_slashes,
}
use mathlib.Core.Option
use webalytics.Client.Types.{
  When, date, text, WindowSpec, range, w1h, w24h, w7d, w30d, w90d, TimeWindow, Filters, filter_key,
  ClientConfig, metric_text, interval_text, dimension_text, group_text,
}
use webalytics.Client.Query.{Calendar, put, spread, join, both, window_parts}
use webalytics.Client.Core.{
  Result, ok, throw, invalid_date, invalid_json, http, host_of, site_of, token_of, is_public,
}
use webalytics.Client.Calls.{
  ErrorBody, not_json, null, error, Response, text_of, Query, realtime, summary, timeseries,
  breakdown, web_vitals,
}

pub record AngularClient : Type 0 where
  pub config : ClientConfig
  pub bearer : String
  pub base_path : String
  pub base : String

unfoldable pub angular_client : ClientConfig → AngularClient
angular_client config = record {
  config = config;
  bearer = token_of config;
  base_path = if is_public config then "/public/v1" else "/v1";
  base = strip_slashes (host_of config);
}

unfoldable pub filter_entries :
    Filters → List (String × Option String) → List (String × Option String)
filter_entries [] out = out
filter_entries ((k, []) ∷ f) out = filter_entries f out
filter_entries ((k, v ∷ vs) ∷ f) out =
    filter_entries f (put (filter_key k) (some (join (v ∷ vs))) out)

unfoldable pub filters_to_qs : Option Filters → List (String × Option String)
filters_to_qs none = []
filters_to_qs (some f) = filter_entries f []

unfoldable pub search_params :
    List (String × Option String) → List (String × String) → List (String × String)
search_params [] p = p
search_params ((k, none) ∷ parts) p = search_params parts p
search_params ((k, some v) ∷ parts) p =
    search_params parts (if not (truthy v) then p else put k v p)

module _ (C : Calendar) where
  open C use {Date, now, back_hours, back_days, to_iso_string}

  unfoldable pub to_iso : When Date → Option String
  to_iso (text d) = some d
  to_iso (date d) = to_iso_string d

  unfoldable pub expand_window : WindowSpec Date → Option TimeWindow
  expand_window (range from to) = both C (to_iso from) (to_iso to)
  expand_window w1h = both C (to_iso_string (back_hours 1 now)) (to_iso_string now)
  expand_window w24h = both C (to_iso_string (back_hours 24 now)) (to_iso_string now)
  expand_window w7d = both C (to_iso_string (back_days 7 now)) (to_iso_string now)
  expand_window w30d = both C (to_iso_string (back_days 30 now)) (to_iso_string now)
  expand_window w90d = both C (to_iso_string (back_days 90 now)) (to_iso_string now)

  module _ (decimal : ℕ → String) (serialize : List (String × String) → String)
      (c : AngularClient) where
    abbrev site_path : Option String → String → String
    site_path site endpoint =
        c.base_path
        +++ ("/sites/" +++ (get_or_else site (site_of c.config) +++ ("/stats/" +++ endpoint)))

    -- `…?${toQS({ ...expandWindow(window), ...own, ...filtersToQS(filters) })}`
    abbrev pub with_window :
        String → Option TimeWindow → List (String × Option String) → Option Filters → Result String
    with_window path none own filters = throw invalid_date
    with_window path (some w) own filters = ok (
        path
        +++ ("?"
            +++ serialize
                (search_params (spread (window_parts w ++ own) (filters_to_qs filters)) [])))

    -- The path that each method hands to `call`.
    unfoldable pub path_for : Query C → Result String
    unfolding search_params filters_to_qs expand_window
    path_for (realtime site) = ok (site_path site "realtime")
    path_for (summary w site filters) =
        with_window (site_path site "summary") (expand_window w) [] filters
    path_for (timeseries w metric interval site filters) =
        with_window (site_path site "timeseries") (expand_window w)
          (("metric", some (metric_text metric)) ∷ ("interval", some (interval_text interval)) ∷ [])
          filters
    path_for (breakdown w dimension metric limit offset site filters) =
        with_window (site_path site "breakdown") (expand_window w)
          (("dimension", some (dimension_text dimension))
            ∷ ("metric", Option.map metric_text metric)
            ∷ ("limit", Option.map decimal limit)
            ∷ ("offset", Option.map decimal offset)
            ∷ [])
          filters
    path_for (web_vitals w group_by site filters) =
        with_window (site_path site "web-vitals") (expand_window w)
          (("group_by", Option.map group_text group_by) ∷ []) filters

    -- The URL and the `Authorization` header of the request.
    unfoldable pub request : Query C → Result (String × String)
    unfolding path_for
    request q = elim (path_for q) [
      | ok path ↦ ok (c.base +++ path, "Bearer " +++ c.bearer)
      | throw e ↦ throw e
    ]

module _ (parse_error : String → ErrorBody) where
  -- The detail of a failed response. Its body is read by `res.json()`; where that throws, or the
  -- value is `null`, the `catch` clause asks for the text of a body that was read.
  unfoldable pub detail : Response → String
  detail res =
      let read = record res { body_used = true } in
      let of_text = get_or_else (text_of read) "" in
      if res.body_used then of_text else elim (parse_error res.body) [
        | not_json ↦ of_text
        | null ↦ of_text
        | error message ↦ get_or_else message ""
      ]

  module _ {T : Type 0} (parse : String → Option T) where
    -- What `call` makes of a response.
    unfoldable pub receive : String → Response → Result T
    unfolding detail
    receive url res =
        let shown = detail res in
        if res.is_ok
        then elim (parse res.body) [ none ↦ throw invalid_json | some body ↦ ok body ]
        else throw (
            http (
              "webalytics: "
              +++ (res.status
                  +++ (" "
                      +++ (res.status_text
                          +++ ((if truthy shown then " — " +++ shown else "")
                              +++ (" (" +++ (url +++ ")"))))))))
