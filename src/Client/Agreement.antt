-- ===== src/Client/Agreement.antt =====
-- The clients of packages/dashboard-react and packages/dashboard-angular side by side.
use webalytics.Common.{
  ℕ, String, not, Option, none, some, List, [], ◌∷◌, ◌++◌, ◌+++◌, ◌≡◌, refl, ap, ◌∙◌, if◌then◌else◌,
  truthy, strip_slashes, arith,
}
use webalytics.Client.Types.{
  When, date, text, WindowSpec, range, w1h, w24h, w7d, w30d, w90d, TimeWindow, Filters, filter_key,
  ClientConfig,
}
use webalytics.Client.Query as React
use webalytics.Client.Query.{Calendar, put, join}
use webalytics.Client.Core.{Result, ok, throw, client_of, invalid_date, host_of, token_of}
use webalytics.Client.Calls as Calls
use webalytics.Client.Calls.{
  ErrorBody, Response, Query, realtime, summary, timeseries, breakdown, web_vitals, Request, parts,
  to_qs,
}
use webalytics.Client.Angular as Angular

filter_entries_agree :
    (f : Filters) (out : List (String × Option String))
    → Angular.filter_entries f out ≡ React.filter_entries f out
unfolding Angular.filter_entries React.filter_entries
filter_entries_agree [] out = refl
filter_entries_agree ((k, []) ∷ f) out = filter_entries_agree f out
filter_entries_agree ((k, v ∷ vs) ∷ f) out =
    filter_entries_agree f (put (filter_key k) (some (join (v ∷ vs))) out)

filters_to_qs_agree : (f : Option Filters) → Angular.filters_to_qs f ≡ React.filters_to_qs f
unfolding Angular.filters_to_qs React.filters_to_qs
filters_to_qs_agree none = refl
filters_to_qs_agree (some f) = filter_entries_agree f []

search_params_agree :
    (ps : List (String × Option String)) (p : List (String × String))
    → Angular.search_params ps p ≡ React.search_params ps p
unfolding Angular.search_params React.search_params
search_params_agree [] p = refl
search_params_agree ((k, none) ∷ ps) p = search_params_agree ps p
search_params_agree ((k, some v) ∷ ps) p =
    search_params_agree ps (if not (truthy v) then p else put k v p)

module _ (C : Calendar) where
  to_iso_agree : (w : When C.Date) → Angular.to_iso C w ≡ React.to_iso C w
  unfolding Angular.to_iso React.to_iso
  to_iso_agree (text d) = refl
  to_iso_agree (date d) = refl

  expand_window_agree :
      (w : WindowSpec C.Date) → Angular.expand_window C w ≡ React.expand_window C w
  unfolding Angular.expand_window React.expand_window
  expand_window_agree (range from to) = rw (to_iso_agree from, to_iso_agree to) refl
  expand_window_agree w1h = refl
  expand_window_agree w24h = refl
  expand_window_agree w7d = refl
  expand_window_agree w30d = refl
  expand_window_agree w90d = refl

  module _ (decimal : ℕ → String) (serialize : List (String × String) → String)
      (config : ClientConfig) where
    abbrev react_path :
        String → Option TimeWindow → List (String × Option String) → Option Filters → Result String
    react_path path w own f = elim w [
      | none ↦ throw invalid_date
      | some tw ↦ ok (
          path
          +++ ("?"
              +++ serialize (
                  React.search_params
                    (React.spread (React.window_parts tw ++ own) (React.filters_to_qs f)) [])))
    ]

    with_window_agree :
        (path : String) (w : Option TimeWindow) (own : List (String × Option String))
        (f : Option Filters)
        → Angular.with_window C decimal serialize (Angular.angular_client config) path w own f
          ≡ react_path path w own f
    with_window_agree path none own f = refl
    with_window_agree path (some w) own f =
        rw
          (
            search_params_agree
                (React.spread (React.window_parts w ++ own) (Angular.filters_to_qs f)) [],
            filters_to_qs_agree f,
          )
          refl

    path_agree :
        (path : String) (w : WindowSpec C.Date) (own : List (String × Option String))
        (f : Option Filters)
        → Angular.with_window C decimal serialize
            (Angular.angular_client config)
            path
            (Angular.expand_window C w)
            own
            f
          ≡ react_path path (React.expand_window C w) own f
    path_agree path w own f =
        ap
          (λ o.
            Angular.with_window C decimal serialize (Angular.angular_client config) path o own f)
          (expand_window_agree w)
        ∙ with_window_agree path (React.expand_window C w) own f

    path_for_agree :
        (q : Query C)
        → Angular.path_for C decimal serialize (Angular.angular_client config) q
          ≡ Calls.path_for C decimal serialize (client_of config) q
    unfolding Angular.path_for Calls.path_for Calls.to_qs Calls.parts Angular.angular_client
    path_for_agree (realtime site) = refl
    path_for_agree (summary w site f) = path_agree _ w _ f
    path_for_agree (timeseries w m i site f) = path_agree _ w _ f
    path_for_agree (breakdown w d m l o site f) = path_agree _ w _ f
    path_for_agree (web_vitals w g site f) = path_agree _ w _ f

    abbrev pub url_and_header : Result Request → Result (String × String)
    url_and_header (ok r) = ok (r.url, r.authorization)
    url_and_header (throw e) = throw e

    request_of_path :
        (path : Result String)
        → (elim path [
          | ok p ↦ ok (strip_slashes (host_of config) +++ p, "Bearer " +++ token_of config)
          | throw e ↦ throw e
        ])
          ≡ url_and_header (elim path [
            | ok p ↦ ok (Calls.request_to C decimal serialize (client_of config) p)
            | throw e ↦ throw e
          ])
    request_of_path (ok p) = refl
    request_of_path (throw e) = refl

    -- The two packages' clients make the same requests: for every configuration and every query, the
    -- Angular client asks for the URL, with the token, that a React client of that configuration asks
    -- for, and throws where that one does.
    pub clients_agree :
        (q : Query C)
        → Angular.request C decimal serialize (Angular.angular_client config) q
          ≡ url_and_header (Calls.request C decimal serialize (client_of config) q)
    unfolding Angular.request Calls.request Angular.angular_client
    clients_agree q =
        ap
          (λ path. elim path [
            | ok p ↦ ok (strip_slashes (host_of config) +++ p, "Bearer " +++ token_of config)
            | throw e ↦ throw e
          ])
          (path_for_agree q)
        ∙ request_of_path (Calls.path_for C decimal serialize (client_of config) q)

module _ (parse_error : String → ErrorBody) where
  details_agree :
      (res : Response) → Angular.detail parse_error res ≡ Calls.error_detail parse_error res
  unfolding Angular.detail Calls.error_detail
  details_agree res = ground arith

  -- The two clients make the same of every response: the parsed body, or the same error.
  pub receives_agree :
      {T : Type 0} (parse : String → Option T) (url : String) (res : Response)
      → Angular.receive parse_error parse url res ≡ Calls.receive parse_error parse url res
  unfolding Angular.receive Calls.receive
  receives_agree parse url res = ground (arith, details_agree res)
