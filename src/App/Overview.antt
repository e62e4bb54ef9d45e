-- ===== src/App/Overview.antt =====
-- apps/dashboard-next/app/overview/page.tsx: the React dashboard on the server, with the settings of
-- lib/env.ts.
use webalytics.Common.{
  ℕ, String, false, none, some, List, [], ◌∷◌, map, ◌+++◌, ◌≡◌, ◌⊎◌, inl, inr, refl, sym, ap, ap₂,
  suc, ◌∙◌, All, length, strip_slashes,
}
use text.Mathlib.TextLemmas.{append-nil}
use webalytics.Client.Types.{w7d, TimeWindow, server}
use webalytics.Client.Query.{Calendar, expand_window}
use webalytics.Client.Core.{Result, ok, throw, Client, create_client, client_of}
use webalytics.Client.Calls.{
  Request, Query, request, request_to, site_path, path_with, path_for, window_of, site_override,
  endpoint, to_qs,
}
use webalytics.Dashboard.Layout.{
  dashboard, summary_cards, realtime_card, timeseries_chart, top_list_query, web_vitals_cards,
}
use webalytics.App.Env.{Sources, api_host, api_token, site_uuid}

module _ (C : Calendar) (decimal : ℕ → String) (serialize : List (String × String) → String) where
  abbrev ask : Result Client → Result (List (Result Request))
  ask (throw e) = throw e
  ask (ok client) = ok (map (request C decimal serialize client) (dashboard C (some w7d) none none))

  abbrev with_site : String → String → Result String → Result (List (Result Request))
  with_site host token (throw e) = throw e
  with_site host token (ok site) = ask (create_client false (server host token site none))

  abbrev with_token : String → Result String → Result String → Result (List (Result Request))
  with_token host (throw e) site = throw e
  with_token host (ok token) site = with_site host token site

  abbrev with_host : Result String → Result String → Result String → Result (List (Result Request))
  with_host (throw e) token site = throw e
  with_host (ok host) token site = with_token host token site

  -- `OverviewPage`: the requests of the dashboard that it places. The settings are read in this
  -- order, and the first that is missing throws.
  unfoldable pub overview_page : Sources → Result (List (Result Request))
  overview_page p = with_host (api_host p) (api_token p) (site_uuid p)

  -- A request with the token, to the API's routes of the site on the host.
  abbrev pub IsAuthorized : String → String → String → Request → Type 0
  IsAuthorized host token site r =
      (r.authorization ≡ "Bearer " +++ token)
      × ((name rest : String) × (r.url
            ≡ strip_slashes host
              +++ (("/v1" +++ ("/sites/" +++ (site +++ ("/stats/" +++ name)))) +++ rest)))

  -- A query without a site of its own, for the last week or for no window.
  abbrev IsAsked : Query C → Type 0
  IsAsked q = (site_override C q ≡ none) × ((window_of C q ≡ none) ⊎ (window_of C q ≡ some w7d))

  module _ (host token site : String) (tw : TimeWindow)
      (printed : expand_window C w7d ≡ some tw) where
    abbrev client : Client
    client = client_of (server host token site none)

    authorized :
        (q : Query C) (rest : String)
        → site_override C q ≡ none
        → IsAuthorized host token site (
            request_to C decimal serialize client (site_path C decimal serialize client q +++ rest))
    authorized q rest h = (refl, (endpoint C q, rest, rw h refl))

    path-weekly :
        (q : Query C)
        → window_of C q ≡ some w7d
        → path_for C decimal serialize client q
          ≡ ok (
              site_path C decimal serialize client q +++ ("?" +++ serialize (to_qs C decimal tw q)))
    unfolding path_for
    path-weekly q h = ap (path_with C decimal serialize client q) h ∙ rw (printed, path_with) refl

    path-live :
        (q : Query C)
        → window_of C q ≡ none
        → path_for C decimal serialize client q ≡ ok (site_path C decimal serialize client q +++ "")
    unfolding path_for
    path-live q h = ap (path_with C decimal serialize client q) h ∙ ap ok (sym (append-nil _))

    request_of_path :
        (q : Query C) (path : String)
        → path_for C decimal serialize client q ≡ ok path
        → request C decimal serialize client q ≡ ok (request_to C decimal serialize client path)
    unfolding request
    request_of_path q path h = rw (h, request) refl

    -- What a request of the page is: answered by one that is authorized.
    abbrev IsSent : Query C → Type 0
    IsSent q =
        (r : Request) × (request C decimal serialize client q ≡ ok r)
        × IsAuthorized host token site r

    query-IsSent : (q : Query C) → IsAsked q → IsSent q
    query-IsSent q (h, inl n) = (
      request_to C decimal serialize client (site_path C decimal serialize client q +++ ""),
      request_of_path q _ (path-live q n),
      authorized q "" h,
    )
    query-IsSent q (h, inr w) =
        let rest = "?" +++ serialize (to_qs C decimal tw q) in
        (
          request_to C decimal serialize client (site_path C decimal serialize client q +++ rest),
          request_of_path q _ (path-weekly q w),
          authorized q rest h,
        )

    queries-IsSent :
        (qs : List (Query C))
        → All IsAsked qs
        → (rs : List Request) × (map (request C decimal serialize client) qs ≡ map ok rs)
          × (length rs ≡ length qs)
          × All (IsAuthorized host token site) rs
    queries-IsSent [] h = ([], refl, refl, tt)
    queries-IsSent (q ∷ qs) (a, h) =
        let (r, sent, fine) = query-IsSent q a in
        let (rs, all, count, rest) = queries-IsSent qs h in
        (r ∷ rs, ap₂ (λ x xs. x ∷ xs) sent all, ap suc count, (fine, rest))

    -- With the three settings there, and dates that can be printed, the overview page makes its
    -- eight requests, and each carries the token of the server and goes to the API's routes of the
    -- configured site, on the configured host without its trailing slashes.
    pub overview_authorized :
        (p : Sources)
        → api_host p ≡ ok host
        → api_token p ≡ ok token
        → site_uuid p ≡ ok site
        → (rs : List Request) × (overview_page p ≡ ok (map ok rs))
          × (length rs ≡ 8)
          × All (IsAuthorized host token site) rs
    unfolding overview_page create_client dashboard summary_cards realtime_card timeseries_chart
        top_list_query web_vitals_cards
    overview_authorized p h t s =
        let asked : All IsAsked (dashboard C (some w7d) none none) = (
          (refl, inr refl),
          (
            (refl, inl refl),
            (
              (refl, inr refl),
              (
                (refl, inr refl),
                ((refl, inr refl), ((refl, inr refl), ((refl, inr refl), ((refl, inr refl), tt)))),
              ),
            ),
          ),
        ) in
        let (rs, all, count, fine) = queries-IsSent (dashboard C (some w7d) none none) asked in
        (rs, rw (h, t, s) (ap ok all), count, fine)
