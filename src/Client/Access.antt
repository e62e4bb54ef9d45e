-- ===== src/Client/Access.antt =====
-- Which credential a client uses, and what its errors tell.
use text.Mathlib.TextLemmas.{append-nil}
use webalytics.Common.{
  ℕ, String, true, false, Option, none, some, List, ◌+++◌, ◌≡◌, refl, sym, ap, subst, ◌∙◌, arith,
  if◌then◌else◌, strip_slashes, get_or_else, inl, inr, ◌⊎◌, Option-cases,
}
use webalytics.Client.Types.{WindowSpec, ClientConfig, server, public}
use webalytics.Client.Query.{Calendar, expand_window}
use webalytics.Client.Core.{
  Failure, Result, ok, throw, not_on_server, Client, create_client, client_of, is_public, token_of,
  site_of, host_of,
}
use webalytics.Client.Calls.{
  Request, Response, ErrorBody, error, Query, site_override, endpoint, window_of, to_qs, site_path,
  path_with, path_for, request_to, request, error_detail,
}

-- In a browser a client exists exactly for a public configuration; an admin configuration throws.
-- On a server every configuration has one.
pub create_client_guard :
    (config : ClientConfig)
    → (create_client true config
        ≡ (if is_public config then ok (client_of config) else throw not_on_server))
      × (create_client false config ≡ ok (client_of config))
unfolding create_client
create_client_guard (server host token site_id r) = (refl, refl)
create_client_guard (public host token site_id r) = (refl, refl)

result_of : {A : Type 0} {x y : A} → ok x ≡ ok y → y ≡ x
result_of h = cc

threw_not_ok : {A : Type 0} {e : Failure} {x : A} → throw e ≡ ok x → ⊥
threw_not_ok h = cc

Result-cases :
    {A : Type 0} (r : Result A) → ((a : A) × (r ≡ ok a)) ⊎ ((e : Failure) × (r ≡ throw e))
Result-cases (ok a) = inl (a, refl)
Result-cases (throw e) = inr (e, refl)

module _ (C : Calendar) (decimal : ℕ → String) (serialize : List (String × String) → String) where
  module _ (c : Client) where
    path_with-prefix :
        (q : Query C) (o : Option (WindowSpec C.Date)) (path : String)
        → path_with C decimal serialize c q o ≡ ok path
        → (rest : String) × (path ≡ site_path C decimal serialize c q +++ rest)
    path_with-prefix q none path h = ("", result_of h ∙ sym (append-nil _))
    path_with-prefix q (some w) path h = elim (Option-cases (expand_window C w)) [
      | inl e ↦ absurd (threw_not_ok (rw (e, path_with) at h))
      | inr (tw, e) ↦ ("?" +++ serialize (to_qs C decimal tw q), result_of (rw (e, path_with) at h))
    ]

    request-prefix :
        (q : Query C) (r : Request)
        → request C decimal serialize c q ≡ ok r
        → (rest : String) × (r
            ≡ request_to C decimal serialize c (site_path C decimal serialize c q +++ rest))
    unfolding request
    request-prefix q r h = elim (Result-cases (path_for C decimal serialize c q)) [
      | inl (path, e) ↦
          let (rest, p) = path_with-prefix q (window_of C q) path (unfold path_for in e) in
          (rest, result_of (rw (e, request) at h) ∙ ap (request_to C decimal serialize c) p)
      | inr (x, e) ↦ absurd (threw_not_ok (rw (e, request) at h))
    ]

  -- In a browser, every request of a client that the React package's `createClient` returns carries
  -- a public token, and goes to the public routes of the configured host without its trailing
  -- slashes, for the overriding or else the configured site.
  pub browser_request :
      (config : ClientConfig) (c : Client) (q : Query C) (r : Request)
      → create_client true config ≡ ok c
      → request C decimal serialize c q ≡ ok r
      → (is_public config ≡ true)
        × (r.authorization ≡ "Bearer " +++ token_of config)
        × ((rest : String) × (r.url
              ≡ strip_slashes (host_of config)
                +++ (("/public/v1"
                      +++ ("/sites/"
                          +++ (get_or_else (site_override C q) (site_of config)
                              +++ ("/stats/" +++ endpoint C q))))
                    +++ rest)))
  unfolding create_client
  browser_request (server host token site_id v) c q r h k = absurd (threw_not_ok h)
  browser_request (public host token site_id v) c q r h k =
      let (rest, p) = request-prefix c q r k in
      let p' =
        subst
          (λ d. r ≡ request_to C decimal serialize d (site_path C decimal serialize d q +++ rest))
          (result_of h) p in
      (refl, ap (λ s. s.authorization) p', (rest, ap (λ s. s.url) p'))

-- The message of an error response that is a JSON object.
abbrev pub json_message : ErrorBody → String
json_message (error (some m)) = m
json_message _ = ""

-- The detail of a failed request is the message of a JSON error body, and nothing else: the text of
-- any other body is never shown, since `res.json()` has read it before `res.text()` asks for it.
pub error_detail_json_only :
    (parse_error : String → ErrorBody) (res : Response)
    → error_detail parse_error res
      ≡ (if res.body_used then "" else json_message (parse_error res.body))
unfolding error_detail
error_detail_json_only parse_error res = ground arith
