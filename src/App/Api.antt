-- ===== src/App/Api.antt =====
-- apps/dashboard-next/lib/api.ts: the server's API client. The serialisation of `URLSearchParams`,
-- `toISOString` and decimal printing are parameters; the cut of the error's text is that of `slice`.
use webalytics.Common.{
  ℕ, zero, suc, ◌-◌, ◌*◌, String, true, false, Option, none, some, List, [], ◌∷◌, ◌++◌, ◌==◌, ◌+++◌,
  if◌then◌else◌, truthy,
}
use webalytics.Client.Types.{TimeWindow}
use webalytics.Client.Query.{put, window_parts}
use webalytics.Client.Core.{Result, ok, throw, http, invalid_json}
use webalytics.Client.Calls.{Response}
use webalytics.App.Env.{Sources, api_host, api_token}

pub data Endpoint : Type 0 where
  site : (id : String) → Endpoint
  realtime : (id : String) → Endpoint
  summary : (id : String) (window : TimeWindow) → Endpoint
  breakdown :
      (id : String) (window : TimeWindow) (dimension : String) (metric : String) (limit : ℕ)
      → Endpoint
  web_vitals : (id : String) (window : TimeWindow) (group_by : String) → Endpoint

-- `t.slice(0, n)`
abbrev pub slice : ℕ → String → String
slice zero t = ""
slice (suc n) String.[] = ""
slice (suc n) (String.◌∷◌ c t) = String.◌∷◌ c (slice n t)

-- A window of the last hours, on a clock in milliseconds.
unfoldable pub default_window : (to_iso_string : ℕ → String) (now : ℕ) (hours : ℕ) → TimeWindow
default_window to_iso_string now hours = record {
  from = to_iso_string (now - hours * 3600000);
  to = to_iso_string now;
}

unfoldable pub qs_entries :
    List (String × Option String) → List (String × String) → List (String × String)
qs_entries [] u = u
qs_entries ((k, none) ∷ params) u = qs_entries params u
qs_entries ((k, some v) ∷ params) u = qs_entries params (if v == "" then u else put k v u)

module _ (serialize : List (String × String) → String) (decimal : ℕ → String) where
  unfoldable pub qs : List (String × Option String) → String
  unfolding qs_entries
  qs params = let s = serialize (qs_entries params []) in if truthy s then "?" +++ s else ""

  unfoldable pub endpoint_path : Endpoint → String
  unfolding qs
  endpoint_path (site id) = "/v1/sites/" +++ id
  endpoint_path (realtime id) = "/v1/sites/" +++ (id +++ "/stats/realtime")
  endpoint_path (summary id w) =
      "/v1/sites/" +++ (id +++ ("/stats/summary" +++ qs (window_parts w)))
  endpoint_path (breakdown id w dimension metric limit) =
      "/v1/sites/"
      +++ (id
          +++ ("/stats/breakdown"
              +++ qs (
                  window_parts w
                  ++ ("dimension", some dimension)
                    ∷ ("metric", some metric)
                    ∷ ("limit", some (decimal limit))
                    ∷ [])))
  endpoint_path (web_vitals id w group_by) =
      "/v1/sites/"
      +++ (id +++ ("/stats/web-vitals" +++ qs (window_parts w ++ ("group_by", some group_by) ∷ [])))

  abbrev authorized : String → Result String → Result (String × String)
  authorized url (throw e) = throw e
  authorized url (ok token) = ok (url, "Bearer " +++ token)

  abbrev addressed : Endpoint → Result String → Result String → Result (String × String)
  addressed e (throw f) token = throw f
  addressed e (ok host) token = authorized (host +++ endpoint_path e) token

  -- The URL and the `Authorization` header of a call: the host is read first, then the token.
  unfoldable pub request : Sources → Endpoint → Result (String × String)
  request p e = addressed e (api_host p) (api_token p)

-- What `call` makes of a response whose body `text` reads (`none` where reading fails).
unfoldable pub receive :
    {T : Type 0} (parse : String → Option T) (text : Response → Option String) → Response → Result T
receive parse text res = elim res.is_ok [
  | true ↦ elim (parse res.body) [ some body ↦ ok body | none ↦ throw invalid_json ]
  | false ↦ throw (
      http (
        "webalytics "
        +++ (res.status
            +++ (" "
                +++ (res.status_text
                    +++ (": " +++ slice 200 (elim (text res) [ some t ↦ t | none ↦ "" ])))))))
]
