-- ===== src/Client/Calls.antt =====
-- packages/dashboard-react/src/client.ts: the five queries of a client, and `call`. The
-- serialisation of `URLSearchParams`, decimal printing and the parsers of the response bodies are
-- parameters. What a call throws or rejects with is a value.
use mathlib.Core.Option
use webalytics.Common.{
  ℕ, String, Bool, true, not, Option, none, some, List, [], ◌∷◌, ◌++◌, ◌+++◌, if◌then◌else◌, truthy,
  get_or_else,
}
use webalytics.Client.Types.{
  WindowSpec, TimeWindow, MetricName, IntervalName, DimensionName, GroupBy, Filters, metric_text,
  interval_text, dimension_text, group_text,
}
use webalytics.Client.Query.{
  Calendar, spread, filters_to_qs, search_params, expand_window, window_parts,
}
use webalytics.Client.Core.{invalid_date, invalid_json, http, Result, ok, throw, Client, site_of}

pub record Request : Type 0 where
  pub url : String
  pub authorization : String
  pub accept : String
  pub revalidate : Option ℕ

-- The body of an error response: not JSON, JSON `null`, or an object with an optional message.
pub data ErrorBody : Type 0 where
  not_json null : ErrorBody
  error : (message : Option String) → ErrorBody

-- A response; its body can be read once.
pub record Response : Type 0 where
  pub is_ok : Bool
  pub status : String
  pub status_text : String
  pub body : String
  pub body_used : Bool

-- `res.text()`: rejects (`none`) if the body was read.
abbrev pub text_of : Response → Option String
text_of res = if res.body_used then none else some res.body

module _ (C : Calendar) where
  open C use {Date}

  -- The calls of a client's methods. `site_id` overrides the configured site.
  pub data Query : Type 0 where
    realtime : (site_id : Option String) → Query
    summary :
        (window : WindowSpec Date) (site_id : Option String) (filters : Option Filters) → Query
    timeseries :
        (window : WindowSpec Date) (metric : MetricName) (interval : IntervalName)
        (site_id : Option String) (filters : Option Filters)
        → Query
    breakdown :
        (window : WindowSpec Date) (dimension : DimensionName) (metric : Option MetricName)
        (limit offset : Option ℕ) (site_id : Option String) (filters : Option Filters)
        → Query
    web_vitals :
        (window : WindowSpec Date) (group_by : Option GroupBy) (site_id : Option String)
        (filters : Option Filters)
        → Query

  abbrev pub window_of : Query → Option (WindowSpec Date)
  window_of (realtime site) = none
  window_of (summary w site f) = some w
  window_of (timeseries w m i site f) = some w
  window_of (breakdown w d m l o site f) = some w
  window_of (web_vitals w g site f) = some w

  abbrev pub site_override : Query → Option String
  site_override (realtime site) = site
  site_override (summary w site f) = site
  site_override (timeseries w m i site f) = site
  site_override (breakdown w d m l o site f) = site
  site_override (web_vitals w g site f) = site

  abbrev pub filters_of : Query → Option Filters
  filters_of (realtime site) = none
  filters_of (summary w site f) = f
  filters_of (timeseries w m i site f) = f
  filters_of (breakdown w d m l o site f) = f
  filters_of (web_vitals w g site f) = f

  abbrev pub endpoint : Query → String
  endpoint (realtime site) = "realtime"
  endpoint (summary w site f) = "summary"
  endpoint (timeseries w m i site f) = "timeseries"
  endpoint (breakdown w d m l o site f) = "breakdown"
  endpoint (web_vitals w g site f) = "web-vitals"

  module _ (decimal : ℕ → String) where
    -- The properties between the window and the filters.
    abbrev pub own_parts : Query → List (String × Option String)
    own_parts (realtime site) = []
    own_parts (summary w site f) = []
    own_parts (timeseries w m i site f) =
        ("metric", some (metric_text m)) ∷ ("interval", some (interval_text i)) ∷ []
    own_parts (breakdown w d m l o site f) =
        ("dimension", some (dimension_text d))
        ∷ ("metric", Option.map metric_text m)
        ∷ ("limit", Option.map decimal l)
        ∷ ("offset", Option.map decimal o)
        ∷ []
    own_parts (web_vitals w g site f) = ("group_by", Option.map group_text g) ∷ []

    -- The argument of `toQS`, as a query builds it, once its window is there.
    unfoldable pub parts : TimeWindow → Query → List (String × Option String)
    parts w q = spread (window_parts w ++ own_parts q) (filters_to_qs (filters_of q))

    unfoldable pub to_qs : TimeWindow → Query → List (String × String)
    to_qs w q = search_params (parts w q) []

    module _ (serialize : List (String × String) → String) (c : Client) where
      abbrev pub site_path : Query → String
      site_path q =
          c.base_path
          +++ ("/sites/"
              +++ (get_or_else (site_override q) (site_of c.config) +++ ("/stats/" +++ endpoint q)))

      -- The path that a method hands to `call`; a window with an invalid date throws.
      abbrev pub path_with : Query → Option (WindowSpec Date) → Result String
      path_with q none = ok (site_path q)
      path_with q (some w) = elim (expand_window C w) [
        | none ↦ throw invalid_date
        | some tw ↦ ok (site_path q +++ ("?" +++ serialize (to_qs tw q)))
      ]

      unfoldable pub path_for : Query → Result String
      path_for q = path_with q (window_of q)

      abbrev pub request_to : String → Request
      request_to path = record {
        url = c.base +++ path;
        authorization = "Bearer " +++ c.bearer;
        accept = "application/json";
        revalidate = c.revalidate;
      }

      -- The request that a method makes.
      unfoldable pub request : Query → Result Request
      unfolding path_for
      request q = elim (path_for q) [ ok path ↦ ok (request_to path) | throw e ↦ throw e ]

abbrev message_or_empty : Option String → String
message_or_empty none = ""
message_or_empty (some m) = m

abbrev failure_text : String → String → String → String → String
failure_text status status_text detail url =
    "webalytics: "
    +++ (status
        +++ (" "
            +++ (status_text
                +++ ((if truthy detail then " — " +++ detail else "")
                    +++ (" (" +++ (url +++ ")"))))))

module _ (parse_error : String → ErrorBody) where
  abbrev detail_after : Response → ErrorBody → String
  detail_after read (error message) = message_or_empty message
  detail_after read not_json = message_or_empty (text_of read)
  detail_after read null = message_or_empty (text_of read)

  -- `res.json()` reads the body, and so rejects if it was read before; the `catch` clause then asks
  -- for `res.text()`, whose own rejection counts as the empty text.
  unfoldable pub error_detail : Response → String
  error_detail res =
      let read = record res { body_used = true } in
      if res.body_used then detail_after read not_json else detail_after read (parse_error res.body)

  module _ {T : Type 0} (parse : String → Option T) where
    -- What `call` makes of a response.
    unfoldable pub receive : String → Response → Result T
    unfolding error_detail
    receive url res =
        if not res.is_ok
        then throw (http (failure_text res.status res.status_text (error_detail res) url))
        else elim (parse res.body) [ some body ↦ ok body | none ↦ throw invalid_json ]
