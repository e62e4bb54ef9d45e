-- ===== src/Tracker/Types.antt =====
-- packages/tracker/src/types.ts: the payload of one event and the configuration of a tracker.
-- `V` is the type of JavaScript's floating point numbers, of which the core only carries values.
use webalytics.Common.{ℕ, String, Bool, Option, List}
use webalytics.Tracker.Browser.{Size, Location, Globals}

-- The values of `props`, as JSON has them; a number is kept as its text.
mutual
  pub data Json : Type 0 where
    null : Json
    bool : Bool → Json
    num : String → Json
    str : String → Json
    arr : Items → Json
    obj : Members → Json

  pub data Items : Type 0 where
    nil : Items
    cons : Json → Items → Items

  pub data Members : Type 0 where
    empty : Members
    member : String → Json → Members → Members

pub record Vital (V : Type 0) : Type 0 where
  pub name : String
  pub value : V
  pub rating : Option String
  pub id : Option String
  pub nav_type : Option String

pub record Revenue (V : Type 0) : Type 0 where
  pub amount : V
  pub currency : String

pub record Perf (V : Type 0) : Type 0 where
  pub ttfb_ms : Option V
  pub load_ms : Option V

pub record CollectPayload (V : Type 0) : Type 0 where
  pub site_id : String
  pub event : String
  pub url : String
  pub referrer : Option String
  pub title : Option String
  pub environment : Option String
  pub release : Option String
  pub route : Option String
  pub screen : Option Size
  pub viewport : Option Size
  pub language : Option String
  pub props : Option Members
  pub revenue : Option (Revenue V)
  pub perf : Option (Perf V)
  pub vital : Option (Vital V)
  pub ts_client : Option ℕ

-- An entry of `excludePaths`; a regular expression (without the flags g and y) is its test.
pub data Pattern : Type 0 where
  prefix : String → Pattern
  reg_exp : (String → Bool) → Pattern

-- `transport` says whether the caller brings a transport; `route` and `_location` are read anew at
-- each use, so they are functions of what the browser shows then.
pub record InitConfig : Type 0 where
  pub site_id : String
  pub host : String
  pub auto_pageviews : Option Bool
  pub auto_web_vitals : Option Bool
  pub auto_outbound : Option Bool
  pub respect_dnt : Option Bool
  pub exclude_paths : Option (List Pattern)
  pub environment : Option String
  pub release : Option String
  pub route : Option (Globals → Option String)
  pub debug : Option Bool
  pub transport : Bool
  pub location : Option (Globals → Location)
