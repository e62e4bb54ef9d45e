-- ===== src/Adapter/Script.antt =====
-- packages/tracker/src/umd.ts: the configuration that a script tag carries, and `autoInit`.
use webalytics.Common.{
  String, Bool, true, false, not, ◌||◌, Option, none, some, List, [], ◌∷◌, ◌==◌, if◌then◌else◌,
  truthy, truthy?, or_empty,
}
use webalytics.Tracker.Types.{InitConfig}
use webalytics.Tracker.Browser.{Globals}
use webalytics.Tracker.State.{State}
use webalytics.Tracker.Core as Core

-- The attributes `data-*` of a script element.
pub record Dataset : Type 0 where
  pub site_id : Option String
  pub host : Option String
  pub auto_pageviews : Option String
  pub auto_web_vitals : Option String
  pub auto_outbound : Option String
  pub respect_dnt : Option String
  pub environment : Option String
  pub release : Option String
  pub debug : Option String

-- An element is its dataset, which a foreign one may lack.
pub record Scripts : Type 0 where
  pub current_script : Option (Option Dataset)
  pub all : List (Option Dataset)

abbrev pub is_text : String → Option String → Bool
is_text t none = false
is_text t (some s) = s == t

abbrev pub kept : Option String → Option String
kept none = none
kept (some s) = if truthy s then some s else none

unfoldable pub search_scripts : List (Option Dataset) → Option Dataset
search_scripts [] = none
search_scripts (none ∷ candidates) = search_scripts candidates
search_scripts (some d ∷ candidates) =
    let rest = search_scripts candidates in if truthy? d.site_id then some d else rest

-- The dataset of the script that `readConfigFromScript` settles on.
abbrev pub chosen : Scripts → Option Dataset
chosen doc = elim doc.current_script [ none ↦ search_scripts doc.all | some s ↦ s ]

unfoldable pub config_of : Dataset → Option InitConfig
config_of d =
    if not (truthy? d.site_id) || not (truthy? d.host)
    then none
    else some (record {
      site_id = or_empty d.site_id;
      host = or_empty d.host;
      auto_pageviews = if is_text "false" d.auto_pageviews then some false else none;
      auto_web_vitals = if is_text "false" d.auto_web_vitals then some false else none;
      auto_outbound = if is_text "true" d.auto_outbound then some true else none;
      respect_dnt = if is_text "false" d.respect_dnt then some false else none;
      exclude_paths = none;
      environment = kept d.environment;
      release = kept d.release;
      route = none;
      debug = if is_text "true" d.debug then some true else none;
      transport = false;
      location = none;
    })

-- The rest of `readConfigFromScript`, given the script.
unfoldable pub read_chosen : Option Dataset → Option InitConfig
unfolding config_of
read_chosen none = none
read_chosen (some d) = config_of d

-- `none` stands for a missing `document` in the argument, and for `null` in the result.
unfoldable pub read_config_from_script : Option Scripts → Option InitConfig
unfolding search_scripts read_chosen
read_config_from_script none = none
read_config_from_script (some doc) = read_chosen (chosen doc)

module _ {V : Type 0} where
  -- The tracker of `window.webalytics`, where there is a window.
  unfoldable pub auto_init : (has_window : Bool) → Option Scripts → Globals → Option (State V)
  auto_init has_window doc g = if not has_window then none else elim (read_config_from_script doc) [
    | none ↦ none
    | some c ↦ if not (truthy c.site_id) || not (truthy c.host) then none else some (Core.init c g)
  ]
