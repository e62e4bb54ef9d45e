-- ===== src/Tracker/Config.antt =====
-- packages/tracker/src/core.ts: the helpers that read the configuration, and the defaults that
-- `init` puts into it.
use webalytics.Common.{
  String, Bool, true, false, not, ◌||◌, Option, none, some, List, [], ◌∷◌, ◌==◌, ◌+++◌, starts_with,
  strip_slashes, get_or_else, if◌then◌else◌,
}
use webalytics.Tracker.Types.{Pattern, prefix, reg_exp, InitConfig}
use webalytics.Tracker.Browser.{Location, Navigator, Globals}

pub record Config : Type 0 where
  pub site_id : String
  pub host : String
  pub auto_pageviews : Bool
  pub auto_web_vitals : Bool
  pub auto_outbound : Bool
  pub respect_dnt : Bool
  pub debug : Bool
  pub environment : String
  pub release : Option String
  pub route : Option (Globals → Option String)
  pub transport : Bool
  pub location : Option (Globals → Location)
  pub exclude_paths : Option (List Pattern)

-- `o !== false`
abbrev pub not_false : Option Bool → Bool
not_false none = true
not_false (some b) = b

-- `o === true`
abbrev pub is_true : Option Bool → Bool
is_true none = false
is_true (some b) = b

abbrev is_one : Option String → Bool
is_one none = false
is_one (some s) = s == "1"

unfoldable pub path_of : Option Location → String
path_of none = ""
path_of (some loc) = loc.pathname +++ loc.search

pattern_matches : String → Pattern → Bool
pattern_matches path (prefix p) = starts_with path p
pattern_matches path (reg_exp test) = test path

any_pattern : String → List Pattern → Bool
any_pattern path [] = false
any_pattern path (p ∷ patterns) = if pattern_matches path p then true else any_pattern path patterns

unfoldable pub is_excluded : String → Option (List Pattern) → Bool
unfolding any_pattern pattern_matches
is_excluded path none = false
is_excluded path (some patterns) = any_pattern path patterns

navigator_opts_out : Option Navigator → Bool
navigator_opts_out none = false
navigator_opts_out (some n) =
    let gpc = n.global_privacy_control in
    let dnt = is_one n.do_not_track || is_one n.ms_do_not_track in gpc || dnt

unfoldable pub dnt_active : InitConfig → Globals → Bool
unfolding navigator_opts_out
dnt_active config g =
    if not (not_false config.respect_dnt) then false else navigator_opts_out g.navigator

-- `cfg._location ?? location`
abbrev location_from : Option (Globals → Location) → Globals → Option Location
location_from none g = g.location
location_from (some read) g = some (read g)

unfoldable pub current_location : Config → Globals → Option Location
current_location cfg g = location_from cfg.location g

-- The object `cfg` of `init`.
unfoldable pub resolve_config : InitConfig → Config
resolve_config config = record {
  site_id = config.site_id;
  host = strip_slashes config.host;
  auto_pageviews = not_false config.auto_pageviews;
  auto_web_vitals = not_false config.auto_web_vitals;
  auto_outbound = is_true config.auto_outbound;
  respect_dnt = not_false config.respect_dnt;
  debug = is_true config.debug;
  environment = get_or_else config.environment "production";
  release = config.release;
  route = config.route;
  transport = config.transport;
  location = config.location;
  exclude_paths = config.exclude_paths;
}
