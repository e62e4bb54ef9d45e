-- ===== src/Adapter/RoundTrip.antt =====
-- The attributes of a script tag and the configuration that packages/tracker/src/umd.ts reads back.
use webalytics.Common.{
  String, Bool, true, false, Option, none, some, List, [], ◌∷◌, ◌++◌, ◌≡◌, refl, ap, ◌∙◌,
  if◌then◌else◌, truthy, truthy?, All,
}
use webalytics.Tracker.Types.{InitConfig}
use webalytics.Tracker.Config.{resolve_config, not_false, is_true, dnt_active}
use webalytics.Tracker.Browser.{Globals}
use webalytics.Tracker.Core as Core
use webalytics.Adapter.Script.{
  Dataset, Scripts, search_scripts, config_of, read_config_from_script, auto_init, kept, is_text,
  chosen, read_chosen,
}

abbrev bool_text : Bool → String
bool_text true = "true"
bool_text false = "false"

abbrev option_text : Option Bool → Option String
option_text none = none
option_text (some b) = some (bool_text b)

-- The tag that says what a configuration says.
abbrev pub attributes_of : InitConfig → Dataset
attributes_of c = record {
  site_id = some c.site_id;
  host = some c.host;
  auto_pageviews = option_text c.auto_pageviews;
  auto_web_vitals = option_text c.auto_web_vitals;
  auto_outbound = option_text c.auto_outbound;
  respect_dnt = option_text c.respect_dnt;
  environment = c.environment;
  release = c.release;
  debug = option_text c.debug;
}

-- What a tag can say: no functions, no empty texts.
pub record IsTaggable (c : InitConfig) : Type 0 where
  pub site_id : truthy c.site_id ≡ true
  pub host : truthy c.host ≡ true
  pub environment : kept c.environment ≡ c.environment
  pub release : kept c.release ≡ c.release
  pub exclude_paths : c.exclude_paths ≡ none
  pub route : c.route ≡ none
  pub transport : c.transport ≡ false
  pub location : c.location ≡ none

-- `not_false` and `is_true` read an option and its attribute alike.
keeps_false :
    (o : Option Bool)
    → not_false (if is_text "false" (option_text o) then some false else none) ≡ not_false o
keeps_false none = refl
keeps_false (some true) = refl
keeps_false (some false) = refl

keeps_true :
    (o : Option Bool)
    → is_true (if is_text "true" (option_text o) then some true else none) ≡ is_true o
keeps_true none = refl
keeps_true (some true) = refl
keeps_true (some false) = refl

-- A script that the search passes over.
abbrev pub IsOther : Option Dataset → Type 0
IsOther none = Unit
IsOther (some d) = truthy? d.site_id ≡ false

search_scripts-append :
    (before after : List (Option Dataset)) (d : Dataset)
    → All IsOther before
    → truthy? d.site_id ≡ true
    → search_scripts (before ++ some d ∷ after) ≡ some d
unfolding search_scripts
search_scripts-append [] after d other h = rw h
search_scripts-append (none ∷ before) after d (o, other) h =
    search_scripts-append before after d other h
search_scripts-append (some e ∷ before) after d (o, other) h =
    rw o (search_scripts-append before after d other h)

-- What the tag of a configuration is read as.
abbrev read_back : InitConfig → InitConfig
read_back c = record {
  site_id = c.site_id;
  host = c.host;
  auto_pageviews = if is_text "false" (option_text c.auto_pageviews) then some false else none;
  auto_web_vitals = if is_text "false" (option_text c.auto_web_vitals) then some false else none;
  auto_outbound = if is_text "true" (option_text c.auto_outbound) then some true else none;
  respect_dnt = if is_text "false" (option_text c.respect_dnt) then some false else none;
  exclude_paths = none;
  environment = kept c.environment;
  release = kept c.release;
  route = none;
  debug = if is_text "true" (option_text c.debug) then some true else none;
  transport = false;
  location = none;
}

config_of-attributes_of :
    (c : InitConfig) → IsTaggable c → config_of (attributes_of c) ≡ some (read_back c)
unfolding config_of
config_of-attributes_of c h = rw (h.site_id, h.host)

resolve_config-read_back :
    (c : InitConfig) → IsTaggable c → resolve_config (read_back c) ≡ resolve_config c
unfolding resolve_config
resolve_config-read_back c h = simp (
  keeps_false c.auto_pageviews,
  keeps_false c.auto_web_vitals,
  keeps_true c.auto_outbound,
  keeps_false c.respect_dnt,
  keeps_true c.debug,
  h.environment,
  h.release,
  h.exclude_paths,
  h.route,
  h.transport,
  h.location,
)

module _ {V : Type 0} where
  init-read_back :
      (c : InitConfig) (g : Globals)
      → IsTaggable c
      → Core.init {V = V} (read_back c) g ≡ Core.init c g
  unfolding Core.init dnt_active
  init-read_back c g h = rw (resolve_config-read_back c h, keeps_false c.respect_dnt)

  auto_init-chosen :
      (c : InitConfig) (doc : Scripts) (g : Globals)
      → IsTaggable c
      → chosen doc ≡ some (attributes_of c)
      → auto_init true (some doc) g ≡ some (Core.init {V = V} c g)
  unfolding auto_init read_config_from_script read_chosen
  auto_init-chosen c doc g h found =
      let back : read_config_from_script (some doc) ≡ some (read_back c) =
        ap read_chosen found ∙ config_of-attributes_of c h in
      rw (back, h.site_id, h.host, init-read_back c g h)

  -- A configuration written as the attributes of a script tag starts the tracker that the
  -- configuration itself would, where the tag is the running script, and likewise where the page has
  -- none and the tag is the first of its scripts with a site.
  pub script_roundtrip :
      (c : InitConfig) (g : Globals) (before after : List (Option Dataset))
      → IsTaggable c
      → All IsOther before
      → (auto_init true
            (some (record { current_script = some (some (attributes_of c)); all = before }))
            g
          ≡ some (Core.init {V = V} c g))
        × (auto_init true
              (some
                (record { current_script = none; all = before ++ some (attributes_of c) ∷ after }))
              g
            ≡ some (Core.init {V = V} c g))
  script_roundtrip c g before after h other = (
    auto_init-chosen c _ g h refl,
    auto_init-chosen c
        (record { current_script = none; all = before ++ some (attributes_of c) ∷ after }) g h
        (search_scripts-append before after (attributes_of c) other h.site_id),
  )
