-- ===== src/Adapter/Next.antt =====
-- packages/tracker-next/src/index.tsx (`WebalyticsInner`, `getTracker`, `useWebalytics`). The
-- component's effects are steps; `trackerRef` and `globalRef` are written together and hold one tracker.
use mathlib.Core.Option
use webalytics.Common.{
  String, Bool, true, false, not, ◌||◌, Option, none, some, List, [], ◌∷◌, ◌==◌, ◌+++◌, ◌≡◌, refl,
  sym, ap, ◌∙◌, if◌then◌else◌, truthy, truthy?, or_empty, arith, Bool-cases, inl, inr, eq_iff,
  get_or_else,
}
use webalytics.Tracker.Types.{InitConfig}
use webalytics.Tracker.Browser.{Globals}
use webalytics.Tracker.Config.{not_false}
use webalytics.Tracker.State.{State}
use webalytics.Tracker.Core as Core
use webalytics.Tracker.Loop.{Action, call_pageview, step, run}

-- `core` holds the props that are handed on; its site and host are not read.
pub record WebalyticsProps : Type 0 where
  pub site_id : Option String
  pub host : Option String
  pub auto_pageviews : Option Bool
  pub core : InitConfig

pub record Inner (V : Type 0) : Type 0 where
  pub tracker : Option (State V)
  pub fired : String

-- A missing `process` or `process.env` is `none`.
unfoldable pub read_env : Option (String → Option String) → String → Option String
read_env none name = none
read_env (some env) name = elim (env name) [
  | none ↦ none
  | some v ↦ if truthy v then some v else none
]

-- `prop ?? readEnv(name)`
abbrev or_env : Option String → Option (String → Option String) → String → Option String
or_env none env name = read_env env name
or_env (some v) env name = some v

unfoldable pub site_id_of : WebalyticsProps → Option (String → Option String) → Option String
unfolding read_env
site_id_of props env = or_env props.site_id env "NEXT_PUBLIC_WEBALYTICS_SITE_ID"

unfoldable pub host_of : WebalyticsProps → Option (String → Option String) → Option String
unfolding read_env
host_of props env = or_env props.host env "NEXT_PUBLIC_WEBALYTICS_HOST"

abbrev pub next_config : WebalyticsProps → Option (String → Option String) → InitConfig
next_config props env = record props.core {
  site_id = or_empty (site_id_of props env);
  host = or_empty (host_of props env);
  auto_pageviews = some false;
}

-- A template text prints a missing pathname as "null".
unfoldable pub url_key : Option String → Option String → String
url_key pathname search =
    if truthy? search
    then get_or_else pathname "null" +++ ("?" +++ or_empty search)
    else or_empty pathname

module _ {V : Type 0} where
  unfoldable pub init_effect :
      WebalyticsProps → Option (String → Option String) → Globals → Inner V → Inner V
  init_effect props env g s =
      if not (truthy? (site_id_of props env)) || not (truthy? (host_of props env))
      then s
      else elim s.tracker [
        | some _ ↦ s
        | none ↦ record s { tracker = some (Core.init (next_config props env) g) }
      ]

  -- The first effect's cleanup: `trackerRef.current?.flush()`.
  unfoldable pub cleanup : Inner V → Inner V
  cleanup s = record s { tracker = Option.map Core.flush s.tracker }

  unfoldable pub url_effect : WebalyticsProps → String → Globals → Inner V → Inner V
  url_effect props key g s = if not (not_false props.auto_pageviews) then s else elim s.tracker [
    | none ↦ s
    | some t ↦
        if key == s.fired
        then s
        else record s { fired = key; tracker = some (Core.pageview none g t) }
  ]

  -- The renders of a component, each with its key and the browser's globals.
  unfoldable pub renders : WebalyticsProps → List (String × Globals) → Inner V → Inner V
  unfolding url_effect
  renders props [] s = s
  renders props ((key, g) ∷ rest) s = renders props rest (url_effect props key g s)

  -- `getTracker().pageview()`, and the like: a no-op before the tracker is there.
  unfoldable pub with_tracker : (State V → State V) → Inner V → Inner V
  with_tracker f s = record s { tracker = Option.map f s.tracker }

  -- A call of `pageview` for each render that changes the key.
  pub key_changes : String → List (String × Globals) → List (Globals × Action V)
  key_changes last [] = []
  key_changes last ((key, g) ∷ rest) =
      let more = key_changes key rest in
      if key == last then more else (g, call_pageview none) ∷ more

  url_effect_same :
      (props : WebalyticsProps) (key : String) (g : Globals) (s : Inner V)
      → key == s.fired ≡ true
      → url_effect props key g s ≡ s
  unfolding url_effect
  url_effect_same props key g s same = ground arith

  url_effect_moved :
      (props : WebalyticsProps) (key : String) (g : Globals) (s : Inner V) (t : State V)
      → not_false props.auto_pageviews ≡ true
      → s.tracker ≡ some t
      → key == s.fired ≡ false
      → url_effect props key g s ≡ record { fired = key; tracker = some (Core.pageview none g t) }
  unfolding url_effect
  url_effect_moved props key g s t auto here moved = rw (auto, here, moved)

  key_changes_same :
      (key last : String) (g : Globals) (rest : List (String × Globals))
      → key == last ≡ true
      → key_changes last ((key, g) ∷ rest) ≡ key_changes last rest
  unfolding key_changes
  key_changes_same key last g rest same =
      rw same (ap (λ k. key_changes k rest) ((eq_iff key last).0 same))

  key_changes_moved :
      (key last : String) (g : Globals) (rest : List (String × Globals))
      → key == last ≡ false
      → key_changes last ((key, g) ∷ rest) ≡ (g, call_pageview none) ∷ key_changes key rest
  unfolding key_changes
  key_changes_moved key last g rest moved = rw moved

  -- Over any renders, a component with a tracker and automatic pageviews calls `pageview` once for
  -- each change of the URL's key, in order, and not where a render keeps the key.
  pub renders_count :
      (props : WebalyticsProps) (xs : List (String × Globals)) (s : Inner V) (t : State V)
      → not_false props.auto_pageviews ≡ true
      → s.tracker ≡ some t
      → (renders props xs s).tracker ≡ some (run (key_changes s.fired xs) t)
  unfolding renders key_changes run step
  renders_count props [] s t auto here = here
  renders_count props ((key, g) ∷ rest) s t auto here = elim (Bool-cases (key == s.fired)) [
    | inl same ↦
        ap (λ r. (renders props rest r).tracker) (url_effect_same props key g s same)
        ∙ renders_count props rest s t auto here
        ∙ ap (λ calls. some (run calls t)) (sym (key_changes_same key s.fired g rest same))
    | inr moved ↦
        ap (λ r. (renders props rest r).tracker) (url_effect_moved props key g s t auto here moved)
        ∙ renders_count props rest (record { fired = key; tracker = some (Core.pageview none g t) })
            (Core.pageview none g t) auto refl
        ∙ ap (λ calls. some (run calls t)) (sym (key_changes_moved key s.fired g rest moved))
  ]

  -- A second run of the init effect, as in React's strict mode, changes nothing, whatever the browser
  -- shows by then: a component starts at most one tracker.
  pub init_effect_once :
      (props : WebalyticsProps) (env : Option (String → Option String)) (g h : Globals)
      (s : Inner V)
      → init_effect props env h (init_effect props env g s) ≡ init_effect props env g s
  unfolding init_effect
  init_effect_once props env g h s = grind arith
