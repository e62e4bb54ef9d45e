-- ===== src/Adapter/Pages.antt =====
-- packages/tracker-next/src/pages.ts (`WebalyticsPages`): the effect, its cleanup and the listener
-- that it puts on the router.
use mathlib.Core.Option
use webalytics.Common.{
  String, Bool, true, false, not, ◌||◌, Option, none, some, ◌≡◌, if◌then◌else◌, truthy, truthy?,
  or_empty, arith,
}
use webalytics.Tracker.Types.{InitConfig}
use webalytics.Tracker.Browser.{Globals}
use webalytics.Tracker.Config.{not_false}
use webalytics.Tracker.State.{State}
use webalytics.Tracker.Core as Core

pub record WebalyticsPagesProps : Type 0 where
  pub site_id : Option String
  pub host : Option String
  pub auto_pageviews : Option Bool
  pub core : InitConfig

-- `listening` is whether the router's event has the listener.
pub record PagesState (V : Type 0) : Type 0 where
  pub tracker : Option (State V)
  pub listening : Bool

unfoldable pub pages_env : Option (String → Option String) → String → Option String
pages_env none name = none
pages_env (some env) name = elim (env name) [
  | none ↦ none
  | some v ↦ if truthy v then some v else none
]

abbrev or_env : Option String → Option (String → Option String) → String → Option String
or_env none env name = pages_env env name
or_env (some v) env name = some v

unfoldable pub pages_site : WebalyticsPagesProps → Option (String → Option String) → Option String
pages_site props env = or_env props.site_id env "NEXT_PUBLIC_WEBALYTICS_SITE_ID"

unfoldable pub pages_host : WebalyticsPagesProps → Option (String → Option String) → Option String
pages_host props env = or_env props.host env "NEXT_PUBLIC_WEBALYTICS_HOST"

module _ {V : Type 0} where
  -- The state after the effect, and whether it returned a cleanup.
  unfoldable pub mount :
      WebalyticsPagesProps
      → Option (String → Option String)
      → Globals
      → PagesState V
      → PagesState V × Bool
  mount props env g s =
      if not (truthy? (pages_site props env)) || not (truthy? (pages_host props env))
      then (s, false)
      else elim s.tracker [
        | some _ ↦ (s, false)
        | none ↦
            let t : State V =
              Core.init
                (record props.core {
                  site_id = or_empty (pages_site props env);
                  host = or_empty (pages_host props env);
                  auto_pageviews = some false;
                })
                g in
            if not_false props.auto_pageviews
            then (record { tracker = some (Core.pageview none g t); listening = true }, true)
            else (record s { tracker = some t }, true)
      ]

  unfoldable pub unmount : Bool → PagesState V → PagesState V
  unmount returned s =
      if returned
      then record s { tracker = Option.map Core.flush s.tracker; listening = false }
      else s

  unfoldable pub route_change : Globals → PagesState V → PagesState V
  route_change g s =
      if s.listening then record s { tracker = Option.map (Core.pageview none g) s.tracker } else s

  abbrev pub mounted :
      WebalyticsPagesProps → Option (String → Option String) → Globals → PagesState V → PagesState V
  mounted props env g s = (mount props env g s).0

  -- Once a component that was given a site and a host is mounted, unmounted with its cleanup and
  -- mounted again with its refs kept, as React does to effects in the strict mode, it ignores all
  -- later route changes.
  pub remount_deaf :
      (props : WebalyticsPagesProps) (env : Option (String → Option String)) (g h i : Globals)
      → truthy? (pages_site props env) ≡ true
      → truthy? (pages_host props env) ≡ true
      → let first = mount props env g (record { tracker = none; listening = false }) in
        let again = mounted props env h (unmount first.1 first.0) in
        (first.1 ≡ true) × (route_change i again ≡ again)
  unfolding mount unmount route_change
  remount_deaf props env g h i site host = (grind arith, grind arith)
