-- ===== src/Dashboard/Theme.antt =====
-- The style variables of a dashboard: `themeVars` of packages/dashboard-react/src/styles.ts,
-- `themeToVars` of components/dashboard.tsx, and `rootStyle` of
-- packages/dashboard-angular/src/components/dashboard.component.ts. An object is the list of its
-- assignments, the latest first.
use webalytics.Common.{String, Option, none, some, List, [], ◌∷◌, ◌++◌, ◌==◌, truthy, if◌then◌else◌}

pub record Theme : Type 0 where
  pub accent : Option String
  pub background : Option String
  pub surface : Option String
  pub foreground : Option String
  pub border : Option String
  pub radius : Option String
  pub font_family : Option String

abbrev pub Object : Type 0
Object = List (String × String)

abbrev pub property : String → Object → Option String
property k [] = none
property k ((name, value) ∷ rest) = if k == name then some value else property k rest

-- `if (value) object[name] = value`
unfoldable pub assign : String → Option String → Object → Object
assign name none object = object
assign name (some value) object = if truthy value then (name, value) ∷ object else object

unfoldable pub theme_to_vars : Option Theme → Object
theme_to_vars none = []
theme_to_vars (some t) = assign "--wbx-font" t.font_family (
    assign "--wbx-radius" t.radius (
      assign "--wbx-border" t.border (
        assign "--wbx-fg" t.foreground (
          assign "--wbx-surface" t.surface
            (assign "--wbx-bg" t.background (assign "--wbx-accent" t.accent []))))))

-- The palette, without the three properties that are not variables.
unfoldable pub theme_vars : Object
theme_vars =
    (
      "--wbx-font",
      "ui-sans-serif, system-ui, -apple-system, \"Segoe UI\", Roboto, Inter, \"Helvetica Neue\", Arial, sans-serif",
    )
    ∷ ("--wbx-radius", "8px")
    ∷ ("--wbx-bad", "#dc2626")
    ∷ ("--wbx-warn", "#d97706")
    ∷ ("--wbx-good", "#16a34a")
    ∷ ("--wbx-accent-soft", "rgba(0, 112, 243, 0.12)")
    ∷ ("--wbx-accent", "#0070f3")
    ∷ ("--wbx-border", "#e5e7eb")
    ∷ ("--wbx-surface", "#fafafa")
    ∷ ("--wbx-bg", "#ffffff")
    ∷ ("--wbx-fg-subtle", "#9ca3af")
    ∷ ("--wbx-fg-muted", "#6b7280")
    ∷ ("--wbx-fg", "#0a0a0a")
    ∷ []

-- `{ ...themeVars, ...themeToVars(theme) }`
unfoldable pub dashboard_vars : Option Theme → Object
dashboard_vars theme = theme_to_vars theme ++ theme_vars

unfoldable pub root_style : Option Theme → Object
root_style none = []
root_style (some t) = assign "--wbx-font" t.font_family (
    assign "--wbx-radius" t.radius (
      assign "--wbx-border" t.border (
        assign "--wbx-fg" t.foreground (
          assign "--wbx-surface" t.surface
            (assign "--wbx-bg" t.background (assign "--wbx-accent" t.accent []))))))

-- The variables of the palette, and the setting of a theme that stands for each, if there is one.
pub data Variable : Type 0 where
  accent background surface foreground border radius font : Variable
  accent_soft muted subtle good warn bad : Variable

abbrev pub variable_name : Variable → String
variable_name accent = "--wbx-accent"
variable_name background = "--wbx-bg"
variable_name surface = "--wbx-surface"
variable_name foreground = "--wbx-fg"
variable_name border = "--wbx-border"
variable_name radius = "--wbx-radius"
variable_name font = "--wbx-font"
variable_name accent_soft = "--wbx-accent-soft"
variable_name muted = "--wbx-fg-muted"
variable_name subtle = "--wbx-fg-subtle"
variable_name good = "--wbx-good"
variable_name warn = "--wbx-warn"
variable_name bad = "--wbx-bad"

abbrev pub setting : Theme → Variable → Option String
setting t accent = t.accent
setting t background = t.background
setting t surface = t.surface
setting t foreground = t.foreground
setting t border = t.border
setting t radius = t.radius
setting t font = t.font_family
setting t _ = none
