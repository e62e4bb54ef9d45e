-- ===== src/Common/Text.antt =====
-- Texts: JavaScript truthiness, and the regular expression `/\/+$/` that trims a host.
use Prim.Native.Char.{Char, code}
use Prim.Native.String
use Prim.Native.String.{String, [], ◌∷◌}
use mathlib.Core.Path.{◌≡◌}
use mathlib.Core.Bool.{Bool, false, not, ◌&&◌}
use mathlib.Core.Option.{Option, none, some}
use webalytics.Common.Tests.{◌=ℕ◌, if◌then◌else◌}
pub use text.Mathlib.Text.{◌==◌, starts_with}
pub use text.Mathlib.TextEquality.{eq_iff}
pub use text.Mathlib.TextPositions.{eq_refl}

infixr 65 ◌+++◌
abbrev pub ◌+++◌ : String → String → String
s +++ t = String.◌++◌ s t

-- Truthiness of a text, and of an optional text.
abbrev pub truthy : String → Bool
truthy s = not (s == "")

abbrev pub truthy? : Option String → Bool
truthy? none = false
truthy? (some s) = truthy s

-- `o || ""` on an optional text: a missing text and the empty one read alike.
abbrev pub or_empty : Option String → String
or_empty none = ""
or_empty (some s) = s

abbrev pub IsSlash : Char → Type 0
IsSlash c = code c ≡ b'/'

-- `host.replace(/\/+$/, "")`: the last run of slashes goes, if it ends the text.
unfoldable pub strip_slashes : String → String
strip_slashes [] = []
strip_slashes (c ∷ s) =
    let rest = strip_slashes s in if (code c =ℕ b'/') && (rest == "") then [] else c ∷ rest
