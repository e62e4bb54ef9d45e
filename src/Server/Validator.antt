-- ===== src/Server/Validator.antt =====
-- internal/ingest: which events the collector takes (validator.go, and the parsing of handler.go).
use Prim.Native.Char.{Char, code}
use Prim.Native.String.{String, [], ◌∷◌}
use webalytics.Common.{
  ℕ, suc, ◌+◌, Bool, true, false, not, ◌&&◌, ◌||◌, Option, none, some, ◌==◌, ◌=ℕ◌, ltb, leb,
  if◌then◌else◌,
}
use webalytics.Numbers.{Floats}
use webalytics.Tracker.Types.{Members, empty, member}
use webalytics.Server.Payload.{VitalWire, Wire}

pub data Error : Type 0 where
  invalid_site_id invalid_event invalid_url invalid_environment : Error
  vital_missing vital_name vital_value vital_on_non_vital : Error
  too_many_props : Error

-- Classes of characters.
abbrev between : ℕ → ℕ → Char → Bool
between low high c = leb low (code c) && leb (code c) high

abbrev alphanumeric : Char → Bool
alphanumeric c = between b'a' b'z' c || (between b'A' b'Z' c || between b'0' b'9' c)

abbrev is_char : ℕ → Char → Bool
is_char b c = code c =ℕ b

-- `[a-zA-Z0-9_.-]` and `[a-zA-Z0-9_.:-]`
abbrev env_char : Char → Bool
env_char c = alphanumeric c || (is_char b'_' c || (is_char b'.' c || is_char b'-' c))

abbrev event_char : Char → Bool
event_char c = env_char c || is_char b':' c

-- Whether all characters of a text are in a class, and their number.
unfoldable pub all_chars : (Char → Bool) → String → Bool
all_chars p [] = true
all_chars p (c ∷ s) = p c && all_chars p s

unfoldable pub count : String → ℕ
count [] = 0
count (c ∷ s) = suc (count s)

-- What follows a prefix.
unfoldable pub after : String → String → Option String
after [] s = some s
after (d ∷ p) [] = none
after (d ∷ p) (c ∷ s) = if is_char (code d) c then after p s else none

abbrev long_tail : Option String → Bool
long_tail none = false
long_tail (some s) = all_chars alphanumeric s && leb 16 (count s)

-- `^wb_(live|test)_[A-Za-z0-9]{16,}$`
unfoldable pub site_id_re : String → Bool
unfolding after all_chars count
site_id_re s = long_tail (after "wb_live_" s) || long_tail (after "wb_test_" s)

-- `^[a-zA-Z0-9_.:-]{1,64}$`
unfoldable pub event_re : String → Bool
unfolding all_chars count
event_re s = all_chars event_char s && (leb 1 (count s) && leb (count s) 64)

-- `^[a-zA-Z0-9_.-]{1,32}$`
unfoldable pub env_re : String → Bool
unfolding all_chars count
env_re s = all_chars env_char s && (leb 1 (count s) && leb (count s) 32)

-- The bytes of a character in UTF-8, and of a text.
abbrev char_bytes : Char → ℕ
char_bytes c =
    if ltb (code c) 128
    then 1
    else if ltb (code c) 2048
    then 2
    else if ltb (code c) 65536
    then 3
    else 4

unfoldable pub len : String → ℕ
len [] = 0
len (c ∷ s) = char_bytes c + len s

unfoldable pub valid_vital : String → Bool
valid_vital name =
    (name == "LCP")
    || ((name == "INP") || ((name == "CLS") || ((name == "FCP") || (name == "TTFB"))))

-- `len(p.Props)`, the keys of an object being different.
unfoldable pub props_count : Members → ℕ
props_count empty = 0
props_count (member k v ms) = suc (props_count ms)

module _ (F : Floats) where
  open F use {Number, lit, lt}

  abbrev pub too_many : Option Members → Bool
  too_many none = false
  too_many (some ms) = ltb 50 (props_count ms)

  abbrev pub vital_error : Bool → Option (VitalWire Number) → Option Error
  vital_error true none = some vital_missing
  vital_error true (some v) =
      if not (valid_vital v.name)
      then some vital_name
      else if lt v.value (lit 0 0)
      then some vital_value
      else none
  vital_error false none = none
  vital_error false (some v) = some vital_on_non_vital

  abbrev or_error : Option Error → Option Error → Option Error
  or_error none e = e
  or_error (some d) e = some d

  -- `Validate`; `none` where it returns nil.
  unfoldable pub validate : Wire Number → Option Error
  validate p =
      if not (site_id_re p.site_id)
      then some invalid_site_id
      else if not (event_re p.event)
      then some invalid_event
      else if (p.url == "") || ltb 2048 (len p.url)
      then some invalid_url
      else if not (p.environment == "") && not (env_re p.environment)
      then some invalid_environment
      else or_error (vital_error (p.event == "web_vital") p.vital)
          (if too_many p.props then some too_many_props else none)

  -- The parsing of `Handler`: whether it goes on, or drops the payload for its schema.
  unfoldable pub passes : Option (Wire Number) → Bool
  passes none = false
  passes (some p) = elim (validate p) [ none ↦ true | some e ↦ false ]
