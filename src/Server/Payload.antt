-- ===== src/Server/Payload.antt =====
-- internal/ingest/payload.go: the struct that the collector decodes an event into, and which events
-- fit it. Go's decoder is left out; `wire_of` has what its documentation says that the struct tags make of
-- the JSON text of an event: a field that is missing is the zero value.
use webalytics.Common.{
  ℕ, ◌<◌, ◌-◌, ◌^◌, ◌≡◌, String, Bool, true, false, not, ◌&&◌, Option, none, some, ◌==◌, ltb,
  if◌then◌else◌, get_or_else,
}
use webalytics.Numbers.{Floats}
use webalytics.Tracker.Types.{
  Json, null, bool, num, str, arr, obj, Items, nil, cons, Members, empty, member, Vital, Revenue,
  CollectPayload,
}
use webalytics.Tracker.Browser.{Size}

pub record PerfWire : Type 0 where
  pub ttfb_ms : ℕ
  pub load_ms : ℕ

pub record VitalWire (V : Type 0) : Type 0 where
  pub name : String
  pub value : V
  pub rating : String
  pub id : String
  pub nav_type : String

-- `CollectPayload`; a nil pointer is `none`.
pub record Wire (V : Type 0) : Type 0 where
  pub site_id : String
  pub event : String
  pub url : String
  pub referrer : String
  pub title : String
  pub environment : String
  pub release : String
  pub route : String
  pub screen : Option Size
  pub viewport : Option Size
  pub language : String
  pub props : Option Members
  pub revenue : Option (Revenue V)
  pub perf : Option PerfWire
  pub vital : Option (VitalWire V)
  pub ts_client : ℕ

-- What Go reads of an object: of the numbers of JavaScript, written by `JSON.stringify` (`null` for one
-- that is not finite) and read into a `float64`, that one that is not negative stays so; and whether
-- the text of a number has a `float64`.
pub record Decoding (F : Floats) : Type 0 where
  pub read_number : F.Number → F.Number
  pub float64 : String → Bool
  pub not_negative :
      (v : F.Number) → F.lt v (F.lit 0 0) ≡ false → F.lt (read_number v) (F.lit 0 0) ≡ false

abbrev pub vital_wire : {V : Type 0} → (V → V) → Option (Vital V) → Option (VitalWire V)
vital_wire read none = none
vital_wire read (some v) = some (record {
  name = v.name;
  value = read v.value;
  rating = get_or_else v.rating "";
  id = get_or_else v.id "";
  nav_type = get_or_else v.nav_type "";
})

abbrev pub revenue_wire : {V : Type 0} → (V → V) → Option (Revenue V) → Option (Revenue V)
revenue_wire read none = none
revenue_wire read (some r) = some (record r { amount = read r.amount })

-- An event as Go decodes it, where it fits; no tracker sends `perf`.
abbrev pub wire_of : {V : Type 0} → (V → V) → CollectPayload V → Wire V
wire_of read e = record {
  site_id = e.site_id;
  event = e.event;
  url = e.url;
  referrer = get_or_else e.referrer "";
  title = get_or_else e.title "";
  environment = get_or_else e.environment "";
  release = get_or_else e.release "";
  route = get_or_else e.route "";
  screen = e.screen;
  viewport = e.viewport;
  language = get_or_else e.language "";
  props = e.props;
  revenue = revenue_wire read e.revenue;
  perf = none;
  vital = vital_wire read e.vital;
  ts_client = get_or_else e.ts_client 0;
}

-- Both sides of a size are a `uint16`.
abbrev pub IsUint16 : Option Size → Type 0
IsUint16 none = Unit
IsUint16 (some s) = (s.w < 65536) × (s.h < 65536)

unfoldable pub has_key : String → Members → Bool
has_key k empty = false
has_key k (member l v ms) = if k == l then true else has_key k ms

-- Values that Go's decoder takes at a depth with so many levels left: each number has a `float64`,
-- no object has a key twice, and the nesting is not too deep.
unfoldable mutual
  unfolding has_key

  pub reads_json : (String → Bool) → ℕ → Json → Bool
  reads_json p d null = true
  reads_json p d (bool b) = true
  reads_json p d (num t) = p t
  reads_json p d (str t) = true
  reads_json p d (arr xs) = ltb 0 d && reads_items p (d - 1) xs
  reads_json p d (obj ms) = ltb 0 d && reads_members p (d - 1) ms

  pub reads_items : (String → Bool) → ℕ → Items → Bool
  reads_items p d nil = true
  reads_items p d (cons v xs) = reads_json p d v && reads_items p d xs

  pub reads_members : (String → Bool) → ℕ → Members → Bool
  reads_members p d empty = true
  reads_members p d (member k v ms) =
      not (has_key k ms) && (reads_json p d v && reads_members p d ms)

-- An event and its props are two of the 10,000 levels that the decoder takes.
abbrev pub reads_props : (String → Bool) → Option Members → Bool
reads_props p none = true
reads_props p (some ms) = reads_members p 9998 ms

-- An event fits the fields that Go decodes it into, and has no `perf`, as the tracker sends it.
abbrev pub Fits : {V : Type 0} → (String → Bool) → CollectPayload V → Type 0
Fits p e =
    IsUint16 e.screen
    × IsUint16 e.viewport
    × (get_or_else e.ts_client 0 < 2 ^ 63)
    × (reads_props p e.props ≡ true)
    × (e.perf ≡ none)
