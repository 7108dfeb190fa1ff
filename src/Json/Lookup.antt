-- ===== src/Json/Lookup.antt =====
-- src/util/json.rs: dotted paths, and the scans for the first usable value of a column.
use wazuh_ocsf_etl.Base.{
  ℕ, String, List, [], ◌∷◌, Bool, true, false, Option, none, some, ◌^◌, ◌-◌, min, ltb,
  if◌then◌else◌, is_empty, split, trim, parse_uint,
}
use wazuh_ocsf_etl.Json.{Value, bool, num, str, member, str_or_empty}

abbrev pub u16_max : ℕ
u16_max = 65535

abbrev pub u64_max : ℕ
u64_max = 2 ^ 64 - 1

-- The walk along the keys of a path, which every lookup makes: `none` where a segment is missing.
unfoldable pub walk : List String → Value → Option Value
walk [] cur = some cur
walk (key ∷ keys) cur = elim (member cur key) [ none ↦ none | some v ↦ walk keys v ]

abbrev pub str_of : Option Value → String
str_of none = ""
str_of (some v) = str_or_empty v

unfoldable pub jpath : Value → String → String
jpath root path = str_of (walk (split b'.' path) root)

abbrev pub bool_text : Bool → String
bool_text true = "true"
bool_text false = "false"

unfoldable pub value_to_str : Value → String
value_to_str (str s) = s
value_to_str (num n) = n.to_string
value_to_str (bool b) = bool_text b
value_to_str _ = ""

abbrev pub text_of : Option Value → String
text_of none = ""
text_of (some v) = value_to_str v

-- What one path of `first_str` gives; a literal key hides the nested path, whatever it holds.
abbrev str_candidate : Value → String → Option Value → String
str_candidate root p (some v) = str_or_empty v
str_candidate root p none = jpath root p

unfoldable pub first_str : Value → List String → String
first_str root [] = ""
first_str root (p ∷ paths) =
    let rest = first_str root paths in
    let s = str_candidate root p (member root p) in if is_empty s then rest else s

abbrev pub saturate : Option ℕ → Option ℕ
saturate none = none
saturate (some n) = some (min n u16_max)

-- `n.as_u64().map(|v| v.min(65535) as u16)` or `s.trim().parse::<u16>().ok()`
abbrev pub port_of : Value → Option ℕ
port_of (num n) = saturate n.as_u64
port_of (str s) = parse_uint u16_max (trim s)
port_of _ = none

abbrev pub port_of? : Option Value → Option ℕ
port_of? none = none
port_of? (some v) = port_of v

abbrev pub port_candidate : Value → String → Option Value → Option ℕ
port_candidate root p (some v) = port_of v
port_candidate root p none = port_of? (walk (split b'.' p) root)

-- A port of 0 counts as absent.
abbrev pub positive_or : ℕ → Option ℕ → ℕ
positive_or rest none = rest
positive_or rest (some n) = if ltb 0 n then n else rest

unfoldable pub first_port : Value → List String → ℕ
first_port root [] = 0
first_port root (p ∷ paths) =
    let rest = first_port root paths in positive_or rest (port_candidate root p (member root p))

abbrev pub u64_of : Value → Option ℕ
u64_of (num n) = n.as_u64
u64_of (str s) = parse_uint u64_max (trim s)
u64_of _ = none

abbrev u64_of? : Option Value → Option ℕ
u64_of? none = none
u64_of? (some v) = u64_of v

abbrev u64_candidate : Value → String → Option Value → Option ℕ
u64_candidate root p (some v) = u64_of v
u64_candidate root p none = u64_of? (walk (split b'.' p) root)

abbrev value_or : ℕ → Option ℕ → ℕ
value_or rest none = rest
value_or rest (some n) = n

-- Unlike a port, a counter of 0 is a value and ends the scan.
unfoldable pub first_u64 : Value → List String → ℕ
first_u64 root [] = 0
first_u64 root (p ∷ paths) =
    let rest = first_u64 root paths in value_or rest (u64_candidate root p (member root p))

-- The literal key first; an empty result goes on to the nested path.
unfoldable pub get_data_field : Value → String → String
get_data_field root path =
    let s = text_of (member root path) in
    if is_empty s then text_of (walk (split b'.' path) root) else s
