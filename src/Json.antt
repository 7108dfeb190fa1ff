-- ===== src/Json.antt =====
-- src/util/json.rs, and the part of `serde_json::Value` that the program reads.
pub mod Lookup
pub mod Flatten
pub mod Segments
pub mod RoundTrip
use wazuh_ocsf_etl.Base.{ℕ, String, Bool, true, false, Option, none, some, ◌==◌, if◌then◌else◌}

-- A JSON number, by what the program asks of it: `as_u64`, and its text by `to_string`.
pub record Number : Type 0 where
  pub as_u64 : Option ℕ
  pub to_string : String

mutual
  -- `serde_json::Value`
  pub data Value : Type 0 where
    obj : Fields → Value
    arr : Items → Value
    str : String → Value
    num : Number → Value
    bool : Bool → Value
    null : Value

  -- The entries of a map, in its order
  pub data Fields : Type 0 where
    no_fields : Fields
    field : String → Value → Fields → Fields

  -- The elements of an array
  pub data Items : Type 0 where
    no_items : Items
    item : Value → Items → Items

-- `Map::get`
unfoldable pub get : Fields → String → Option Value
get no_fields k = none
get (field j v fs) k = if j == k then some v else get fs k

abbrev pub as_object : Value → Option Fields
as_object (obj fs) = some fs
as_object _ = none

-- `as_str().unwrap_or("")`
abbrev pub str_or_empty : Value → String
str_or_empty (str s) = s
str_or_empty _ = ""

-- `v.as_object().and_then(|m| m.get(k))`
unfoldable pub member : Value → String → Option Value
unfolding get
member (obj fs) k = get fs k
member _ k = none
