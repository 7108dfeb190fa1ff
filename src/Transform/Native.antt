-- ===== src/Transform/Native.antt =====
-- src/pipeline/transform.rs: the blocks for single log sources, between Extract and Overlay. What such a
-- block does to the columns depends on the event alone, so each is a list of steps.
pub mod Local
pub mod Sca
pub mod Aws
pub mod Sources
pub mod Cloud
pub mod Severity
pub mod Laws
use wazuh_ocsf_etl.Base.{
  String, List, [], ◌∷◌, ◌++◌, Option, none, some, if◌then◌else◌, is_empty, contains, trim, ◌==◌,
}
use wazuh_ocsf_etl.Json.{Value, Fields, get, as_object}
use wazuh_ocsf_etl.Json.Lookup.{str_of}
use wazuh_ocsf_etl.Transform.Columns.{Columns, insert}
use wazuh_ocsf_etl.Transform.Overlay.{Target, apply_target}

-- `fill` is `if column.is_empty() { … column = v; }` for a text `v` that may be empty, `extend` is
-- `extensions.insert`, and `name_protocol` is the `match` on the protocol of VPC flow logs.
pub data Step : Type 0 where
  fill : Target → String → Step
  extend : String → String → Step
  name_protocol : Step

-- The names of the IANA numbers; others stay, trimmed.
unfoldable pub protocol_name : String → String
protocol_name p =
    if p == "6"
    then "tcp"
    else if p == "17"
    then "udp"
    else if p == "1"
    then "icmp"
    else if p == "58"
    then "icmpv6"
    else if p == "47"
    then "gre"
    else if p == "50"
    then "esp"
    else p

-- A column that is empty takes the text, which leaves it empty if the text is. Of the numbers only the
-- process id is filled so.
unfoldable pub apply_step : Step → Columns → Columns
apply_step (fill column v) c = apply_target column "" v c
apply_step (extend key v) c = record c { extensions = insert key v c.extensions }
apply_step name_protocol c = record c {
  network_protocol =
      if is_empty c.network_protocol
      then c.network_protocol
      else protocol_name (trim c.network_protocol);
}

unfoldable pub apply_steps : List Step → Columns → Columns
apply_steps [] c = c
apply_steps (s ∷ steps) c = apply_steps steps (apply_step s c)

-- `if !v.is_empty() { extensions.insert(ext, v); }`
unfoldable pub note : String → String → List Step
note ext v = if is_empty v then [] else extend ext v ∷ []

-- The macros that take an extension for each key of a list; `look` reads a key.
unfoldable pub notes : (String → String) → List (String × String) → List Step
notes look [] = []
notes look ((key, ext) ∷ rest) = note ext (look key) ++ notes look rest

-- `obj.get(k).and_then(Value::as_str).unwrap_or("")`
unfoldable pub str_at : Fields → String → String
str_at fs k = str_of (get fs k)

abbrev object_of : Option Value → Option Fields
object_of none = none
object_of (some v) = as_object v

-- `obj.get(k).and_then(Value::as_object)`
unfoldable pub object_at : Fields → String → Option Fields
object_at fs k = object_of (get fs k)

-- The same where the object itself may be missing, which reads as an empty text
abbrev pub str_in : Option Fields → String → String
str_in none k = ""
str_in (some fs) k = str_at fs k

abbrev pub object_in : Option Fields → String → Option Fields
object_in none k = none
object_in (some fs) k = object_at fs k

-- `if let Some(x) = … { … }`
abbrev pub where_some : Option Fields → (Fields → List Step) → List Step
where_some none steps = []
where_some (some fs) steps = steps fs

-- `if v.is_empty() { w } else { v }`
abbrev pub or_text : String → String → String
or_text v w = if is_empty v then w else v
