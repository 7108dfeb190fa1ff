-- ===== src/Config.antt =====
-- src/config.rs: the settings, and the custom mappings of field_mappings.toml.
pub mod Load
pub mod Settings
pub mod Checks
use wazuh_ocsf_etl.Base.{
  ℕ, String, List, [], ◌∷◌, Bool, true, not, Option, none, some, map, if◌then◌else◌, is_empty, keep,
  contains, split, trim, to_ascii_lowercase, parse_uint,
}

abbrev pub standard_ocsf_targets : List String
standard_ocsf_targets =
    "src_ip" ∷ "dst_ip" ∷ "src_port" ∷ "dst_port" ∷ "nat_src_ip" ∷ "nat_dst_ip" ∷ "nat_src_port"
    ∷ "nat_dst_port" ∷ "actor_user" ∷ "target_user" ∷ "domain" ∷ "url" ∷ "http_method"
    ∷ "http_status" ∷ "app_name" ∷ "src_hostname" ∷ "dst_hostname" ∷ "file_name" ∷ "process_name"
    ∷ "process_id" ∷ "rule_name" ∷ "category" ∷ "action" ∷ "status" ∷ "interface_in"
    ∷ "interface_out" ∷ "bytes_in" ∷ "bytes_out" ∷ "network_protocol" ∷ []

-- The maps as lists of their entries.
pub record CustomMappings : Type 0 where
  pub ocsf_version : String
  pub field_map : List (String × String)
  pub ocsf_renames : List (String × String)

abbrev is_custom : String → Bool
is_custom t = not (contains standard_ocsf_targets t)

-- The values of the field map that are no typed column.
unfoldable pub custom_column_targets : CustomMappings → List String
custom_column_targets m = keep is_custom (map (λ entry. entry.1) m.field_map)

pub data InputMode : Type 0 where
  file zero_mq : InputMode

abbrev pub or_default : Option ℕ → ℕ → ℕ
or_default none default = default
or_default (some n) default = n

-- `std::env::var(name)` as the text, if it is set; `most` is the greatest value of the type.
unfoldable pub parse_env : ℕ → Option String → ℕ → ℕ
parse_env most none default = default
parse_env most (some s) default = or_default (parse_uint most (trim s)) default

-- `SPECIAL_LOCATIONS`
unfoldable pub parse_special_locations : String → List String
parse_special_locations text = keep (λ s. not (is_empty s)) (map trim (split b',' text))

-- `DATA_TTL_DAYS`
unfoldable pub parse_ttl : Option String → Option ℕ
parse_ttl none = none
parse_ttl (some s) = if is_empty (trim s) then none else parse_uint 4294967295 (trim s)

-- A switch that is on unless it is set to "0", "false" or "no".
unfoldable pub parse_switch : Option String → Bool
parse_switch none = true
parse_switch (some v) = not (contains ("0" ∷ "false" ∷ "no" ∷ []) (to_ascii_lowercase (trim v)))

unfoldable pub parse_input_mode : String → InputMode
parse_input_mode v =
    if contains ("zeromq" ∷ "zmq" ∷ "0mq" ∷ []) (to_ascii_lowercase (trim v)) then zero_mq else file
