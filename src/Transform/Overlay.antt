-- ===== src/Transform/Overlay.antt =====
-- src/pipeline/transform.rs: the overlay of the custom field mappings.
use wazuh_ocsf_etl.Base.{
  ℕ, ◌-◌, ◌^◌, String, List, [], ◌∷◌, Option, none, some, ◌==◌, if◌then◌else◌, eqb, is_empty,
  parse_uint,
}
use wazuh_ocsf_etl.Json.{Value}
use wazuh_ocsf_etl.Json.Lookup.{get_data_field, u16_max, u64_max}
use wazuh_ocsf_etl.Transform.Columns.{Columns, insert}

abbrev pub u32_max : ℕ
u32_max = 2 ^ 32 - 1

-- The arms of the `match` on a target.
pub data Target : Type 0 where
  src_ip dst_ip src_port dst_port actor_user target_user domain url http_method http_status app_name
        src_hostname file_name process_name process_id rule_name category action status nat_src_ip
        nat_dst_ip nat_src_port nat_dst_port dst_hostname interface_in interface_out bytes_in
        bytes_out network_protocol :
      Target
  other : Target

-- The literals of the `match`, each with its arm.
abbrev pub arms : List (String × Target)
arms =
    ("src_ip", src_ip)
    ∷ ("dst_ip", dst_ip)
    ∷ ("src_port", src_port)
    ∷ ("dst_port", dst_port)
    ∷ ("actor_user", actor_user)
    ∷ ("target_user", target_user)
    ∷ ("domain", domain)
    ∷ ("url", url)
    ∷ ("http_method", http_method)
    ∷ ("http_status", http_status)
    ∷ ("app_name", app_name)
    ∷ ("src_hostname", src_hostname)
    ∷ ("file_name", file_name)
    ∷ ("process_name", process_name)
    ∷ ("process_id", process_id)
    ∷ ("rule_name", rule_name)
    ∷ ("category", category)
    ∷ ("action", action)
    ∷ ("status", status)
    ∷ ("nat_src_ip", nat_src_ip)
    ∷ ("nat_dst_ip", nat_dst_ip)
    ∷ ("nat_src_port", nat_src_port)
    ∷ ("nat_dst_port", nat_dst_port)
    ∷ ("dst_hostname", dst_hostname)
    ∷ ("interface_in", interface_in)
    ∷ ("interface_out", interface_out)
    ∷ ("bytes_in", bytes_in)
    ∷ ("bytes_out", bytes_out)
    ∷ ("network_protocol", network_protocol)
    ∷ []

unfoldable pub arm_of : String → List (String × Target) → Target
arm_of t [] = other
arm_of t ((literal, arm) ∷ rest) = if t == literal then arm else arm_of t rest

unfoldable pub target_of : String → Target
unfolding arm_of
target_of t = arm_of t arms

-- `if column.is_empty() { column = val; }`
abbrev pub fill : String → String → String
fill column val = if is_empty column then val else column

abbrev pub or_zero : Option ℕ → ℕ
or_zero none = 0
or_zero (some n) = n

-- `if column == 0 { column = val.parse().unwrap_or(0); }`
unfoldable pub fill_num : ℕ → ℕ → String → ℕ
fill_num most column val = if eqb column 0 then or_zero (parse_uint most val) else column

-- What an arm does; `key` is the target's text, the key of an extension.
unfoldable pub apply_target : Target → String → String → Columns → Columns
apply_target src_ip key val c = record c { src_ip = fill c.src_ip val }
apply_target dst_ip key val c = record c { dst_ip = fill c.dst_ip val }
apply_target src_port key val c = record c { src_port = fill_num u16_max c.src_port val }
apply_target dst_port key val c = record c { dst_port = fill_num u16_max c.dst_port val }
apply_target actor_user key val c = record c { actor_user = fill c.actor_user val }
apply_target target_user key val c = record c { target_user = fill c.target_user val }
apply_target domain key val c = record c { domain = fill c.domain val }
apply_target url key val c = record c { url = fill c.url val }
apply_target http_method key val c = record c { http_method = fill c.http_method val }
apply_target http_status key val c = record c { http_status = fill_num u16_max c.http_status val }
apply_target app_name key val c = record c { app_name = fill c.app_name val }
apply_target src_hostname key val c = record c { src_hostname = fill c.src_hostname val }
apply_target file_name key val c = record c { file_name = fill c.file_name val }
apply_target process_name key val c = record c { process_name = fill c.process_name val }
apply_target process_id key val c = record c { process_id = fill_num u32_max c.process_id val }
apply_target rule_name key val c = record c { rule_name = fill c.rule_name val }
apply_target category key val c = record c { app_category = fill c.app_category val }
apply_target action key val c = record c { action = fill c.action val }
apply_target status key val c = record c { status = fill c.status val }
apply_target nat_src_ip key val c = record c { nat_src_ip = fill c.nat_src_ip val }
apply_target nat_dst_ip key val c = record c { nat_dst_ip = fill c.nat_dst_ip val }
apply_target nat_src_port key val c = record c {
  nat_src_port = fill_num u16_max c.nat_src_port val;
}
apply_target nat_dst_port key val c = record c {
  nat_dst_port = fill_num u16_max c.nat_dst_port val;
}
apply_target dst_hostname key val c = record c { dst_hostname = fill c.dst_hostname val }
apply_target interface_in key val c = record c { interface_in = fill c.interface_in val }
apply_target interface_out key val c = record c { interface_out = fill c.interface_out val }
apply_target bytes_in key val c = record c { bytes_in = fill_num u64_max c.bytes_in val }
apply_target bytes_out key val c = record c { bytes_out = fill_num u64_max c.bytes_out val }
apply_target network_protocol key val c = record c {
  network_protocol = fill c.network_protocol val;
}
apply_target other key val c = record c { extensions = insert key val c.extensions }

-- One entry of the field map: a field that the event lacks is skipped.
unfoldable pub apply_mapping : Value → String × String → Columns → Columns
apply_mapping data_val (wazuh_field, ocsf_target) c =
    let val = get_data_field data_val wazuh_field in
    if is_empty val then c else apply_target (target_of ocsf_target) ocsf_target val c

-- The loop over the field map, in the order in which the map yields its entries.
unfoldable pub overlay : Value → List (String × String) → Columns → Columns
overlay data_val [] c = c
overlay data_val (entry ∷ entries) c = overlay data_val entries (apply_mapping data_val entry c)
