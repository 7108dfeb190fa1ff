-- ===== src/Transform/Columns.antt =====
-- src/pipeline/transform.rs: the local variables of `transform` that its blocks fill in turn.
use wazuh_ocsf_etl.Base.{ℕ, String, List, [], ◌∷◌, ◌==◌, if◌then◌else◌}
use Prim.Native.String.{compare}
use text.Mathlib.Text.{is_le}

-- The `let mut` variables behind the typed columns, and the map of extensions, whose values are
-- always `Value::String`.
pub record Columns : Type 0 where
  pub src_ip : String
  pub dst_ip : String
  pub src_port : ℕ
  pub dst_port : ℕ
  pub nat_src_ip : String
  pub nat_dst_ip : String
  pub nat_src_port : ℕ
  pub nat_dst_port : ℕ
  pub network_protocol : String
  pub bytes_in : ℕ
  pub bytes_out : ℕ
  pub actor_user : String
  pub target_user : String
  pub domain : String
  pub url : String
  pub http_method : String
  pub http_status : ℕ
  pub app_name : String
  pub src_hostname : String
  pub dst_hostname : String
  pub file_name : String
  pub process_name : String
  pub process_id : ℕ
  pub interface_in : String
  pub interface_out : String
  pub rule_name : String
  pub app_category : String
  pub action : String
  pub status : String
  pub extensions : List (String × String)

-- `Map::insert`: the last value of a key stays, and the map is kept in the order of its keys.
unfoldable pub insert : String → String → List (String × String) → List (String × String)
insert key val [] = (key, val) ∷ []
insert key val ((present, old) ∷ entries) =
    let others = insert key val entries in
    if present == key
    then (key, val) ∷ entries
    else if is_le (compare key present)
    then (key, val) ∷ (present, old) ∷ entries
    else (present, old) ∷ others

-- The other variables that the end of `transform` reads, none of which it changes but the severity.
pub record Event (F32 : Type 0) : Type 0 where
  pub time_secs : ℕ
  pub time_dt : String
  pub agent_id : String
  pub agent_name : String
  pub agent_ip : String
  pub rule_id : String
  pub rule_desc : String
  pub rule_level : ℕ
  pub rule_fired_times : ℕ
  pub finding_title_override : String
  pub rule_groups : List String
  pub finding_types : String
  pub pci_dss : String
  pub gdpr : String
  pub hipaa : String
  pub nist_800_53 : String
  pub attack_technique : String
  pub attack_id : String
  pub attack_tactic : String
  pub location : String
  pub manager_name : String
  pub decoder_name : String
  pub sev_id : ℕ
  pub sev_label : String
  pub syscheck_event : String
  pub cve_id : String
  pub cvss_score : F32
  pub vuln_sev : String
  pub event_data : String
  pub unmapped : String
  pub raw : String
