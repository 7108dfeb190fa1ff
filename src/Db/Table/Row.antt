-- ===== src/Db/Table/Row.antt =====
-- src/pipeline/record.rs: the row that `derive(Row, Serialize)` gives to the insertion.
use wazuh_ocsf_etl.Base.{ℕ, String, List, [], ◌∷◌}
use wazuh_ocsf_etl.Record.{OcsfRecord}

-- A field by the type that it has in the source
pub data Cell (F32 : Type 0) : Type 0 where
  u8 u16 u32 u64 : ℕ → Cell F32
  f32 : F32 → Cell F32
  text : String → Cell F32

-- The fields in the order of their declaration, by their names
unfoldable pub row_cells : {F32 : Type 0} → OcsfRecord F32 → List (String × Cell F32)
row_cells rec =
    ("time", u32 rec.time)
    ∷ ("time_dt", text rec.time_dt)
    ∷ ("ocsf_version", text rec.ocsf_version)
    ∷ ("class_uid", u32 rec.class_uid)
    ∷ ("class_name", text rec.class_name)
    ∷ ("category_uid", u32 rec.category_uid)
    ∷ ("category_name", text rec.category_name)
    ∷ ("severity_id", u8 rec.severity_id)
    ∷ ("severity", text rec.severity)
    ∷ ("activity_id", u8 rec.activity_id)
    ∷ ("activity_name", text rec.activity_name)
    ∷ ("type_uid", u32 rec.type_uid)
    ∷ ("status_id", u8 rec.status_id)
    ∷ ("confidence_id", u8 rec.confidence_id)
    ∷ ("status", text rec.status)
    ∷ ("action", text rec.action)
    ∷ ("device_uid", text rec.device_uid)
    ∷ ("device_name", text rec.device_name)
    ∷ ("device_ip", text rec.device_ip)
    ∷ ("src_ip", text rec.src_ip)
    ∷ ("dst_ip", text rec.dst_ip)
    ∷ ("src_port", u16 rec.src_port)
    ∷ ("dst_port", u16 rec.dst_port)
    ∷ ("nat_src_ip", text rec.nat_src_ip)
    ∷ ("nat_dst_ip", text rec.nat_dst_ip)
    ∷ ("nat_src_port", u16 rec.nat_src_port)
    ∷ ("nat_dst_port", u16 rec.nat_dst_port)
    ∷ ("network_protocol", text rec.network_protocol)
    ∷ ("bytes_in", u64 rec.bytes_in)
    ∷ ("bytes_out", u64 rec.bytes_out)
    ∷ ("actor_user", text rec.actor_user)
    ∷ ("target_user", text rec.target_user)
    ∷ ("domain", text rec.domain)
    ∷ ("url", text rec.url)
    ∷ ("http_method", text rec.http_method)
    ∷ ("http_status", u16 rec.http_status)
    ∷ ("app_name", text rec.app_name)
    ∷ ("src_hostname", text rec.src_hostname)
    ∷ ("dst_hostname", text rec.dst_hostname)
    ∷ ("file_name", text rec.file_name)
    ∷ ("process_name", text rec.process_name)
    ∷ ("process_id", u32 rec.process_id)
    ∷ ("interface_in", text rec.interface_in)
    ∷ ("interface_out", text rec.interface_out)
    ∷ ("rule_name", text rec.rule_name)
    ∷ ("app_category", text rec.app_category)
    ∷ ("finding_title", text rec.finding_title)
    ∷ ("finding_uid", text rec.finding_uid)
    ∷ ("finding_types", text rec.finding_types)
    ∷ ("wazuh_rule_level", u8 rec.wazuh_rule_level)
    ∷ ("wazuh_fired_times", u32 rec.wazuh_fired_times)
    ∷ ("pci_dss", text rec.pci_dss)
    ∷ ("gdpr", text rec.gdpr)
    ∷ ("hipaa", text rec.hipaa)
    ∷ ("nist_800_53", text rec.nist_800_53)
    ∷ ("attack_technique", text rec.attack_technique)
    ∷ ("attack_id", text rec.attack_id)
    ∷ ("attack_tactic", text rec.attack_tactic)
    ∷ ("cve_id", text rec.cve_id)
    ∷ ("cvss_score", f32 rec.cvss_score)
    ∷ ("src_location", text rec.src_location)
    ∷ ("decoder_name", text rec.decoder_name)
    ∷ ("manager_name", text rec.manager_name)
    ∷ ("event_data", text rec.event_data)
    ∷ ("extensions", text rec.extensions)
    ∷ ("unmapped", text rec.unmapped)
    ∷ ("raw_data", text rec.raw_data)
    ∷ []
