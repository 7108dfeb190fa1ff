-- ===== src/Record.antt =====
-- src/pipeline/record.rs: the row that is written. `F32` is the type of the CVSS score, which the
-- model only stores; the unsigned integers are numbers, with their widths stated where they matter.
use wazuh_ocsf_etl.Base.{ℕ, String}

pub record OcsfRecord (F32 : Type 0) : Type 0 where
  pub time : ℕ
  pub time_dt : String
  pub ocsf_version : String
  pub class_uid : ℕ
  pub class_name : String
  pub category_uid : ℕ
  pub category_name : String
  pub severity_id : ℕ
  pub severity : String
  pub activity_id : ℕ
  pub activity_name : String
  pub type_uid : ℕ
  pub status_id : ℕ
  pub confidence_id : ℕ
  pub status : String
  pub action : String
  pub device_uid : String
  pub device_name : String
  pub device_ip : String
  pub src_ip : String
  pub dst_ip : String
  pub src_port : ℕ
  pub dst_port : ℕ
  pub nat_src_ip : String
  pub nat_dst_ip : String
  pub nat_src_port : ℕ
  pub nat_dst_port : ℕ
  pub network_protocol : String
  pub bytes_in : ℕ
  pub bytes_out : ℕ
  pub actor_user : String
  pub target_user : String
  pub domain : String
  pub url : String
  pub http_method : String
  pub http_status : ℕ
  pub app_name : String
  pub src_hostname : String
  pub dst_hostname : String
  pub file_name : String
  pub process_name : String
  pub process_id : ℕ
  pub interface_in : String
  pub interface_out : String
  pub rule_name : String
  pub app_category : String
  pub finding_title : String
  pub finding_uid : String
  pub finding_types : String
  pub wazuh_rule_level : ℕ
  pub wazuh_fired_times : ℕ
  pub pci_dss : String
  pub gdpr : String
  pub hipaa : String
  pub nist_800_53 : String
  pub attack_technique : String
  pub attack_id : String
  pub attack_tactic : String
  pub cve_id : String
  pub cvss_score : F32
  pub src_location : String
  pub decoder_name : String
  pub manager_name : String
  pub event_data : String
  pub extensions : String
  pub unmapped : String
  pub raw_data : String
