-- ===== src/Examples/Data.antt =====
-- Concrete events and mappings, shared by the tests and the instances.
use wazuh_ocsf_etl.Base.{ℕ, [], ◌∷◌, some}
use wazuh_ocsf_etl.Json.{Value, Number, num, str, obj, no_fields, field}
use wazuh_ocsf_etl.Transform.Columns.{Columns, Event}

abbrev pub port_22 : Number
port_22 = record { as_u64 = some 22; to_string = "22" }

-- A firewall event with a nested object.
abbrev pub data_val : Value
data_val = obj (
    field "srcip" (str "10.0.0.7") (
      field "net" (obj (field "dst" (str "10.0.0.9") (field "port" (num port_22) no_fields)))
        (field "site" (str "hq") no_fields)))

abbrev pub columns : Columns
columns = record {
  src_ip = "10.0.0.7";
  dst_ip = "";
  src_port = 0;
  dst_port = 0;
  nat_src_ip = "";
  nat_dst_ip = "";
  nat_src_port = 0;
  nat_dst_port = 0;
  network_protocol = "";
  bytes_in = 0;
  bytes_out = 0;
  actor_user = "";
  target_user = "";
  domain = "";
  url = "";
  http_method = "";
  http_status = 0;
  app_name = "";
  src_hostname = "";
  dst_hostname = "";
  file_name = "";
  process_name = "";
  process_id = 0;
  interface_in = "";
  interface_out = "";
  rule_name = "";
  app_category = "";
  action = "DROP";
  status = "";
  extensions = [];
}

abbrev pub event : Event ℕ
event = record {
  time_secs = 1700000000;
  time_dt = "2023-11-14T22:13:20+00:00";
  agent_id = "";
  agent_name = "Web 01";
  agent_ip = "";
  rule_id = "";
  rule_desc = "";
  rule_level = 7;
  rule_fired_times = 0;
  finding_title_override = "";
  rule_groups = "iptables" ∷ [];
  finding_types = "";
  pci_dss = "";
  gdpr = "";
  hipaa = "";
  nist_800_53 = "";
  attack_technique = "";
  attack_id = "";
  attack_tactic = "";
  location = "/var/log/syslog";
  manager_name = "";
  decoder_name = "iptables";
  sev_id = 3;
  sev_label = "Medium";
  syscheck_event = "";
  cve_id = "";
  cvss_score = 0;
  vuln_sev = "";
  event_data = "";
  unmapped = "";
  raw = "";
}
