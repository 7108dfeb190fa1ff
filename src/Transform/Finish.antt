-- ===== src/Transform/Finish.antt =====
-- src/pipeline/transform.rs: the end of `transform`, from the route to the record.
use wazuh_ocsf_etl.Base.{ℕ, ◌+◌, ◌*◌, ◌%◌, ◌^◌, String, List, if◌then◌else◌, is_empty}
use wazuh_ocsf_etl.Classify.{OcsfClass, classify_event}
use wazuh_ocsf_etl.Record.{OcsfRecord}
use wazuh_ocsf_etl.Routing.{routing_table}
use wazuh_ocsf_etl.Transform.Columns.{Columns, Event}
use wazuh_ocsf_etl.Transform.Activity.{activity}
use wazuh_ocsf_etl.Transform.Status.{final_status, final_severity, status_id, confidence_id}

-- `serde_json::to_string` of the extensions is a parameter.
module _ (to_json : List (String × String) → String) {F32 : Type 0} where
  -- The literal `OcsfRecord { … }`, from the class and what was computed for it.
  unfoldable pub to_record :
      String → OcsfClass → Event F32 → Columns → String → ℕ × String → ℕ × String → OcsfRecord F32
  to_record ocsf_version c e cols status sev act = record {
    time = e.time_secs;
    time_dt = e.time_dt;
    ocsf_version = ocsf_version;
    class_uid = c.class_uid;
    class_name = c.class_name;
    category_uid = c.category_uid;
    category_name = c.category_name;
    severity_id = sev.0;
    severity = sev.1;
    activity_id = act.0;
    activity_name = act.1;
    type_uid = (c.class_uid * 100 + act.0) % 2 ^ 32;
    status_id = status_id c.class_uid status;
    confidence_id = confidence_id e.rule_level;
    status = status;
    action = cols.action;
    device_uid = e.agent_id;
    device_name = e.agent_name;
    device_ip = e.agent_ip;
    src_ip = cols.src_ip;
    dst_ip = cols.dst_ip;
    src_port = cols.src_port;
    dst_port = cols.dst_port;
    nat_src_ip = cols.nat_src_ip;
    nat_dst_ip = cols.nat_dst_ip;
    nat_src_port = cols.nat_src_port;
    nat_dst_port = cols.nat_dst_port;
    network_protocol = cols.network_protocol;
    bytes_in = cols.bytes_in;
    bytes_out = cols.bytes_out;
    actor_user = cols.actor_user;
    target_user = cols.target_user;
    domain = cols.domain;
    url = cols.url;
    http_method = cols.http_method;
    http_status = cols.http_status;
    app_name = cols.app_name;
    src_hostname = cols.src_hostname;
    dst_hostname = cols.dst_hostname;
    file_name = cols.file_name;
    process_name = cols.process_name;
    process_id = cols.process_id;
    interface_in = cols.interface_in;
    interface_out = cols.interface_out;
    rule_name = cols.rule_name;
    app_category = cols.app_category;
    finding_title =
        if is_empty e.finding_title_override then e.rule_desc else e.finding_title_override;
    finding_uid = e.rule_id;
    finding_types = e.finding_types;
    wazuh_rule_level = e.rule_level % 2 ^ 8;
    wazuh_fired_times = e.rule_fired_times;
    pci_dss = e.pci_dss;
    gdpr = e.gdpr;
    hipaa = e.hipaa;
    nist_800_53 = e.nist_800_53;
    attack_technique = e.attack_technique;
    attack_id = e.attack_id;
    attack_tactic = e.attack_tactic;
    cve_id = e.cve_id;
    cvss_score = e.cvss_score;
    src_location = e.location;
    decoder_name = e.decoder_name;
    manager_name = e.manager_name;
    event_data = e.event_data;
    extensions = to_json cols.extensions;
    unmapped = e.unmapped;
    raw_data = e.raw;
  }

  unfoldable pub finish_record : String → Event F32 → Columns → OcsfRecord F32
  unfolding to_record
  finish_record ocsf_version e cols =
      let c = classify_event e.rule_groups e.decoder_name e.location in
      let status = final_status e.rule_groups c.class_uid cols.action cols.status in
      let sev = final_severity c.class_uid e.vuln_sev (e.sev_id, e.sev_label) in
      let act = activity c.class_uid e.rule_groups e.syscheck_event cols.action cols.http_method in
      to_record ocsf_version c e cols status sev act

  -- The table and the row of an event.
  unfoldable pub finish :
      String → String → List String → Event F32 → Columns → String × OcsfRecord F32
  finish ocsf_version db special_locs e cols =
      (routing_table db e.agent_name e.location special_locs, finish_record ocsf_version e cols)
