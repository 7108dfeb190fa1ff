-- ===== src/Transform/Extract.antt =====
-- src/pipeline/transform.rs: the first values of the columns, from the candidate paths.
use wazuh_ocsf_etl.Base.{[]}
use wazuh_ocsf_etl.Json.{Value}
use wazuh_ocsf_etl.Json.Lookup.{first_str, first_port, first_u64}
use wazuh_ocsf_etl.FieldPaths
use wazuh_ocsf_etl.Transform.Columns.{Columns}

-- `process_id` is scanned as a port, so it saturates at 65535 too. No extension is there yet.
unfoldable pub extract_columns : Value → Columns
extract_columns data_val = record {
  src_ip = first_str data_val FieldPaths.src_ip;
  dst_ip = first_str data_val FieldPaths.dst_ip;
  src_port = first_port data_val FieldPaths.src_port;
  dst_port = first_port data_val FieldPaths.dst_port;
  nat_src_ip = first_str data_val FieldPaths.nat_src_ip;
  nat_dst_ip = first_str data_val FieldPaths.nat_dst_ip;
  nat_src_port = first_port data_val FieldPaths.nat_src_port;
  nat_dst_port = first_port data_val FieldPaths.nat_dst_port;
  network_protocol = first_str data_val FieldPaths.protocol;
  bytes_in = first_u64 data_val FieldPaths.bytes_in;
  bytes_out = first_u64 data_val FieldPaths.bytes_out;
  actor_user = first_str data_val FieldPaths.actor_user;
  target_user = first_str data_val FieldPaths.target_user;
  domain = first_str data_val FieldPaths.domain;
  url = first_str data_val FieldPaths.url;
  http_method = first_str data_val FieldPaths.http_method;
  http_status = first_port data_val FieldPaths.http_status;
  app_name = first_str data_val FieldPaths.app_name;
  src_hostname = first_str data_val FieldPaths.src_hostname;
  dst_hostname = first_str data_val FieldPaths.dst_hostname;
  file_name = first_str data_val FieldPaths.file_name;
  process_name = first_str data_val FieldPaths.process_name;
  process_id = first_port data_val FieldPaths.process_id;
  interface_in = first_str data_val FieldPaths.iface_in;
  interface_out = first_str data_val FieldPaths.iface_out;
  rule_name = first_str data_val FieldPaths.rule_name;
  app_category = first_str data_val FieldPaths.category;
  action = first_str data_val FieldPaths.action;
  status = first_str data_val FieldPaths.status;
  extensions = [];
}
