-- ===== src/Examples/Records.antt =====
-- Tests and instances for routing, classification, the overlay and the records.
use Prim.Native.String
use wazuh_ocsf_etl.Validator.Laws.{validate_ocsf_record-eq-nil_iff}
use wazuh_ocsf_etl.Transform.Activity.{activity, network_activity}
use wazuh_ocsf_etl.Validator.Ocsf.{silent_record_meets_ocsf}
use wazuh_ocsf_etl.Base.{
  ◌≤◌, ◌<◌, ◌+◌, ◌*◌, ◌≢◌, ◌⊎◌, ◌≡◌, refl, ◌||◌, String, List, [], ◌∷◌, true, false, not, contains,
  some, none, Option, if◌then◌else◌, All, map, arith, split_once, split, is_empty, trim_matches,
  to_ascii_lowercase, contains_str, ends_with, ◌==◌,
}
use wazuh_ocsf_etl.Config.{standard_ocsf_targets}
use wazuh_ocsf_etl.Classify.{classify_event}
use wazuh_ocsf_etl.Classify.Guards.{
  is_vpc_flow, is_guardduty, is_aws_findings, is_aws_config, is_aws_waf, is_aws_balancer, is_s3,
  is_identity_provider, is_zeek, is_cloudtrail_auth, is_file_event, is_process_event,
  is_vulnerability, is_compliance, is_ms_graph, is_account_change, is_authentication, is_dns,
  is_dhcp, is_cloudflare, is_web, is_firewall,
}
use wazuh_ocsf_etl.Validator.Laws.{IsCompliant}
use wazuh_ocsf_etl.Routing.{sanitize_name, routing_table}
use wazuh_ocsf_etl.Routing.Laws.{IsTableName, routing_table-IsTableName}
use wazuh_ocsf_etl.Db.Columns.{migrated_columns}
use wazuh_ocsf_etl.Db.Table.{
  Column, table_columns, migration_columns, table_indexes, table_order, table_clock,
}
use wazuh_ocsf_etl.Db.Table.Row.{row_cells}
use wazuh_ocsf_etl.Db.Table.Fits.{
  Wire, bits8, bits16, bits32, bits64, float32, bytes, IsRowBinary, sent, read_by, distinct,
  column_names, has_column, among, row_cells_fit_table,
}
use wazuh_ocsf_etl.Transform.Overlay.{overlay, target_of, apply_mapping, apply_target}
use wazuh_ocsf_etl.Transform.OverlayLaws.{is_other, target_of-other_iff}
use wazuh_ocsf_etl.Transform.Extensions.{lookup, or_before, last_value, lookup-overlay_of_custom}
use wazuh_ocsf_etl.Transform.Finish.{finish_record, to_record}
use wazuh_ocsf_etl.Transform.Schema.{finish_record-IsCompliant}
use wazuh_ocsf_etl.Json.Lookup.{get_data_field, walk, value_to_str}
use wazuh_ocsf_etl.Json.{member, get}
use wazuh_ocsf_etl.Examples.Data.{data_val, columns, event}

sanitize_runs : sanitize_name "--Web 01.example--" ≡ "web_01_example"
unfolding sanitize_name trim_matches to_ascii_lowercase
sanitize_runs = refl

abbrev no_json : List (String × String) → String
no_json m = "{}"

abbrev mappings : List (String × String)
mappings = ("srcip", "src_ip") ∷ ("net.dst", "dst_ip") ∷ ("site", "site_code") ∷ []

overlay_runs : (overlay data_val mappings columns).dst_ip ≡ "10.0.0.9"
unfolding overlay apply_mapping apply_target target_of get_data_field walk value_to_str member get
    split
overlay_runs = refl

routing_table-IsTableName_example :
    (t : String) × IsTableName t
    × (routing_table "wazuh" "Web 01" "/var/log" [] ≡ String.◌++◌ "wazuh" (String.◌++◌ "." t))
    × (split_once b'.' (routing_table "wazuh" "Web 01" "/var/log" []) ≡ some ("wazuh", t))
routing_table-IsTableName_example =
    routing_table-IsTableName "wazuh" "Web 01" "/var/log" []
      (refl, (refl, (refl, (refl, (refl, tt)))))

finish_record-IsCompliant_example : IsCompliant (finish_record no_json "1.7.0" event columns)
finish_record-IsCompliant_example =
    finish_record-IsCompliant no_json "1.7.0" event columns refl (omega arith)

activity_is_small : (finish_record no_json "1.7.0" event columns).activity_id ≤ 255
unfolding finish_record to_record activity network_activity classify_event to_ascii_lowercase
    contains contains_str ends_with is_vpc_flow is_guardduty is_aws_findings is_aws_config
    is_aws_waf is_aws_balancer is_s3 is_identity_provider is_zeek is_cloudtrail_auth is_file_event
    is_process_event is_vulnerability is_compliance is_ms_graph is_account_change is_authentication
    is_dns is_dhcp is_cloudflare is_web is_firewall
activity_is_small = omega arith

silent_record_meets_ocsf_example :
    let rec = finish_record no_json "1.7.0" event columns in
    ((rec.severity_id ≤ 6) ⊎ (rec.severity_id ≡ 99))
    × ((1 ≤ rec.category_uid) × (rec.category_uid ≤ 6))
    × ((rec.category_uid * 1000 < rec.class_uid) × (rec.class_uid ≤ rec.category_uid * 1000 + 8))
    × (rec.type_uid ≡ rec.class_uid * 100 + rec.activity_id)
    × (rec.time ≢ 0)
silent_record_meets_ocsf_example =
    silent_record_meets_ocsf (finish_record no_json "1.7.0" event columns)
      ((validate_ocsf_record-eq-nil_iff (finish_record no_json "1.7.0" event columns)).1
        (finish_record-IsCompliant no_json "1.7.0" event columns refl (omega arith)))
      activity_is_small

target_of-other_iff_example :
    is_other (target_of "site_code") ≡ not (contains standard_ocsf_targets "site_code")
target_of-other_iff_example = target_of-other_iff "site_code"

has_site : is_empty (get_data_field data_val "site") ≡ false
unfolding get_data_field walk value_to_str member
has_site = refl

not_standard : contains standard_ocsf_targets "site_code" ≡ false
unfolding contains
not_standard = refl

lookup-overlay_of_custom_example :
    lookup "site_code" (overlay data_val mappings columns).extensions
    ≡ or_before (last_value data_val mappings "site_code") (lookup "site_code" columns.extensions)
lookup-overlay_of_custom_example =
    lookup-overlay_of_custom data_val mappings "site_code" columns not_standard

-- A guard near the end of the ladder decides for an event that no guard before it takes.
classify_runs : (classify_event ("named" ∷ []) "Bind-DNS" "/var/log/syslog").class_uid ≡ 4003
unfolding classify_event to_ascii_lowercase contains contains_str ends_with is_vpc_flow is_guardduty
    is_aws_findings is_aws_config is_aws_waf is_aws_balancer is_s3 is_identity_provider is_zeek
    is_cloudtrail_auth is_file_event is_process_event is_vulnerability is_compliance is_ms_graph
    is_account_change is_authentication is_dns is_dhcp is_cloudflare is_web is_firewall
classify_runs = refl

-- The types as the server documents them
abbrev reads : String → Option Wire
reads type_name =
    if type_name == "DateTime" || type_name == "UInt32"
    then some bits32
    else if type_name == "UInt8"
    then some bits8
    else if type_name == "UInt16"
    then some bits16
    else if type_name == "UInt64"
    then some bits64
    else if type_name == "Float32"
    then some float32
    else if type_name == "String" || type_name == "LowCardinality(String)"
    then some bytes
    else none

reads-IsRowBinary : IsRowBinary reads
reads-IsRowBinary = record {
  date_time = refl;
  uint8 = refl;
  uint16 = refl;
  uint32 = refl;
  uint64 = refl;
  float = refl;
  string = refl;
  low_cardinality = refl;
}

row_cells_fit_table_example :
    let rec = finish_record no_json "1.7.0" event columns in
    (sent (row_cells rec) ≡ read_by reads table_columns)
    × (distinct column_names ≡ true)
    × All (λ (m : Column × String). has_column m.0 table_columns ≡ true) migration_columns
    × (map (λ (m : Column × String). m.0.name) migration_columns ≡ migrated_columns)
    × (among column_names (map (λ (i : String × String). i.0) table_indexes) ≡ true)
    × (among column_names (table_clock ∷ table_order) ≡ true)
row_cells_fit_table_example =
    row_cells_fit_table reads (finish_record no_json "1.7.0" event columns) reads-IsRowBinary
