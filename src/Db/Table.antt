-- ===== src/Db/Table.antt =====
-- src/output/db.rs: the definition of a table in `ensure_table`, as data.
pub mod Row
pub mod Fits
use wazuh_ocsf_etl.Base.{String, List, [], ◌∷◌}

-- A column with its type; the codecs say how it is kept on disk, and are left out.
pub record Column : Type 0 where
  pub name : String
  pub type_name : String

abbrev column : String → String → Column
column name type_name = record { name = name; type_name = type_name }

-- The columns of `CREATE TABLE`, in order
abbrev pub table_columns : List Column
table_columns =
    column "time" "DateTime"
    ∷ column "time_dt" "String"
    ∷ column "ocsf_version" "LowCardinality(String)"
    ∷ column "class_uid" "UInt32"
    ∷ column "class_name" "LowCardinality(String)"
    ∷ column "category_uid" "UInt32"
    ∷ column "category_name" "LowCardinality(String)"
    ∷ column "severity_id" "UInt8"
    ∷ column "severity" "LowCardinality(String)"
    ∷ column "activity_id" "UInt8"
    ∷ column "activity_name" "LowCardinality(String)"
    ∷ column "type_uid" "UInt32"
    ∷ column "status_id" "UInt8"
    ∷ column "confidence_id" "UInt8"
    ∷ column "status" "LowCardinality(String)"
    ∷ column "action" "LowCardinality(String)"
    ∷ column "device_uid" "String"
    ∷ column "device_name" "LowCardinality(String)"
    ∷ column "device_ip" "String"
    ∷ column "src_ip" "String"
    ∷ column "dst_ip" "String"
    ∷ column "src_port" "UInt16"
    ∷ column "dst_port" "UInt16"
    ∷ column "nat_src_ip" "String"
    ∷ column "nat_dst_ip" "String"
    ∷ column "nat_src_port" "UInt16"
    ∷ column "nat_dst_port" "UInt16"
    ∷ column "network_protocol" "LowCardinality(String)"
    ∷ column "bytes_in" "UInt64"
    ∷ column "bytes_out" "UInt64"
    ∷ column "actor_user" "String"
    ∷ column "target_user" "String"
    ∷ column "domain" "String"
    ∷ column "url" "String"
    ∷ column "http_method" "LowCardinality(String)"
    ∷ column "http_status" "UInt16"
    ∷ column "app_name" "LowCardinality(String)"
    ∷ column "src_hostname" "String"
    ∷ column "dst_hostname" "String"
    ∷ column "file_name" "String"
    ∷ column "process_name" "String"
    ∷ column "process_id" "UInt32"
    ∷ column "interface_in" "LowCardinality(String)"
    ∷ column "interface_out" "LowCardinality(String)"
    ∷ column "rule_name" "String"
    ∷ column "app_category" "LowCardinality(String)"
    ∷ column "finding_title" "String"
    ∷ column "finding_uid" "LowCardinality(String)"
    ∷ column "finding_types" "String"
    ∷ column "wazuh_rule_level" "UInt8"
    ∷ column "wazuh_fired_times" "UInt32"
    ∷ column "pci_dss" "String"
    ∷ column "gdpr" "String"
    ∷ column "hipaa" "String"
    ∷ column "nist_800_53" "String"
    ∷ column "attack_technique" "String"
    ∷ column "attack_id" "String"
    ∷ column "attack_tactic" "String"
    ∷ column "cve_id" "LowCardinality(String)"
    ∷ column "cvss_score" "Float32"
    ∷ column "src_location" "String"
    ∷ column "decoder_name" "LowCardinality(String)"
    ∷ column "manager_name" "LowCardinality(String)"
    ∷ column "event_data" "String"
    ∷ column "extensions" "String"
    ∷ column "unmapped" "String"
    ∷ column "raw_data" "String"
    ∷ []

-- What the statements of `migrations` add, if it is not there, with its default
abbrev pub migration_columns : List (Column × String)
migration_columns =
    (column "wazuh_rule_level" "UInt8", "0")
    ∷ (column "wazuh_fired_times" "UInt32", "0")
    ∷ (column "pci_dss" "String", "''")
    ∷ (column "gdpr" "String", "''")
    ∷ (column "hipaa" "String", "''")
    ∷ (column "nist_800_53" "String", "''")
    ∷ (column "cve_id" "LowCardinality(String)", "''")
    ∷ (column "cvss_score" "Float32", "0.0")
    ∷ []

-- The columns with an index, with its type
abbrev pub table_indexes : List (String × String)
table_indexes =
    ("src_ip", "bloom_filter(0.01)")
    ∷ ("dst_ip", "bloom_filter(0.01)")
    ∷ ("nat_src_ip", "bloom_filter(0.01)")
    ∷ ("actor_user", "bloom_filter(0.01)")
    ∷ ("target_user", "bloom_filter(0.01)")
    ∷ ("domain", "bloom_filter(0.01)")
    ∷ ("src_hostname", "bloom_filter(0.01)")
    ∷ ("dst_hostname", "bloom_filter(0.01)")
    ∷ ("file_name", "bloom_filter(0.01)")
    ∷ ("process_name", "bloom_filter(0.01)")
    ∷ ("url", "bloom_filter(0.01)")
    ∷ ("attack_id", "bloom_filter(0.01)")
    ∷ ("finding_uid", "set(0)")
    ∷ ("finding_title", "set(0)")
    ∷ ("rule_name", "set(0)")
    ∷ ("severity_id", "minmax")
    ∷ ("wazuh_rule_level", "minmax")
    ∷ ("class_uid", "minmax")
    ∷ ("type_uid", "minmax")
    ∷ ("http_status", "minmax")
    ∷ []

-- `ORDER BY`, and the column of `PARTITION BY` and `TTL`
abbrev pub table_order : List String
table_order = "class_uid" ∷ "device_name" ∷ "time" ∷ []

abbrev pub table_clock : String
table_clock = "time"
