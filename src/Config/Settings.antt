-- ===== src/Config/Settings.antt =====
-- src/config.rs: `AppConfig::from_env`. The environment is a function, none for a variable that is not set or
-- is not Unicode, and a path is its text.
use wazuh_ocsf_etl.Base.{ℕ, ◌^◌, ◌-◌, String, List, Bool, Option, none, some}
use wazuh_ocsf_etl.Config.{
  InputMode, parse_env, parse_special_locations, parse_ttl, parse_switch, parse_input_mode,
}

pub record AppConfig : Type 0 where
  pub clickhouse_url : String
  pub clickhouse_db : String
  pub clickhouse_user : String
  pub clickhouse_password : String
  pub alerts_file : String
  pub mappings_file : String
  pub state_file : String
  pub special_locations : List String
  pub data_ttl_days : Option ℕ
  pub seek_to_end_on_first_run : Bool
  pub batch_size : ℕ
  pub flush_interval_secs : ℕ
  pub channel_cap : ℕ
  pub input_mode : InputMode
  pub zeromq_uri : String
  pub unmapped_fields_file : String
  pub store_raw_data : Bool

-- `usize` and `u64`, on a machine of 64 bits
abbrev u64_most : ℕ
u64_most = 2 ^ 64 - 1

-- `unwrap_or_else(|_| default.into())`
abbrev text_or : Option String → String → String
text_or none default = default
text_or (some text) default = text

unfoldable pub from_env : (String → Option String) → AppConfig
from_env var = record {
  clickhouse_url = text_or (var "CLICKHOUSE_URL") "http://localhost:8123";
  clickhouse_db = text_or (var "CLICKHOUSE_DATABASE") "wazuh_ocsf";
  clickhouse_user = text_or (var "CLICKHOUSE_USER") "default";
  clickhouse_password = text_or (var "CLICKHOUSE_PASSWORD") "";
  alerts_file = text_or (var "ALERTS_FILE") "/var/ossec/logs/alerts/alerts.json";
  mappings_file = text_or (var "FIELD_MAPPINGS_FILE") "config/field_mappings.toml";
  state_file = text_or (var "STATE_FILE") "state/alerts.pos";
  special_locations = parse_special_locations (text_or (var "SPECIAL_LOCATIONS") "");
  data_ttl_days = parse_ttl (var "DATA_TTL_DAYS");
  seek_to_end_on_first_run = parse_switch (var "SEEK_TO_END_ON_FIRST_RUN");
  batch_size = parse_env u64_most (var "BATCH_SIZE") 5000;
  flush_interval_secs = parse_env u64_most (var "FLUSH_INTERVAL_SECS") 5;
  channel_cap = parse_env u64_most (var "CHANNEL_CAP") 50000;
  input_mode = parse_input_mode (text_or (var "INPUT_MODE") "");
  zeromq_uri = text_or (var "ZEROMQ_URI") "tcp://localhost:11111";
  unmapped_fields_file = text_or (var "UNMAPPED_FIELDS_FILE") "state/unmapped_fields.json";
  store_raw_data = parse_switch (var "STORE_RAW_DATA");
}
