-- ===== src/Transform/Input.antt =====
-- src/pipeline/transform.rs: the parts of an alert that `transform` reads before its columns.
use wazuh_ocsf_etl.Base.{
  ℕ, ◌%◌, ◌^◌, String, List, [], ◌∷◌, Option, none, some, if◌then◌else◌, is_empty, contains, join,
}
use wazuh_ocsf_etl.Classify.{map_severity}
use wazuh_ocsf_etl.Json.{
  Value, Items, Fields, str, num, arr, obj, no_fields, field, no_items, item, get, member,
  as_object,
}
use wazuh_ocsf_etl.Json.Lookup.{str_of, jpath, get_data_field}
use wazuh_ocsf_etl.Transform.Columns.{Event}
use wazuh_ocsf_etl.Transform.Native.{str_at, object_at, or_text}
use wazuh_ocsf_etl.Transform.Native.Local.{member_str}
use wazuh_ocsf_etl.Transform.Native.Severity.{
  Severity, aws_severity, gcp_severity, docker_severity, graph_severity, sev_where_some,
}

-- What other crates do: `serde_json::from_str` and `to_string`, the parser of timestamps, with the seconds
-- as a `u32` and the text of RFC 3339, the clock in the same form, and the numbers of type `f32`: their
-- parser, 0.0 where it fails, and `(x * 10.0) as u32`.
pub record Outside (F32 : Type 0) : Type 0 where
  pub from_str : String → Option Value
  pub to_json : Value → String
  pub parse_time : String → Option (ℕ × String)
  pub now : ℕ × String
  pub zero : F32
  pub parse_f32 : String → F32
  pub tenths : F32 → ℕ

abbrev or_no_fields : Option Fields → Fields
or_no_fields none = no_fields
or_no_fields (some fs) = fs

-- `section(k)`, empty where it is missing
unfoldable pub section : Fields → String → Fields
section fs k = or_no_fields (object_at fs k)

abbrev u64_or_zero : Option Value → ℕ
u64_or_zero (some (num n)) = elim n.as_u64 [ none ↦ 0 | some k ↦ k ]
u64_or_zero _ = 0

unfoldable pub u64_at : Fields → String → ℕ
u64_at fs k = u64_or_zero (get fs k)

-- `filter_map(Value::as_str)`
unfoldable pub strings : Items → List String
strings no_items = []
strings (item (str s) rest) = s ∷ strings rest
strings (item _ rest) = strings rest

abbrev strings_of : Option Value → List String
strings_of (some (arr xs)) = strings xs
strings_of _ = []

unfoldable pub strings_at : Fields → String → List String
unfolding strings
strings_at fs k = strings_of (get fs k)

unfoldable pub items_of : List String → Items
items_of [] = no_items
items_of (s ∷ rest) = item (str s) (items_of rest)

abbrev or_data : Option Value → Value
or_data none = obj no_fields
or_data (some v) = v

-- `data_val`
unfoldable pub data_of : Fields → Value
data_of fs = or_data (get fs "data")

abbrev or_else : Option Value → Option Value → Option Value
or_else none o = o
or_else (some v) o = some v

-- `@timestamp`, or `timestamp` where that key is missing
unfoldable pub timestamp : Fields → String
timestamp fs = str_of (or_else (get fs "@timestamp") (get fs "timestamp"))

abbrev pub known_sections : List String
known_sections =
    "@timestamp" ∷ "timestamp" ∷ "agent" ∷ "rule" ∷ "manager" ∷ "location" ∷ "data" ∷ "id"
    ∷ "decoder" ∷ "syscheck" ∷ "full_log" ∷ "predecoder" ∷ "previous_log" ∷ "previous_output" ∷ []

-- `unmapped_obj`
unfoldable pub unmapped_fields : Fields → Fields
unmapped_fields no_fields = no_fields
unmapped_fields (field k v fs) =
    let rest = unmapped_fields fs in if contains known_sections k then rest else field k v rest

-- `finding_title_override`: the title of an SCA check, or else the title in the data
unfoldable pub title_override : Value → String
title_override v = or_text (jpath v "sca.check.title") (member_str v "title")

abbrev time_or : Option (ℕ × String) → ℕ × String → ℕ × String
time_or none now = now
time_or (some t) now = t

abbrev object_of : Option Value → Option Fields
object_of none = none
object_of (some v) = as_object v

-- `data_val.get(k).and_then(Value::as_object)`
unfoldable pub object_of_data : Value → String → Option Fields
object_of_data v k = object_of (member v k)

module _ {F32 : Type 0} (o : Outside F32) where
  abbrev json_at : Option Value → String
  json_at none = ""
  json_at (some v) = o.to_json v

  abbrev mitre_at : Option Value → String → String
  mitre_at none k = ""
  mitre_at (some m) k = json_at (member m k)

  -- The score is looked up as a text or a number; without a CVE there is none.
  unfoldable pub cvss_score : Value → F32
  cvss_score v =
      if is_empty (jpath v "vulnerability.cve")
      then o.zero
      else o.parse_f32 (
          or_text (get_data_field v "vulnerability.cvss.cvss3.base_score")
            (get_data_field v "vulnerability.score.base"))

  -- `sev_id` and `sev_label` before the class is known
  unfoldable pub severity_of : Value → ℕ → Severity
  severity_of v rule_level =
      let aws =
        sev_where_some (object_of_data v "aws") (aws_severity (λ s. o.tenths (o.parse_f32 s))) in
      let gcp = sev_where_some (object_of_data v "gcp") gcp_severity in
      let docker = sev_where_some (object_of_data v "docker") docker_severity in
      let graph = sev_where_some (object_of_data v "ms-graph") graph_severity in
      graph (docker (gcp (aws (map_severity rule_level))))

  -- The variables of `Event`, from the text of the line and its object
  unfoldable pub read_event : String → Fields → Event F32
  read_event raw fs =
      let data_val = data_of fs in
      let rule = section fs "rule" in
      let groups = strings_at rule "groups" in
      let time = time_or (o.parse_time (timestamp fs)) o.now in
      let sev = severity_of data_val (u64_at rule "level") in
      record {
        time_secs = time.0;
        time_dt = time.1;
        agent_id = str_at (section fs "agent") "id";
        agent_name = str_at (section fs "agent") "name";
        agent_ip = str_at (section fs "agent") "ip";
        rule_id = str_at rule "id";
        rule_desc = str_at rule "description";
        rule_level = u64_at rule "level";
        rule_fired_times = u64_at rule "firedtimes" % 2 ^ 32;
        finding_title_override = title_override data_val;
        rule_groups = groups;
        finding_types = o.to_json (arr (items_of groups));
        pci_dss = join "," (strings_at rule "pci_dss");
        gdpr = join "," (strings_at rule "gdpr");
        hipaa = join "," (strings_at rule "hipaa");
        nist_800_53 = join "," (strings_at rule "nist_800_53");
        attack_technique = mitre_at (get rule "mitre") "technique";
        attack_id = mitre_at (get rule "mitre") "id";
        attack_tactic = mitre_at (get rule "mitre") "tactic";
        location = str_at fs "location";
        manager_name = str_at (section fs "manager") "name";
        decoder_name = str_at (section fs "decoder") "name";
        sev_id = sev.0;
        sev_label = sev.1;
        syscheck_event = str_at (section fs "syscheck") "event";
        cve_id = jpath data_val "vulnerability.cve";
        cvss_score = cvss_score data_val;
        vuln_sev =
            if is_empty (jpath data_val "vulnerability.cve")
            then ""
            else jpath data_val "vulnerability.severity";
        event_data = o.to_json data_val;
        unmapped = o.to_json (obj (unmapped_fields fs));
        raw = raw;
      }
