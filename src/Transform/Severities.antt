-- ===== src/Transform/Severities.antt =====
-- src/pipeline/transform.rs: the severities that `transform` can give.
use wazuh_ocsf_etl.Base.{
  ℕ, ◌≡◌, String, true, Option, none, some, arith, contains_num, to_ascii_lowercase,
  to_ascii_uppercase,
}
use wazuh_ocsf_etl.Json.{Value, Fields}
use wazuh_ocsf_etl.Classify.{map_severity}
use wazuh_ocsf_etl.Validator.{valid_severity_ids}
use wazuh_ocsf_etl.Transform.Status.{severity_of_label}
use wazuh_ocsf_etl.Transform.Native.{str_at, object_at, str_in}
use wazuh_ocsf_etl.Transform.Native.Severity.{
  Severity, described, guardduty_severity, hub_severity, aws_severity, gcp_label, gcp_severity,
  docker_level, docker_severity, graph_label, graph_severity, sev_where_some,
}
use wazuh_ocsf_etl.Transform.Input.{Outside, object_of_data, severity_of}

-- The validator lists the severity.
pub record IsSeverity (sev : Severity) : Type 0 where
  pub listed : contains_num valid_severity_ids sev.0 ≡ true

map_severity-IsSeverity : (level : ℕ) → IsSeverity (map_severity level)
unfolding map_severity
map_severity-IsSeverity level = record { listed = ground arith }

guardduty_severity-IsSeverity : (n : ℕ) → IsSeverity (guardduty_severity n)
unfolding guardduty_severity
guardduty_severity-IsSeverity n = record { listed = ground arith }

severity_of_label-IsSeverity :
    (label : String) (sev : Severity) → IsSeverity sev → IsSeverity (severity_of_label label sev)
unfolding severity_of_label
severity_of_label-IsSeverity label sev h = record { listed = ground (arith, h.listed) }

hub_severity-IsSeverity :
    (label : String) (sev : Severity) → IsSeverity sev → IsSeverity (hub_severity label sev)
unfolding hub_severity
hub_severity-IsSeverity label sev h = record { listed = ground (arith, h.listed) }

gcp_label-IsSeverity :
    (label : String) (sev : Severity) → IsSeverity sev → IsSeverity (gcp_label label sev)
unfolding gcp_label
gcp_label-IsSeverity label sev h = record { listed = ground (arith, h.listed) }

docker_level-IsSeverity : (level : String) → IsSeverity (docker_level level)
unfolding docker_level
docker_level-IsSeverity level = record { listed = ground arith }

graph_label-IsSeverity :
    (label : String) (sev : Severity) → IsSeverity sev → IsSeverity (graph_label label sev)
unfolding graph_label
graph_label-IsSeverity label sev h = record { listed = ground (arith, h.listed) }

aws_severity-IsSeverity :
    (tenths : String → ℕ) (aws : Fields) (sev : Severity)
    → IsSeverity sev
    → IsSeverity (aws_severity tenths aws sev)
unfolding aws_severity
aws_severity-IsSeverity tenths aws sev h =
    let number = str_at aws "severity" in
    let label = to_ascii_lowercase (described (object_at aws "severity") number) in
    let hub = to_ascii_lowercase (str_in (object_at aws "Severity") "Label") in
    record {
      listed = ground (
        arith,
        h.listed,
        (guardduty_severity-IsSeverity (tenths number)).listed,
        (severity_of_label-IsSeverity label sev h).listed,
        (hub_severity-IsSeverity hub sev h).listed,
      );
    }

gcp_severity-IsSeverity :
    (gcp : Fields) (sev : Severity) → IsSeverity sev → IsSeverity (gcp_severity gcp sev)
unfolding gcp_severity
gcp_severity-IsSeverity gcp sev h =
    let label = to_ascii_uppercase (str_at gcp "severity") in
    record { listed = ground (arith, h.listed, (gcp_label-IsSeverity label sev h).listed) }

docker_severity-IsSeverity :
    (docker : Fields) (sev : Severity) → IsSeverity sev → IsSeverity (docker_severity docker sev)
unfolding docker_severity
docker_severity-IsSeverity docker sev h =
    let level = to_ascii_lowercase (str_at docker "level") in
    record { listed = ground (arith, h.listed, (docker_level-IsSeverity level).listed) }

graph_severity-IsSeverity :
    (graph : Fields) (sev : Severity) → IsSeverity sev → IsSeverity (graph_severity graph sev)
unfolding graph_severity
graph_severity-IsSeverity graph sev h =
    let label = to_ascii_lowercase (str_at graph "severity") in
    record { listed = ground (arith, h.listed, (graph_label-IsSeverity label sev h).listed) }

sev_where_some-IsSeverity :
    (o : Option Fields) (f : Fields → Severity → Severity) (sev : Severity)
    → ((fs : Fields) (s : Severity) → IsSeverity s → IsSeverity (f fs s))
    → IsSeverity sev
    → IsSeverity (sev_where_some o f sev)
sev_where_some-IsSeverity none f sev step h = h
sev_where_some-IsSeverity (some fs) f sev step h = step fs sev h

module _ {F32 : Type 0} (o : Outside F32) where
  pub severity_of-IsSeverity : (v : Value) (level : ℕ) → IsSeverity (severity_of o v level)
  unfolding severity_of
  severity_of-IsSeverity v level =
      sev_where_some-IsSeverity (object_of_data v "ms-graph") graph_severity _
        graph_severity-IsSeverity
        (sev_where_some-IsSeverity (object_of_data v "docker") docker_severity _
          docker_severity-IsSeverity
          (sev_where_some-IsSeverity (object_of_data v "gcp") gcp_severity _ gcp_severity-IsSeverity
            (sev_where_some-IsSeverity (object_of_data v "aws") (aws_severity _) _
              (aws_severity-IsSeverity _) (map_severity-IsSeverity level))))
