-- ===== src/Transform/Native/Severity.antt =====
-- src/pipeline/transform.rs: the severities that single log sources give an event.
use wazuh_ocsf_etl.Base.{
  ℕ, String, [], ◌∷◌, Option, none, some, if◌then◌else◌, is_empty, ◌==◌, ◌||◌, leb, ltb, contains,
  to_ascii_lowercase, to_ascii_uppercase,
}
use wazuh_ocsf_etl.Json.{Fields}
use wazuh_ocsf_etl.Transform.Status.{severity_of_label}
use wazuh_ocsf_etl.Transform.Native.{str_at, object_at, str_in}

-- `sev_id` with `sev_label`
abbrev pub Severity : Type 0
Severity = ℕ × String

-- GuardDuty, from ten times its number, cut down to a `u32`
unfoldable pub guardduty_severity : ℕ → Severity
guardduty_severity tenths =
    if leb 80 tenths
    then (5, "Critical")
    else if leb 70 tenths
    then (4, "High")
    else if leb 40 tenths
    then (3, "Medium")
    else if leb 10 tenths
    then (2, "Low")
    else (1, "Informational")

-- Security Hub, by its label in lower case
unfoldable pub hub_severity : String → Severity → Severity
hub_severity label sev =
    if label == "critical"
    then (5, "Critical")
    else if label == "high"
    then (4, "High")
    else if label == "medium"
    then (3, "Medium")
    else if label == "low"
    then (2, "Low")
    else if label == "informational"
    then (1, "Informational")
    else sev

-- The text of a finding's severity, which may be an object
abbrev pub described : Option Fields → String → String
described none label = label
described (some severity) label = str_at severity "description"

-- `tenths` reads the text as an `f32`, 0 where it is none, and gives ten times that as a `u32`.
unfoldable pub aws_severity : (String → ℕ) → Fields → Severity → Severity
aws_severity tenths aws sev =
    let source = str_at aws "source" in
    let number = str_at aws "severity" in
    let label = described (object_at aws "severity") number in
    let hub = str_in (object_at aws "Severity") "Label" in
    if source == "guardduty"
    then if is_empty number then sev else guardduty_severity (tenths number)
    else if source == "inspector" || source == "macie"
    then if is_empty label then sev else severity_of_label (to_ascii_lowercase label) sev
    else if source == "securityhub"
    then if is_empty hub then sev else hub_severity (to_ascii_lowercase hub) sev
    else sev

-- Google Cloud, by its label in upper case
unfoldable pub gcp_label : String → Severity → Severity
gcp_label label sev =
    if contains ("EMERGENCY" ∷ "ALERT" ∷ []) label
    then (5, "Critical")
    else if label == "CRITICAL"
    then (5, "Critical")
    else if label == "ERROR"
    then (4, "High")
    else if label == "WARNING"
    then (3, "Medium")
    else if label == "NOTICE"
    then (2, "Low")
    else if contains ("INFO" ∷ "DEBUG" ∷ []) label
    then (1, "Informational")
    else sev

unfoldable pub gcp_severity : Fields → Severity → Severity
gcp_severity gcp sev =
    let label = str_at gcp "severity" in
    if is_empty label then sev else gcp_label (to_ascii_uppercase label) sev

-- Docker, by its level in lower case
unfoldable pub docker_level : String → Severity
docker_level level =
    if level == "error"
    then (4, "High")
    else if contains ("warning" ∷ "warn" ∷ []) level
    then (3, "Medium")
    else (1, "Informational")

-- Docker's level only raises a severity.
unfoldable pub docker_severity : Fields → Severity → Severity
docker_severity docker sev =
    let level = str_at docker "level" in
    let raised = docker_level (to_ascii_lowercase level) in
    if is_empty level then sev else if ltb sev.0 raised.0 then raised else sev

-- Microsoft Graph, by its label in lower case
unfoldable pub graph_label : String → Severity → Severity
graph_label label sev =
    if label == "high"
    then (4, "High")
    else if label == "medium"
    then (3, "Medium")
    else if label == "low"
    then (2, "Low")
    else if label == "informational"
    then (1, "Informational")
    else sev

unfoldable pub graph_severity : Fields → Severity → Severity
graph_severity graph sev =
    let label = str_at graph "severity" in
    if is_empty label then sev else graph_label (to_ascii_lowercase label) sev

abbrev pub sev_where_some : Option Fields → (Fields → Severity → Severity) → Severity → Severity
sev_where_some none f sev = sev
sev_where_some (some fs) f sev = f fs sev
