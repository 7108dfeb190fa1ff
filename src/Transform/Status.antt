-- ===== src/Transform/Status.antt =====
-- src/pipeline/transform.rs: status, severity and confidence at the end of `transform`.
use wazuh_ocsf_etl.Base.{
  ℕ, String, List, [], ◌∷◌, not, ◌&&◌, ◌||◌, ◌==◌, if◌then◌else◌, eqb, leb, is_empty, any, contains,
  to_ascii_lowercase,
}

abbrev pub success_groups : List String
success_groups =
    "authentication_success" ∷ "win_authentication_success" ∷ "pam_success" ∷ "sudo" ∷ []

abbrev pub failure_groups : List String
failure_groups =
    "authentication_failed" ∷ "authentication_failure" ∷ "win_authentication_failed" ∷ "pam_failure"
    ∷ "invalid_login" ∷ "multiple_authentication_failures" ∷ []

-- A missing status is read off the rule groups; success is looked for first.
unfoldable pub status_from_groups : List String → String → String
status_from_groups groups status =
    if is_empty status
    then if any (contains success_groups) groups
      then "Success"
      else if any (contains failure_groups) groups
      then "Failure"
      else status
    else status

-- A status that is still missing is the action, for network activity.
unfoldable pub status_from_action : ℕ → String → String → String
status_from_action class_uid action status =
    if is_empty status && eqb class_uid 4001 && not (is_empty action) then action else status

unfoldable pub final_status : List String → ℕ → String → String → String
final_status groups class_uid action status =
    status_from_action class_uid action (status_from_groups groups status)

-- A scanner's label, in lower case; an unknown one keeps what was there.
unfoldable pub severity_of_label : String → ℕ × String → ℕ × String
severity_of_label label sev =
    if label == "critical"
    then (5, "Critical")
    else if label == "high"
    then (4, "High")
    else if contains ("medium" ∷ "moderate" ∷ []) label
    then (3, "Medium")
    else if label == "low"
    then (2, "Low")
    else if contains ("informational" ∷ "info" ∷ "none" ∷ []) label
    then (1, "Informational")
    else sev

-- The scanner's label overrides the severity of vulnerability findings.
unfoldable pub final_severity : ℕ → String → ℕ × String → ℕ × String
final_severity class_uid vuln_sev sev =
    if eqb class_uid 2002 && not (is_empty vuln_sev)
    then severity_of_label (to_ascii_lowercase vuln_sev) sev
    else sev

-- Findings: the status in lower case
unfoldable pub finding_status_id : String → ℕ
finding_status_id s =
    if contains ("in_progress" ∷ "in progress" ∷ "investigating" ∷ []) s
    then 2
    else if contains ("suppressed" ∷ "benign" ∷ "false_positive" ∷ []) s
    then 3
    else if contains ("resolved" ∷ "closed" ∷ "remediated" ∷ []) s
    then 4
    else if s == "archived"
    then 5
    else if s == "deleted"
    then 6
    else 1

abbrev successes : List String
successes = "success" ∷ "allow" ∷ "allowed" ∷ "pass" ∷ "passed" ∷ "accepted" ∷ []

abbrev failures : List String
failures =
    "failure" ∷ "fail" ∷ "failed" ∷ "deny" ∷ "denied" ∷ "block" ∷ "blocked" ∷ "drop" ∷ "dropped"
    ∷ "reject" ∷ "rejected" ∷ []

abbrev outcome_status_id : List String → String → ℕ
outcome_status_id bad s =
    if contains successes s then 1 else if contains bad s then 2 else if is_empty s then 0 else 99

-- Authentication reads "error" as a failure too; the other classes do not.
unfoldable pub status_id : ℕ → String → ℕ
status_id class_uid status =
    let s = to_ascii_lowercase status in
    if eqb class_uid 2002 || eqb class_uid 2003 || eqb class_uid 2004
    then finding_status_id s
    else if eqb class_uid 3002
    then outcome_status_id ("error" ∷ failures) s
    else outcome_status_id failures s

unfoldable pub confidence_id : ℕ → ℕ
confidence_id rule_level =
    if eqb rule_level 0
    then 0
    else if leb rule_level 6
    then 1
    else if leb rule_level 12
    then 2
    else 3
