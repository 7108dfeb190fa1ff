-- ===== src/Classify.antt =====
-- src/pipeline/classify.rs: the OCSF class of an event, and the severity of a rule level.
pub mod Guards
pub mod Laws
use wazuh_ocsf_etl.Base.{ℕ, String, List, Bool, if◌then◌else◌, eqb, leb, to_ascii_lowercase}
use Guards.{
  is_vpc_flow, is_guardduty, is_aws_findings, is_aws_config, is_aws_waf, is_aws_balancer, is_s3,
  is_identity_provider, is_zeek, is_cloudtrail_auth, is_file_event, is_process_event,
  is_vulnerability, is_compliance, is_ms_graph, is_account_change, is_authentication, is_dns,
  is_dhcp, is_cloudflare, is_web, is_firewall,
}

pub record OcsfClass : Type 0 where
  pub class_uid : ℕ
  pub class_name : String
  pub category_uid : ℕ
  pub category_name : String

abbrev pub cls : ℕ → String → ℕ → String → OcsfClass
cls uid name cat catname = record {
  class_uid = uid;
  class_name = name;
  category_uid = cat;
  category_name = catname;
}

abbrev pub file_system_activity : OcsfClass
file_system_activity = cls 1001 "File System Activity" 1 "System Activity"

abbrev pub process_activity : OcsfClass
process_activity = cls 1006 "Process Activity" 1 "System Activity"

abbrev pub vulnerability_finding : OcsfClass
vulnerability_finding = cls 2002 "Vulnerability Finding" 2 "Findings"

abbrev pub compliance_finding : OcsfClass
compliance_finding = cls 2003 "Compliance Finding" 2 "Findings"

abbrev pub detection_finding : OcsfClass
detection_finding = cls 2004 "Detection Finding" 2 "Findings"

abbrev pub account_change : OcsfClass
account_change = cls 3001 "Account Change" 3 "Identity & Access Management"

abbrev pub authentication : OcsfClass
authentication = cls 3002 "Authentication" 3 "Identity & Access Management"

abbrev pub network_activity : OcsfClass
network_activity = cls 4001 "Network Activity" 4 "Network Activity"

abbrev pub http_activity : OcsfClass
http_activity = cls 4002 "HTTP Activity" 4 "Network Activity"

abbrev pub dns_activity : OcsfClass
dns_activity = cls 4003 "DNS Activity" 4 "Network Activity"

abbrev pub dhcp_activity : OcsfClass
dhcp_activity = cls 4004 "DHCP Activity" 4 "Network Activity"

-- The ladder: the first guard that holds decides.
class_of : List String → String → String → OcsfClass
class_of groups dec loc =
    if is_vpc_flow groups dec loc
    then network_activity
    else if is_guardduty groups dec loc
    then vulnerability_finding
    else if is_aws_findings groups dec loc
    then vulnerability_finding
    else if is_aws_config groups dec loc
    then compliance_finding
    else if is_aws_waf groups dec loc
    then http_activity
    else if is_aws_balancer groups dec loc
    then http_activity
    else if is_s3 groups dec loc
    then http_activity
    else if is_identity_provider groups dec loc
    then authentication
    else if is_zeek groups dec loc
    then network_activity
    else if is_cloudtrail_auth groups dec loc
    then authentication
    else if is_file_event groups dec loc
    then file_system_activity
    else if is_process_event groups dec loc
    then process_activity
    else if is_vulnerability groups dec loc
    then vulnerability_finding
    else if is_compliance groups dec loc
    then compliance_finding
    else if is_ms_graph groups dec loc
    then vulnerability_finding
    else if is_account_change groups dec loc
    then account_change
    else if is_authentication groups dec loc
    then authentication
    else if is_dns groups dec loc
    then dns_activity
    else if is_dhcp groups dec loc
    then dhcp_activity
    else if is_cloudflare groups dec loc
    then http_activity
    else if is_web groups dec loc
    then http_activity
    else if is_firewall groups dec loc
    then network_activity
    else detection_finding

unfoldable pub classify_event : List String → String → String → OcsfClass
unfolding class_of
classify_event groups decoder location =
    class_of groups (to_ascii_lowercase decoder) (to_ascii_lowercase location)

unfoldable pub map_severity : ℕ → ℕ × String
map_severity level =
    if eqb level 0
    then (0, "Unknown")
    else if leb level 3
    then (1, "Informational")
    else if leb level 6
    then (2, "Low")
    else if leb level 9
    then (3, "Medium")
    else if leb level 12
    then (4, "High")
    else (5, "Critical")
