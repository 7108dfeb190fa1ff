-- ===== src/Transform/Native/Sources.antt =====
-- src/pipeline/transform.rs: the `match` on the source of an AWS event.
use wazuh_ocsf_etl.Base.{
  String, List, [], ◌∷◌, ◌++◌, if◌then◌else◌, is_empty, ◌==◌, not, ◌&&◌, contains,
}
use wazuh_ocsf_etl.Json.{Fields}
use wazuh_ocsf_etl.Transform.Overlay.{domain, src_hostname, rule_name, category, action, status}
use wazuh_ocsf_etl.Transform.Native.{
  Step, fill, extend, name_protocol, notes, str_at, object_at, str_in, object_in,
}

abbrev finding_keys : List (String × String)
finding_keys =
    ("arn", "aws_finding_arn")
    ∷ ("id", "aws_finding_id")
    ∷ ("description", "aws_description")
    ∷ ("region", "aws_region_src")
    ∷ ("createdAt", "aws_created_at")
    ∷ ("updatedAt", "aws_updated_at")
    ∷ []

abbrev flow_keys : List (String × String)
flow_keys =
    ("interface_id", "aws_interface_id")
    ∷ ("account_id", "aws_flow_account_id")
    ∷ ("log_status", "aws_log_status")
    ∷ ("packets", "aws_packets")
    ∷ ("version", "aws_flow_version")
    ∷ []

abbrev waf_keys : List (String × String)
waf_keys =
    ("webaclId", "aws_waf_acl_id")
    ∷ ("terminatingRuleId", "aws_waf_rule_id")
    ∷ ("terminatingRuleType", "aws_waf_rule_type")
    ∷ []

abbrev balancer_keys : List (String × String)
balancer_keys =
    ("error_reason", "aws_alb_error_reason")
    ∷ ("elb", "aws_alb_name")
    ∷ ("user_agent", "aws_user_agent")
    ∷ ("target_port", "aws_alb_target_port")
    ∷ ("target_status_code", "aws_alb_target_status")
    ∷ []

abbrev bucket_keys : List (String × String)
bucket_keys =
    ("user_agent", "aws_user_agent")
    ∷ ("key", "aws_s3_key")
    ∷ ("bytes_sent", "aws_s3_bytes_sent")
    ∷ ("object_size", "aws_s3_object_size")
    ∷ ("total_time", "aws_s3_total_time_ms")
    ∷ ("turn_around_time", "aws_s3_turnaround_ms")
    ∷ ("referrer", "aws_s3_referrer")
    ∷ []

abbrev config_keys : List (String × String)
config_keys =
    ("resourceName", "aws_resource_name")
    ∷ ("configurationItemCaptureTime", "aws_config_capture_time")
    ∷ ("configuration.complianceType", "aws_compliance_type")
    ∷ ("configuration.configRuleList.configRuleName", "aws_config_rule_name")
    ∷ []

abbrev advisor_keys : List (String × String)
advisor_keys =
    ("uuid", "aws_trusted_advisor_uuid") ∷ ("category", "aws_trusted_advisor_category") ∷ []

abbrev inspector2_keys : List (String × String)
inspector2_keys =
    ("packageVulnerabilityDetails.vulnerabilityId", "aws_v2_cve_id")
    ∷ ("severity.label", "aws_v2_severity_label")
    ∷ ("type", "aws_v2_finding_type")
    ∷ []

abbrev hub_keys : List (String × String)
hub_keys =
    ("Id", "aws_sh_finding_id")
    ∷ ("ProductArn", "aws_sh_product_arn")
    ∷ ("GeneratorId", "aws_sh_generator_id")
    ∷ ("Description", "aws_description")
    ∷ ("RecordState", "aws_sh_record_state")
    ∷ ("WorkflowStatus", "aws_sh_workflow_status")
    ∷ []

-- guardduty, inspector, macie
unfoldable pub finding_steps : Fields → List Step
finding_steps aws =
    fill rule_name (str_at aws "title")
    ∷ fill category (str_at aws "type")
    ∷ fill domain (str_at aws "accountId")
    ∷ fill action (str_in (object_in (object_at aws "service") "action") "actionType")
    ∷ fill src_hostname (str_in (object_at aws "assetAttributes") "hostname")
    ∷ notes (str_at aws) finding_keys

unfoldable pub flow_steps : Fields → List Step
flow_steps aws = name_protocol ∷ notes (str_at aws) flow_keys

unfoldable pub waf_steps : Fields → List Step
waf_steps aws = fill rule_name (str_at aws "terminatingRuleId") ∷ notes (str_at aws) waf_keys

unfoldable pub balancer_steps : Fields → List Step
balancer_steps aws = fill action (str_at aws "action_executed") ∷ notes (str_at aws) balancer_keys

-- `"-"` stands for no error.
unfoldable pub bucket_error : String → List Step
bucket_error code =
    if not (is_empty code) && not (code == "-")
    then fill status "Failure" ∷ extend "aws_s3_error_code" code ∷ []
    else []

unfoldable pub bucket_steps : Fields → List Step
bucket_steps aws =
    fill domain (str_at aws "bucket") ∷ bucket_error (str_at aws "error_code")
    ++ notes (str_at aws) bucket_keys

unfoldable pub config_steps : Fields → List Step
config_steps aws =
    fill domain (str_at aws "awsAccountId")
    ∷ fill rule_name (str_at aws "resourceId")
    ∷ notes (str_at aws) config_keys

unfoldable pub hub_steps : Fields → List Step
hub_steps aws =
    fill rule_name (str_at aws "Title")
    ∷ fill category (str_at aws "Type")
    ∷ notes (str_at aws) hub_keys

unfoldable pub source_steps : String → Fields → List Step
source_steps source aws =
    if contains ("guardduty" ∷ "inspector" ∷ "macie" ∷ []) source
    then finding_steps aws
    else if source == "vpc"
    then flow_steps aws
    else if source == "waf"
    then waf_steps aws
    else if source == "alb"
    then balancer_steps aws
    else if source == "s3_server_access"
    then bucket_steps aws
    else if source == "config"
    then config_steps aws
    else if source == "trustedadvisor"
    then notes (str_at aws) advisor_keys
    else if source == "inspector2"
    then notes (str_at aws) inspector2_keys
    else if source == "securityhub"
    then hub_steps aws
    else []
