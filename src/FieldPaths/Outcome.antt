-- ===== src/FieldPaths/Outcome.antt =====
-- src/pipeline/field_paths.rs: the candidate paths of the columns for category, action and status.
use Prim.Native.String.{String}
use mathlib.Core.List.{List, [], ◌∷◌}

abbrev pub category : List String
category =
    "category" ∷ "cat" ∷ "appcat" ∷ "application_category" ∷ "subtype" ∷ "sub_cat" ∷ "subcat"
    ∷ "Category" ∷ "ThreatCategory" ∷ "threat_category" ∷ "log_type" ∷ "aws.type"
    ∷ "aws.resourceType" ∷ "sca.type" ∷ "mariadb.type" ∷ "win.eventdata.logonType"
    ∷ "office365.AuthenticationType" ∷ "event.type" ∷ "event_type" ∷ "subcategory"
    ∷ "ms-graph.category" ∷ "ms-graph.classification" ∷ "docker.Type" ∷ "gcp.resource.type"
    ∷ "log_subtype" ∷ "defender.category" ∷ "aws.userIdentity.type" ∷ "office365.InternalLogonType"
    ∷ "office365.LogonType" ∷ []

abbrev pub action : List String
action =
    "action" ∷ "log_action" ∷ "Action" ∷ "ThreatActionTaken" ∷ "RegAction" ∷ "data.action"
    ∷ "alert.action" ∷ "fw_action" ∷ "act" ∷ "aws.eventName" ∷ "gcp.protoPayload.methodName"
    ∷ "azure.operationName" ∷ "azure.properties.operationType" ∷ "okta.displayMessage"
    ∷ "okta.eventType" ∷ "github.action" ∷ "office365.Operation" ∷ "defender.action" ∷ "operation"
    ∷ "rule_action" ∷ "utmaction" ∷ "aws.action" ∷ "WAFAction" ∷ "docker.Action" ∷ "activity_name"
    ∷ "audit.type" ∷ "audit_record.name" ∷ "gcp.protoPayload.methodName"
    ∷ "gcp.jsonPayload.rule_details.action" ∷ "mariadb.operation" ∷ "mariadb.action"
    ∷ "jenkins.action" ∷ "audit.op" ∷ "api.operation" ∷ "operationName" ∷ []

abbrev pub status : List String
status =
    "status" ∷ "result" ∷ "outcome" ∷ "reason" ∷ "severity" ∷ "data.status"
    ∷ "cylance_events.eventstatus" ∷ "win.eventdata.status" ∷ "win.eventdata.Status"
    ∷ "win.eventdata.failureReason" ∷ "aws.errorCode" ∷ "okta.outcome.result" ∷ "azure.resultType"
    ∷ "azure.resultDescription" ∷ "audit.res" ∷ "audit.success" ∷ "error" ∷ "event.severity"
    ∷ "aws.status" ∷ "aws.configurationItemStatus" ∷ "ms-graph.status" ∷ "ms-graph.determination"
    ∷ "docker.status" ∷ "audit_record.status" ∷ "gcp.jsonPayload.responseCode" ∷ "mariadb.retcode"
    ∷ "qualysguard.state" ∷ "cylance_threats.file_status" ∷ "win.eventdata.errorCode"
    ∷ "win.eventdata.failureCode" ∷ "win.system.severityValue" ∷ "sca.check.result"
    ∷ "sca.check.previous_result" ∷ "cis.result" ∷ "cis-data.result" ∷ "oscap.check.result"
    ∷ "oscap.check.severity" ∷ "oscap.scan.return_code" ∷ "virustotal.found"
    ∷ "virustotal.malicious" ∷ "virustotal.error" ∷ "qualysguard.severity" ∷ "rcode"
    ∷ "jenkins.severity" ∷ "sophos_fw_status_msg" ∷ "mongodb.severity" ∷ "cisco.severity"
    ∷ "osquery.columns.status" ∷ "fstatus" ∷ "resolved" ∷ "error_code" ∷ "aws.error_code"
    ∷ "aws.finding.Compliance.Status" ∷ "aws.finding.RecordState" ∷ "office365.ResultStatus" ∷ []
