-- ===== src/Transform/Native/Cloud.antt =====
-- src/pipeline/transform.rs: Office 365, Google Cloud, Docker and Microsoft Graph.
use wazuh_ocsf_etl.Base.{
  String, List, [], ◌∷◌, ◌++◌, Option, some, if◌then◌else◌, is_empty, ◌==◌, not, ◌&&◌,
}
use wazuh_ocsf_etl.Json.{Value, Items, Fields, arr, no_items, item, get, member}
use wazuh_ocsf_etl.Json.Lookup.{str_of}
use wazuh_ocsf_etl.Transform.Overlay.{
  src_ip, actor_user, domain, url, app_name, dst_hostname, rule_name, category, action, status,
}
use wazuh_ocsf_etl.Transform.Native.{
  Step, fill, notes, str_at, object_at, str_in, object_in, or_text,
}

abbrev o365_keys : List (String × String)
o365_keys =
    ("AadAppId", "o365_aad_app_id")
    ∷ ("ActorAppId", "o365_actor_app_id")
    ∷ ("ActorContextId", "o365_actor_context_id")
    ∷ ("ActorInfoString", "o365_actor_info")
    ∷ ("AddOnGuid", "o365_addon_guid")
    ∷ ("AppId", "o365_app_id")
    ∷ ("AppIdentity", "o365_app_identity")
    ∷ ("ApplicationId", "o365_application_id")
    ∷ ("AssertingApplicationId", "o365_asserting_app_id")
    ∷ ("AuthType", "o365_auth_type")
    ∷ ("AuthenticationType", "o365_authentication_type")
    ∷ ("AzureActiveDirectoryEventType", "o365_aad_event_type")
    ∷ ("BrowserName", "browser_name")
    ∷ ("BrowserVersion", "browser_version")
    ∷ ("CallId", "o365_call_id")
    ∷ ("ChatName", "o365_chat_name")
    ∷ ("ChatThreadId", "o365_chat_thread_id")
    ∷ ("ClientAppId", "o365_client_app_id")
    ∷ ("ClientApplication", "o365_client_application")
    ∷ ("ClientInfoString", "o365_client_info")
    ∷ ("ClientRegion", "o365_client_region")
    ∷ ("ClientRequestId", "o365_client_request_id")
    ∷ ("UserType", "o365_user_type")
    ∷ ("RecordType", "o365_record_type")
    ∷ ("AgentId", "o365_agent_id")
    ∷ ("AgentName", "o365_agent_name")
    ∷ []

abbrev access_keys : List (String × String)
access_keys =
    ("AADSessionId", "o365_aad_session_id")
    ∷ ("CorrelationId", "o365_correlation_id")
    ∷ ("UniqueTokenId", "o365_token_id")
    ∷ ("UserObjectId", "o365_user_object_id")
    ∷ ("DeviceId", "o365_device_id")
    ∷ ("ClientAppId", "o365_aac_client_app_id")
    ∷ ("ClientAppName", "o365_aac_client_app_name")
    ∷ []

abbrev gcp_keys : List (String × String)
gcp_keys =
    ("s_request_id", "gcp_request_id")
    ∷ ("insertId", "gcp_insert_id")
    ∷ ("logName", "gcp_log_name")
    ∷ []

abbrev graph_keys : List (String × String)
graph_keys =
    ("id", "ms_graph_alert_id")
    ∷ ("incidentId", "ms_graph_incident_id")
    ∷ ("classification", "ms_graph_classification")
    ∷ ("determination", "ms_graph_determination")
    ∷ ("relationship", "ms_graph_relationship")
    ∷ ("detectionSource", "ms_graph_detection_source")
    ∷ ("serviceSource", "ms_graph_service_source")
    ∷ ("tenantId", "ms_graph_tenant_id")
    ∷ []

-- The first entry of `Actor` with the type "5" and an id that is not empty
unfoldable pub principal : Items → String
principal no_items = ""
principal (item v rest) =
    let others = principal rest in
    let id = str_of (member v "ID") in
    if str_of (member v "Type") == "5" && not (is_empty id) then id else others

abbrev actors : Option Value → String
actors (some (arr xs)) = principal xs
actors _ = ""

unfoldable pub o365_columns : Fields → List Step
unfolding principal
o365_columns o365 =
    fill src_ip (str_at o365 "ClientIPAddress")
    ∷ fill actor_user (actors (get o365 "Actor"))
    ∷ fill app_name (str_at o365 "Workload")
    ∷ fill app_name (str_at o365 "ApplicationDisplayName")
    ∷ fill app_name (str_in (object_at o365 "AppAccessContext") "ClientAppName")
    ∷ fill domain (str_at o365 "OrganizationId")
    ∷ fill action (str_at o365 "Operation")
    ∷ fill status (str_at o365 "ResultStatus")
    ∷ []

unfoldable pub o365_steps : Fields → List Step
o365_steps o365 =
    o365_columns o365
    ++ (notes (str_at o365) o365_keys
        ++ notes (str_in (object_at o365 "AppAccessContext")) access_keys)

-- Both payloads may be missing, which leaves the columns alone.
unfoldable pub gcp_steps : Fields → List Step
gcp_steps gcp =
    let pp = object_at gcp "protoPayload" in
    fill actor_user (str_in (object_in pp "authenticationInfo") "principalEmail")
    ∷ fill src_ip (str_in (object_in pp "requestMetadata") "callerIp")
    ∷ fill action (str_in pp "methodName")
    ∷ fill url (str_in pp "resourceName")
    ∷ fill src_ip (str_in (object_at gcp "jsonPayload") "sourceIP")
    ∷ fill domain (str_in (object_in (object_at gcp "resource") "labels") "project_id")
    ∷ notes (str_at gcp) gcp_keys

abbrev docker_keys : List (String × String)
docker_keys =
    ("role.new", "docker_role_new")
    ∷ ("role.old", "docker_role_old")
    ∷ ("image", "docker_image")
    ∷ []

unfoldable pub docker_steps : Fields → List Step
docker_steps docker =
    let attributes = object_in (object_at docker "Actor") "Attributes" in
    fill action (str_at docker "Action")
    ∷ fill category (str_at docker "Type")
    ∷ fill app_name (str_in attributes "name")
    ∷ notes (str_in attributes) docker_keys

unfoldable pub graph_steps : Fields → List Step
graph_steps graph =
    fill rule_name (str_at graph "title")
    ∷ fill category (str_at graph "category")
    ∷ fill status (str_at graph "status")
    ∷ fill app_name (or_text (str_at graph "detectionSource") (str_at graph "serviceSource"))
    ∷ fill dst_hostname (str_at graph "resource")
    ∷ notes (str_at graph) graph_keys
