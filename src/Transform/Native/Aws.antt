-- ===== src/Transform/Native/Aws.antt =====
-- src/pipeline/transform.rs: CloudTrail and the other AWS integrations, whatever their source.
use wazuh_ocsf_etl.Base.{String, List, [], ◌∷◌, ◌++◌, if◌then◌else◌, is_empty}
use wazuh_ocsf_etl.Json.{Fields}
use wazuh_ocsf_etl.Transform.Overlay.{
  src_ip, actor_user, domain, url, dst_hostname, category, action, status,
}
use wazuh_ocsf_etl.Transform.Native.{
  Step, fill, extend, notes, str_at, object_at, str_in, where_some,
}
use wazuh_ocsf_etl.Transform.Native.Sources.{source_steps}

abbrev event_keys : List (String × String)
event_keys =
    ("eventID", "aws_event_id")
    ∷ ("eventTime", "aws_event_time")
    ∷ ("requestID", "aws_request_id")
    ∷ ("awsRegion", "aws_region")
    ∷ ("userAgent", "aws_user_agent")
    ∷ ("recipientAccountId", "aws_recipient_account_id")
    ∷ ("sharedEventID", "aws_shared_event_id")
    ∷ ("managementEvent", "aws_management_event")
    ∷ ("readOnly", "aws_read_only")
    ∷ ("sessionCredentialFromConsole", "aws_session_from_console")
    ∷ ("source", "aws_source")
    ∷ ("eventVersion", "aws_event_version")
    ∷ []

abbrev identity_keys : List (String × String)
identity_keys =
    ("type", "aws_identity_type")
    ∷ ("invokedBy", "aws_invoked_by")
    ∷ ("accessKeyId", "aws_access_key_id")
    ∷ ("credentialId", "aws_credential_id")
    ∷ []

abbrev issuer_keys : List (String × String)
issuer_keys =
    ("type", "aws_session_issuer_type")
    ∷ ("principalId", "aws_session_principal_id")
    ∷ ("accountId", "aws_session_issuer_account")
    ∷ []

abbrev attribute_keys : List (String × String)
attribute_keys =
    ("mfaAuthenticated", "aws_session_mfa_auth") ∷ ("creationDate", "aws_session_created_at") ∷ []

abbrev federation_keys : List (String × String)
federation_keys = ("federatedProvider", "aws_federated_provider") ∷ []

abbrev additional_keys : List (String × String)
additional_keys =
    ("MFAUsed", "aws_mfa_used")
    ∷ ("MFAIdentifier", "aws_mfa_identifier")
    ∷ ("CredentialType", "aws_credential_type")
    ∷ ("AuthWorkflowID", "aws_auth_workflow_id")
    ∷ ("MobileVersion", "aws_mobile_version")
    ∷ ("keyMaterialId", "aws_key_material_id")
    ∷ []

abbrev tls_keys : List (String × String)
tls_keys =
    ("tlsVersion", "tls_version")
    ∷ ("cipherSuite", "tls_cipher_suite")
    ∷ ("keyExchange", "tls_key_exchange")
    ∷ []

abbrev resource_keys : List (String × String)
resource_keys =
    ("ARN", "aws_resource_arn")
    ∷ ("type", "aws_resource_type")
    ∷ ("accountId", "aws_resource_account_id")
    ∷ []

abbrev request_keys : List (String × String)
request_keys =
    ("keyId", "aws_kms_key_id")
    ∷ ("networkInterfaceId", "aws_req_network_interface_id")
    ∷ ("groupId", "aws_req_security_group_id")
    ∷ ("subnetId", "aws_req_subnet_id")
    ∷ ("snapshotId", "aws_req_snapshot_id")
    ∷ ("volumeId", "aws_req_volume_id")
    ∷ ("allocationId", "aws_req_allocation_id")
    ∷ []

abbrev response_keys : List (String × String)
response_keys =
    ("publicIp", "aws_res_public_ip")
    ∷ ("networkInterfaceId", "aws_res_network_interface_id")
    ∷ ("allocationId", "aws_res_allocation_id")
    ∷ ("snapshotId", "aws_res_snapshot_id")
    ∷ ("volumeId", "aws_res_volume_id")
    ∷ []

abbrev service_keys : List (String × String)
service_keys =
    ("state", "aws_service_state")
    ∷ ("CredentialChallenge", "aws_credential_challenge")
    ∷ ("CredentialVerification", "aws_credential_verification")
    ∷ ("backupVaultName", "aws_backup_vault_name")
    ∷ ("resourceType", "aws_service_resource_type")
    ∷ []

abbrev log_keys : List (String × String)
log_keys = ("log_file", "aws_log_file") ∷ ("s3bucket", "aws_log_s3bucket") ∷ []

-- The columns, up to `errorMessage`
unfoldable pub aws_columns : Fields → List Step
aws_columns aws =
    fill src_ip (str_at aws "source_ip_address")
    ∷ fill actor_user (str_in (object_at aws "additionalEventData") "UserName")
    ∷ fill actor_user (str_in (object_at aws "userIdentity") "arn")
    ∷ fill domain (str_at aws "aws_account_id")
    ∷ fill action (str_at aws "eventType")
    ∷ fill category (str_at aws "eventCategory")
    ∷ fill dst_hostname (str_in (object_at aws "tlsDetails") "clientProvidedHostHeader")
    ∷ fill url (str_in (object_at aws "additionalEventData") "LoginTo")
    ∷ fill status (str_in (object_at aws "responseElements") "ConsoleLogin")
    ∷ fill status (str_in (object_at aws "serviceEventDetails") "UserAuthentication")
    ∷ fill status (str_in (object_at aws "responseElements") "status")
    ∷ []

-- A failed call has a message, which makes a missing status a failure.
unfoldable pub aws_error : String → List Step
aws_error message =
    if is_empty message then [] else fill status "Failure" ∷ extend "aws_error_message" message ∷ []

-- `if let Some(sc) = uid.get("sessionContext")…`
unfoldable pub session_steps : Fields → List Step
session_steps sc =
    fill actor_user (str_in (object_at sc "sessionIssuer") "arn")
      ∷ notes (str_in (object_at sc "sessionIssuer")) issuer_keys
    ++ (notes (str_in (object_at sc "attributes")) attribute_keys
        ++ notes (str_in (object_at sc "webIdFederationData")) federation_keys)

unfoldable pub identity_steps : Fields → List Step
unfolding session_steps
identity_steps uid =
    notes (str_at uid) identity_keys ++ where_some (object_at uid "sessionContext") session_steps

-- The extensions from the sub-objects behind `userIdentity`
unfoldable pub aws_details : Fields → List Step
aws_details aws =
    notes (str_in (object_at aws "additionalEventData")) additional_keys
    ++ (notes (str_in (object_at aws "tlsDetails")) tls_keys
        ++ (notes (str_in (object_at aws "resources")) resource_keys
            ++ (notes (str_in (object_at aws "requestParameters")) request_keys
                ++ (notes (str_in (object_at aws "responseElements")) response_keys
                    ++ (notes (str_in (object_at aws "serviceEventDetails")) service_keys
                        ++ notes (str_in (object_at aws "log_info")) log_keys)))))

unfoldable pub aws_steps : Fields → List Step
unfolding identity_steps
aws_steps aws =
    aws_columns aws
    ++ (aws_error (str_at aws "errorMessage")
        ++ (notes (str_at aws) event_keys
            ++ (where_some (object_at aws "userIdentity") identity_steps
                ++ (aws_details aws ++ source_steps (str_at aws "source") aws))))
