-- ===== src/Unmapped/Known.antt =====
-- src/util/unmapped.rs: `KNOWN_PATHS`, as the lists that are inserted into it.
use wazuh_ocsf_etl.Base.{String, List, [], ◌∷◌, Bool, ◌||◌, any, contains}
use wazuh_ocsf_etl.FieldPaths

abbrev pub vulnerability_paths : List String
vulnerability_paths =
    "vulnerability.cve" ∷ "vulnerability.title" ∷ "vulnerability.severity"
    ∷ "vulnerability.score.base" ∷ "vulnerability.score.version"
    ∷ "vulnerability.cvss.cvss3.base_score" ∷ "vulnerability.cvss.cvss3.vector.attack_vector"
    ∷ "vulnerability.cvss.cvss3.vector.availability"
    ∷ "vulnerability.cvss.cvss3.vector.confidentiality_impact"
    ∷ "vulnerability.cvss.cvss3.vector.integrity_impact"
    ∷ "vulnerability.cvss.cvss3.vector.privileges_required"
    ∷ "vulnerability.cvss.cvss3.vector.scope" ∷ "vulnerability.cvss.cvss3.vector.user_interaction"
    ∷ "vulnerability.status" ∷ "vulnerability.reference" ∷ "vulnerability.package.name"
    ∷ "vulnerability.package.version" ∷ "vulnerability.package.architecture"
    ∷ "vulnerability.package.condition" ∷ "vulnerability.package.source" ∷ "vulnerability.published"
    ∷ "vulnerability.updated" ∷ "vulnerability.enumeration" ∷ "vulnerability.classification"
    ∷ "vulnerability.type" ∷ "vulnerability.assigner" ∷ "vulnerability.cwe_reference"
    ∷ "vulnerability.rationale" ∷ "vulnerability.scanner.reference" ∷ []

abbrev pub windows_paths : List String
windows_paths =
    "win.system.providerName" ∷ "win.system.providerGuid" ∷ "win.system.processID"
    ∷ "win.system.eventID" ∷ "win.system.channel" ∷ "win.system.message"
    ∷ "win.system.severityValue" ∷ "win.system.eventRecordID" ∷ "win.system.keywords"
    ∷ "win.system.level" ∷ "win.system.opcode" ∷ "win.system.systemTime" ∷ "win.system.task"
    ∷ "win.system.threadID" ∷ "win.system.version" ∷ "win.system.eventSourceName"
    ∷ "win.eventdata.processName" ∷ "win.eventdata.logonType"
    ∷ "win.eventdata.authenticationPackageName" ∷ "win.eventdata.subjectUserSid"
    ∷ "win.eventdata.subjectUserName" ∷ "win.eventdata.subjectLogonId"
    ∷ "win.eventdata.targetUserSid" ∷ "win.eventdata.targetUserName" ∷ "win.eventdata.targetLogonId"
    ∷ "win.eventdata.targetLinkedLogonId" ∷ "win.eventdata.elevatedToken"
    ∷ "win.eventdata.impersonationLevel" ∷ "win.eventdata.keyLength" ∷ "win.eventdata.logonGuid"
    ∷ "win.eventdata.logonProcessName" ∷ "win.eventdata.virtualAccount"
    ∷ "win.eventdata.privilegeList" ∷ "win.eventdata.algorithmName" ∷ "win.eventdata.keyName"
    ∷ "win.eventdata.keyType" ∷ "win.eventdata.operation" ∷ "win.eventdata.providerName"
    ∷ "win.eventdata.returnCode" ∷ "win.eventdata.address" ∷ "win.eventdata.addressLength"
    ∷ "win.eventdata.queryName" ∷ "win.eventdata.data" ∷ []

abbrev pub package_paths : List String
package_paths = "package" ∷ "version" ∷ "arch" ∷ "dpkg_status" ∷ []

abbrev pub sudo_paths : List String
sudo_paths = "uid" ∷ "tty" ∷ "pwd" ∷ []

abbrev pub decoder_paths : List String
decoder_paths = "file" ∷ "title" ∷ "gid" ∷ "home" ∷ "shell" ∷ "id" ∷ "integration" ∷ []

abbrev pub predecoder_paths : List String
predecoder_paths = "predecoder.hostname" ∷ "predecoder.program_name" ∷ "predecoder.timestamp" ∷ []

abbrev pub sca_paths : List String
sca_paths =
    "sca.scan_id" ∷ "sca.policy" ∷ "sca.policy_id" ∷ "sca.description" ∷ "sca.file" ∷ "sca.score"
    ∷ "sca.total_checks" ∷ "sca.passed" ∷ "sca.failed" ∷ "sca.invalid" ∷ "sca.check.id"
    ∷ "sca.check.title" ∷ "sca.check.result" ∷ "sca.check.description" ∷ "sca.check.rationale"
    ∷ "sca.check.remediation" ∷ "sca.check.reason" ∷ "sca.check.references" ∷ "sca.check.command.0"
    ∷ "sca.check.file.0" ∷ "sca.check.compliance.cis" ∷ "sca.check.compliance.cis_csc"
    ∷ "sca.check.compliance.cis_csc_v7" ∷ "sca.check.compliance.cis_csc_v8"
    ∷ "sca.check.compliance.cmmc_v2.0" ∷ "sca.check.compliance.hipaa"
    ∷ "sca.check.compliance.iso_27001-2013" ∷ "sca.check.compliance.mitre_mitigations"
    ∷ "sca.check.compliance.mitre_tactics" ∷ "sca.check.compliance.mitre_techniques"
    ∷ "sca.check.compliance.nist_sp_800-53" ∷ "sca.check.compliance.pci_dss_v3.2.1"
    ∷ "sca.check.compliance.pci_dss_v4.0" ∷ "sca.check.compliance.soc_2" ∷ []

abbrev pub audit_paths : List String
audit_paths =
    "audit.id" ∷ "audit.type" ∷ "audit.directory.name" ∷ "audit.euid" ∷ "audit.uid" ∷ "audit.gid"
    ∷ "audit.session" ∷ []

abbrev pub cloud_paths : List String
cloud_paths =
    "aws.source_ip_address" ∷ "aws.sourceIPAddress" ∷ "aws.eventID" ∷ "aws.eventTime"
    ∷ "aws.eventType" ∷ "aws.eventCategory" ∷ "aws.eventVersion" ∷ "aws.requestID" ∷ "aws.awsRegion"
    ∷ "aws.userAgent" ∷ "aws.managementEvent" ∷ "aws.readOnly" ∷ "aws.recipientAccountId"
    ∷ "aws.sharedEventID" ∷ "aws.sessionCredentialFromConsole" ∷ "aws.source" ∷ "aws.errorMessage"
    ∷ "aws.aws_account_id" ∷ "aws.userIdentity.arn" ∷ "aws.userIdentity.type"
    ∷ "aws.userIdentity.invokedBy" ∷ "aws.userIdentity.accessKeyId"
    ∷ "aws.userIdentity.credentialId" ∷ "aws.userIdentity.sessionContext.attributes.creationDate"
    ∷ "aws.userIdentity.sessionContext.attributes.mfaAuthenticated"
    ∷ "aws.userIdentity.sessionContext.sessionIssuer.arn"
    ∷ "aws.userIdentity.sessionContext.sessionIssuer.accountId"
    ∷ "aws.userIdentity.sessionContext.sessionIssuer.principalId"
    ∷ "aws.userIdentity.sessionContext.sessionIssuer.type"
    ∷ "aws.userIdentity.sessionContext.webIdFederationData.federatedProvider"
    ∷ "aws.additionalEventData.UserName" ∷ "aws.additionalEventData.LoginTo"
    ∷ "aws.additionalEventData.MFAUsed" ∷ "aws.additionalEventData.MFAIdentifier"
    ∷ "aws.additionalEventData.MobileVersion" ∷ "aws.additionalEventData.CredentialType"
    ∷ "aws.additionalEventData.AuthWorkflowID" ∷ "aws.additionalEventData.keyMaterialId"
    ∷ "aws.tlsDetails.tlsVersion" ∷ "aws.tlsDetails.cipherSuite" ∷ "aws.tlsDetails.keyExchange"
    ∷ "aws.tlsDetails.clientProvidedHostHeader" ∷ "aws.responseElements.ConsoleLogin"
    ∷ "aws.responseElements.status" ∷ "aws.responseElements.publicIp"
    ∷ "aws.responseElements.networkInterfaceId" ∷ "aws.responseElements.allocationId"
    ∷ "aws.responseElements.snapshotId" ∷ "aws.responseElements.volumeId"
    ∷ "aws.requestParameters.keyId" ∷ "aws.requestParameters.networkInterfaceId"
    ∷ "aws.requestParameters.groupId" ∷ "aws.requestParameters.subnetId"
    ∷ "aws.requestParameters.snapshotId" ∷ "aws.requestParameters.volumeId"
    ∷ "aws.requestParameters.allocationId" ∷ "aws.resources.ARN" ∷ "aws.resources.type"
    ∷ "aws.resources.accountId" ∷ "aws.log_info.log_file" ∷ "aws.log_info.s3bucket"
    ∷ "aws.serviceEventDetails.UserAuthentication" ∷ "aws.serviceEventDetails.state"
    ∷ "aws.serviceEventDetails.CredentialChallenge"
    ∷ "aws.serviceEventDetails.CredentialVerification" ∷ "aws.serviceEventDetails.backupVaultName"
    ∷ "aws.serviceEventDetails.resourceType" ∷ []

-- The candidate paths of the columns
abbrev pub column_paths : List (List String)
column_paths =
    FieldPaths.src_ip ∷ FieldPaths.dst_ip ∷ FieldPaths.src_port ∷ FieldPaths.dst_port
    ∷ FieldPaths.nat_src_ip ∷ FieldPaths.nat_dst_ip ∷ FieldPaths.nat_src_port
    ∷ FieldPaths.nat_dst_port ∷ FieldPaths.protocol ∷ FieldPaths.bytes_in ∷ FieldPaths.bytes_out
    ∷ FieldPaths.actor_user ∷ FieldPaths.target_user ∷ FieldPaths.domain ∷ FieldPaths.url
    ∷ FieldPaths.http_method ∷ FieldPaths.http_status ∷ FieldPaths.app_name ∷ FieldPaths.file_name
    ∷ FieldPaths.process_name ∷ FieldPaths.process_id ∷ FieldPaths.rule_name ∷ FieldPaths.category
    ∷ FieldPaths.iface_in ∷ FieldPaths.iface_out ∷ FieldPaths.src_hostname ∷ FieldPaths.dst_hostname
    ∷ FieldPaths.action ∷ FieldPaths.status ∷ []

-- The paths that `transform` reads elsewhere
abbrev pub native_paths : List (List String)
native_paths =
    vulnerability_paths ∷ windows_paths ∷ package_paths ∷ sudo_paths ∷ decoder_paths
    ∷ predecoder_paths ∷ sca_paths ∷ audit_paths ∷ cloud_paths ∷ []

-- `KNOWN_PATHS.contains(path)`
unfoldable pub is_known : String → Bool
is_known path =
    any (λ paths. contains paths path) column_paths
    || any (λ paths. contains paths path) native_paths
