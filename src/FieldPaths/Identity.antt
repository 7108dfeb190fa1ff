-- ===== src/FieldPaths/Identity.antt =====
-- src/pipeline/field_paths.rs: the candidate paths of the columns for users, domains and host names.
use Prim.Native.String.{String}
use mathlib.Core.List.{List, [], ◌∷◌}

abbrev pub actor_user : List String
actor_user =
    "srcuser" ∷ "src_user" ∷ "user" ∷ "username" ∷ "user_name" ∷ "source_user" ∷ "account" ∷ "admin"
    ∷ "userName" ∷ "userAccount" ∷ "userid" ∷ "userID" ∷ "LoggedUser" ∷ "SourceUserName"
    ∷ "client_user" ∷ "database_user" ∷ "ldap_data.Username" ∷ "audit.acct" ∷ "audit.auid" ∷ "login"
    ∷ "logname" ∷ "usrName" ∷ "xauthuser" ∷ "account_name" ∷ "subject.account_name"
    ∷ "win.eventdata.subjectUserName" ∷ "win.eventdata.SubjectUserName"
    ∷ "win.eventdata.targetUserName" ∷ "win.eventdata.TargetUserName"
    ∷ "win.eventdata.initiatorAccountName" ∷ "aws.userIdentity.userName"
    ∷ "aws.userIdentity.principalId" ∷ "aws.userIdentity.sessionContext.sessionIssuer.userName"
    ∷ "gcp.protoPayload.authenticationInfo.principalEmail" ∷ "azure.properties.userPrincipalName"
    ∷ "azure.properties.initiatedBy.user.userPrincipalName" ∷ "okta.actor.alternateId"
    ∷ "okta.actor.displayName" ∷ "office365.UserId" ∷ "aws.requester" ∷ "aws.userIdentity.userName"
    ∷ "aws.userIdentity.arn" ∷ "office365.UserKey" ∷ "github.actor" ∷ "mariadb.username" ∷ "cs5"
    ∷ "suser" ∷ "sourceUserName" ∷ "identity.user.name" ∷ "office365.actor"
    ∷ "win.eventdata.subjectAccountName" ∷ []

abbrev pub target_user : List String
target_user =
    "dstuser" ∷ "dst_user" ∷ "target_user" ∷ "destination_user" ∷ "TargetUserName" ∷ "new_user"
    ∷ "removed_user" ∷ "win.eventdata.targetUserName" ∷ "win.eventdata.TargetUserName"
    ∷ "win.system.security.userID" ∷ "win.eventdata.targetUserSid" ∷ "win.eventdata.targetSid" ∷ []

abbrev pub domain : List String
domain =
    "domain" ∷ "account_domain" ∷ "dntdom" ∷ "subject.account_domain"
    ∷ "win.eventdata.subjectDomainName" ∷ "win.eventdata.SubjectDomainName"
    ∷ "win.eventdata.targetDomainName" ∷ "win.eventdata.TargetDomainName"
    ∷ "aws.userIdentity.accountId" ∷ "aws.recipientAccountId" ∷ "aws.awsRegion"
    ∷ "office365.OrganizationId" ∷ "azure.tenantId" ∷ "gcp.resource.labels.project_id"
    ∷ "github.org" ∷ "mariadb.database" ∷ "mongodb.database" ∷ "sqlserver.dbname" ∷ "gcp.bucket"
    ∷ "project_path" ∷ []

abbrev pub src_hostname : List String
src_hostname =
    "hostname" ∷ "srchost" ∷ "src_host" ∷ "sourceHostname" ∷ "source_hostname" ∷ "dvchost" ∷ "host"
    ∷ "HostName" ∷ "AnalyzerHostName" ∷ "TargetHostName" ∷ "identHostName" ∷ "serial_number"
    ∷ "win.system.computer" ∷ "win.eventdata.workstationName" ∷ "win.eventdata.WorkstationName"
    ∷ "srcname" ∷ "sname" ∷ "caller_computer" ∷ "machine_name" ∷ "machinename"
    ∷ "sysmon.sourceHostname" ∷ "qualysguard.dns_hostname" ∷ "qualysguard.netbios_hostname"
    ∷ "firewall_name" ∷ "aws.assetAttributes.hostname" ∷ "sourceHostName" ∷ "system_name" ∷ []

abbrev pub dst_hostname : List String
dst_hostname =
    "dsthost" ∷ "dst_host" ∷ "destinationHostname" ∷ "destination_hostname"
    ∷ "sysmon.destinationHostname" ∷ "server_name" ∷ "device_name" ∷ "win.eventdata.destination"
    ∷ "office365.DeviceDisplayName" ∷ "botnedomain" ∷ []
