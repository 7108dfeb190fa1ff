-- ===== src/Transform/Native/Local.antt =====
-- src/pipeline/transform.rs: the columns from vulnerability, Windows, package, file and audit events.
use wazuh_ocsf_etl.Base.{String, List, [], ◌∷◌, if◌then◌else◌, is_empty}
use wazuh_ocsf_etl.Json.{Value, Fields, member}
use wazuh_ocsf_etl.Json.Lookup.{jpath, str_of}
use wazuh_ocsf_etl.Transform.Overlay.{
  actor_user, target_user, url, app_name, src_hostname, file_name, process_name, process_id, status,
}
use wazuh_ocsf_etl.Transform.Native.{Step, fill, str_at, or_text}

-- `data_val.get(k).and_then(Value::as_str)`, and an empty text where it is missing
abbrev pub member_str : Value → String → String
member_str v k = str_of (member v k)

unfoldable pub vulnerability_steps : Value → List Step
vulnerability_steps v =
    if is_empty (jpath v "vulnerability.cve")
    then []
    else fill url (jpath v "vulnerability.reference")
      ∷ fill app_name (jpath v "vulnerability.package.name")
      ∷ fill status (jpath v "vulnerability.status")
      ∷ []

unfoldable pub windows_steps : Value → List Step
windows_steps v =
    fill app_name (jpath v "win.system.providerName")
    ∷ fill process_id (jpath v "win.system.processID")
    ∷ fill process_name (jpath v "win.eventdata.processName")
    ∷ fill actor_user
        (or_text (jpath v "win.eventdata.subjectUserName") (jpath v "win.eventdata.subjectUserSid"))
    ∷ fill target_user
        (or_text (jpath v "win.eventdata.targetUserName") (jpath v "win.eventdata.targetUserSid"))
    ∷ []

unfoldable pub package_steps : Value → List Step
package_steps v =
    fill app_name (member_str v "package") ∷ fill status (member_str v "dpkg_status") ∷ []

-- The sections `syscheck` and `predecoder` of the event
unfoldable pub section_steps : Fields → Fields → List Step
section_steps syscheck predecoder =
    fill file_name (str_at syscheck "path")
    ∷ fill src_hostname (str_at predecoder "hostname")
    ∷ fill app_name (str_at predecoder "program_name")
    ∷ []

unfoldable pub sca_steps : Value → List Step
sca_steps v = fill status (jpath v "sca.check.result") ∷ fill app_name (jpath v "sca.policy") ∷ []

unfoldable pub audit_steps : Value → List Step
audit_steps v = fill file_name (jpath v "audit.directory.name") ∷ []
