-- ===== src/Transform/Native/Sca.antt =====
-- src/pipeline/transform.rs: the extensions from Windows, SCA, audit, file, package and sudo events.
use wazuh_ocsf_etl.Base.{String, List, [], ◌∷◌, ◌++◌, ℕ, Option, none, some, to_decimal}
use Prim.Native.String
use wazuh_ocsf_etl.Json.{Value, Fields, get}
use wazuh_ocsf_etl.Json.Lookup.{jpath}
use wazuh_ocsf_etl.Transform.Overlay.{file_name}
use wazuh_ocsf_etl.Transform.Native.{Step, fill, extend, note, notes, str_at}
use wazuh_ocsf_etl.Transform.Native.Local.{member_str}

abbrev windows_keys : List (String × String)
windows_keys =
    ("win.system.eventID", "win_event_id")
    ∷ ("win.system.channel", "win_channel")
    ∷ ("win.eventdata.logonType", "win_logon_type")
    ∷ []

abbrev windows_binary : List (String × String)
windows_binary = ("win.eventdata.binary", "win_event_binary") ∷ []

abbrev pub sca_check_keys : List (String × String)
sca_check_keys =
    ("sca.scan_id", "sca_scan_id")
    ∷ ("sca.check.id", "sca_check_id")
    ∷ ("sca.check.compliance.cis", "sca_cis_control")
    ∷ ("sca.check.compliance.cis_csc", "sca_cis_csc")
    ∷ ("sca.check.description", "sca_description")
    ∷ ("sca.check.rationale", "sca_rationale")
    ∷ ("sca.check.remediation", "sca_remediation")
    ∷ ("sca.check.reason", "sca_reason")
    ∷ ("sca.check.compliance.cis_csc_v7", "sca_cis_csc_v7")
    ∷ ("sca.check.compliance.cis_csc_v8", "sca_cis_csc_v8")
    ∷ ("sca.check.compliance.cmmc_v2.0", "sca_cmmc_v2")
    ∷ ("sca.check.compliance.hipaa", "sca_hipaa")
    ∷ ("sca.check.compliance.iso_27001-2013", "sca_iso_27001")
    ∷ ("sca.check.compliance.mitre_mitigations", "sca_mitre_mitigations")
    ∷ ("sca.check.compliance.mitre_tactics", "sca_mitre_tactics")
    ∷ ("sca.check.compliance.mitre_techniques", "sca_mitre_techniques")
    ∷ ("sca.check.compliance.nist_sp_800-53", "sca_nist_800_53")
    ∷ ("sca.check.compliance.pci_dss_v3.2.1", "sca_pci_dss_v3")
    ∷ ("sca.check.compliance.pci_dss_v4.0", "sca_pci_dss_v4")
    ∷ ("sca.check.compliance.soc_2", "sca_soc2")
    ∷ ("sca.check.command.0", "sca_check_command")
    ∷ ("sca.check.file.0", "sca_check_file")
    ∷ ("sca.check.references", "sca_references")
    ∷ []

abbrev sca_policy_keys : List (String × String)
sca_policy_keys =
    ("sca.policy_id", "sca_policy_id")
    ∷ ("sca.description", "sca_policy_description")
    ∷ ("sca.file", "sca_policy_file")
    ∷ ("sca.score", "sca_score")
    ∷ ("sca.total_checks", "sca_total_checks")
    ∷ ("sca.passed", "sca_passed_count")
    ∷ ("sca.failed", "sca_failed_count")
    ∷ ("sca.invalid", "sca_invalid_count")
    ∷ []

abbrev audit_keys : List (String × String)
audit_keys =
    ("audit.type", "audit_type")
    ∷ ("audit.id", "audit_id")
    ∷ ("audit.euid", "audit_euid")
    ∷ ("audit.uid", "audit_uid")
    ∷ ("audit.gid", "audit_gid")
    ∷ ("audit.session", "audit_session")
    ∷ []

-- `for i in 1u8..=7`
unfoldable pub param_notes : Value → List ℕ → List Step
param_notes v [] = []
param_notes v (i ∷ rest) =
    note (String.◌++◌ "win_param" (to_decimal i))
      (jpath v (String.◌++◌ "win.eventdata.param" (to_decimal i)))
    ++ param_notes v rest

unfoldable pub windows_context : Value → List Step
windows_context v =
    notes (jpath v) windows_keys
    ++ (param_notes v (1 ∷ 2 ∷ 3 ∷ 4 ∷ 5 ∷ 6 ∷ 7 ∷ []) ++ notes (jpath v) windows_binary)

unfoldable pub sca_context : Value → List Step
sca_context v = notes (jpath v) sca_check_keys ++ notes (jpath v) sca_policy_keys

unfoldable pub audit_context : Value → List Step
audit_context v = notes (jpath v) audit_keys

abbrev fim_keys : List (String × String)
fim_keys =
    ("md5_after", "fim_md5")
    ∷ ("sha1_after", "fim_sha1")
    ∷ ("sha256_after", "fim_sha256")
    ∷ ("size_after", "fim_size")
    ∷ ("mode", "fim_mode")
    ∷ []

abbrev changed_attributes : (Value → String) → Option Value → List Step
changed_attributes to_json none = []
changed_attributes to_json (some ca) = extend "fim_changed_attrs" (to_json ca) ∷ []

-- `to_json` is `serde_json::to_string`.
unfoldable pub fim_context : (Value → String) → Fields → List Step
fim_context to_json syscheck =
    notes (str_at syscheck) fim_keys
    ++ changed_attributes to_json (get syscheck "changed_attributes")

abbrev process_keys : List (String × String)
process_keys =
    ("version", "package_version")
    ∷ ("arch", "package_arch")
    ∷ ("uid", "actor_uid")
    ∷ ("tty", "tty")
    ∷ ("pwd", "working_dir")
    ∷ []

abbrev account_keys : List (String × String)
account_keys = ("gid", "actor_gid") ∷ ("home", "actor_home_dir") ∷ ("shell", "actor_shell") ∷ []

unfoldable pub process_context : Value → List Step
process_context v =
    notes (member_str v) process_keys
    ++ fill file_name (member_str v "file") ∷ notes (member_str v) account_keys
