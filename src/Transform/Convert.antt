-- ===== src/Transform/Convert.antt =====
-- src/pipeline/transform.rs: `transform`, from a line to the table and the record.
use wazuh_ocsf_etl.Base.{
  ℕ, String, List, [], ◌∷◌, ◌++◌, Bool, Option, none, some, if◌then◌else◌, is_empty, trim,
}
use wazuh_ocsf_etl.Config.{CustomMappings}
use wazuh_ocsf_etl.Json.{Value, Fields, str, obj, no_fields, field, as_object}
use wazuh_ocsf_etl.Record.{OcsfRecord}
use wazuh_ocsf_etl.Validator.{check_and_warn}
use wazuh_ocsf_etl.Unmapped.Tracker.{Tracker, track_unmapped_fields}
use wazuh_ocsf_etl.Transform.Columns.{Columns}
use wazuh_ocsf_etl.Transform.Extract.{extract_columns}
use wazuh_ocsf_etl.Transform.Overlay.{overlay}
use wazuh_ocsf_etl.Transform.Finish.{finish}
use wazuh_ocsf_etl.Transform.Input.{Outside, section, data_of, object_of_data, read_event}
use wazuh_ocsf_etl.Transform.Native.{Step, apply_steps, where_some}
use wazuh_ocsf_etl.Transform.Native.Local.{
  vulnerability_steps, windows_steps, package_steps, section_steps, sca_steps, audit_steps,
}
use wazuh_ocsf_etl.Transform.Native.Sca.{
  windows_context, sca_context, audit_context, fim_context, process_context,
}
use wazuh_ocsf_etl.Transform.Native.Aws.{aws_steps}
use wazuh_ocsf_etl.Transform.Native.Cloud.{o365_steps, gcp_steps, docker_steps, graph_steps}

-- The blocks in their order. `fs` is the whole event.
unfoldable pub local_steps : Fields → Value → List Step
local_steps fs v =
    vulnerability_steps v
    ++ (windows_steps v
        ++ (package_steps v
            ++ (section_steps (section fs "syscheck") (section fs "predecoder")
                ++ (sca_steps v ++ audit_steps v))))

unfoldable pub context_steps : (Value → String) → Fields → Value → List Step
context_steps to_json fs v =
    windows_context v
    ++ (sca_context v
        ++ (audit_context v ++ (fim_context to_json (section fs "syscheck") ++ process_context v)))

unfoldable pub cloud_steps : Value → List Step
cloud_steps v =
    where_some (object_of_data v "aws") aws_steps
    ++ (where_some (object_of_data v "office365") o365_steps
        ++ (where_some (object_of_data v "gcp") gcp_steps
            ++ (where_some (object_of_data v "docker") docker_steps
                ++ where_some (object_of_data v "ms-graph") graph_steps)))

unfoldable pub native_steps : (Value → String) → Fields → Value → List Step
native_steps to_json fs v = local_steps fs v ++ (context_steps to_json fs v ++ cloud_steps v)

-- The columns, from the scan of the paths over the blocks to the overlay
unfoldable pub columns_of : (Value → String) → CustomMappings → Fields → Columns
columns_of to_json custom fs =
    let v = data_of fs in
    overlay v custom.field_map (apply_steps (native_steps to_json fs v) (extract_columns v))

-- A `Map` of texts
unfoldable pub fields_of : List (String × String) → Fields
fields_of [] = no_fields
fields_of ((k, v) ∷ rest) = field k (str v) (fields_of rest)

-- What `transform` changes outside: the tracker, and the count of violations under its switch
pub record Globals : Type 0 where
  pub tracker : Tracker
  pub validate : Bool
  pub violation_count : ℕ

abbrev pub parsed : Option Value → Option Fields
parsed none = none
parsed (some v) = as_object v

module _ {F32 : Type 0} (o : Outside F32) (db : String) (special_locs : List String) where
  -- The object of a line, if it is not blank and is one
  unfoldable pub parse_line : String → Option Fields
  parse_line raw = if is_empty (trim raw) then none else parsed (o.from_str raw)

  unfoldable pub convert : CustomMappings → String → Fields → String × OcsfRecord F32
  convert custom raw fs =
      finish (λ m. o.to_json (obj (fields_of m))) custom.ocsf_version db special_locs
        (read_event o raw fs) (columns_of o.to_json custom fs)

  -- The value that `transform` returns, and what it leaves outside
  abbrev pub transformed :
      CustomMappings → String → Globals → Option Fields → Option (String × OcsfRecord F32) × Globals
  transformed custom raw g none = (none, g)
  transformed custom raw g (some fs) =
      let row = convert custom raw fs in
      (
        some row,
        record g {
          tracker = track_unmapped_fields (data_of fs) custom g.tracker;
          violation_count = check_and_warn row.1 g.validate g.violation_count;
        },
      )

  unfoldable pub transform :
      CustomMappings → String → Globals → Option (String × OcsfRecord F32) × Globals
  transform custom raw g = transformed custom raw g (parse_line raw)
