-- ===== src/Transform/Versions.antt =====
-- src/config.rs and src/pipeline/transform.rs: the version that the rows get.
use wazuh_ocsf_etl.Base.{String, List, not, Option, none, some, ◌≡◌, ◌∙◌, AllChars, eqb, code}
use wazuh_ocsf_etl.Record.{OcsfRecord}
use wazuh_ocsf_etl.Config.Load.{MappingsToml, initial_mappings}
use wazuh_ocsf_etl.Config.Load.Laws.{initial_mappings-ocsf_version}
use wazuh_ocsf_etl.Transform.Input.{Outside}
use wazuh_ocsf_etl.Transform.Convert.{Globals, transform}
use wazuh_ocsf_etl.Transform.Guarantees.{transform-IsFiled}

-- With a file of mappings that parses but has no section [meta], each row has an empty version, for a
-- database with no dot in its name.
pub transform_without_meta :
    {F32 : Type 0} (o : Outside F32) (db : String) (special_locs : List String)
    (from_toml : String → Option MappingsToml) (text : String) (toml : MappingsToml) (raw : String)
    (g : Globals) (table : String) (rec : OcsfRecord F32)
    → AllChars (λ d. not (eqb (code d) b'.')) db
    → from_toml text ≡ some toml
    → toml.meta ≡ none
    → (transform o db special_locs (initial_mappings from_toml (some text)) raw g).0
      ≡ some (table, rec)
    → rec.ocsf_version ≡ ""
transform_without_meta o db special_locs from_toml text toml raw g table rec plain parses no_meta
      h =
    (transform-IsFiled o db special_locs (initial_mappings from_toml (some text)) raw g table rec
      plain h).version
    ∙ ((initial_mappings-ocsf_version from_toml text toml).2 parses).2 no_meta
