-- ===== src/Transform/Guarantees.antt =====
-- src/pipeline/transform.rs: what the whole of `transform` gives, from a line to a row.
use wazuh_ocsf_etl.Base.{
  ◌≡◌, refl, ap, ◌≢◌, ◌↔◌, ◌⊎◌, inl, inr, String, List, true, not, Option, none, some, is_empty,
  trim, arith, Bool-cases, Option-cases, AllChars, eqb, code,
}
use Prim.Native.String
use mathlib.Core.Path.{subst}
use mathlib.Core.Option.{some-injective}
use wazuh_ocsf_etl.Config.{CustomMappings}
use wazuh_ocsf_etl.Json.{Value, Fields, obj, as_object}
use wazuh_ocsf_etl.Record.{OcsfRecord}
use wazuh_ocsf_etl.Routing.Laws.{IsTableName, routing_table-IsTableName}
use wazuh_ocsf_etl.Validator.Laws.{IsCompliant}
use wazuh_ocsf_etl.Transform.Extract.{extract_columns}
use wazuh_ocsf_etl.Transform.OverlayLaws.{Extends, Extends-trans, overlay-Extends}
use wazuh_ocsf_etl.Transform.Schema.{finish_record-IsCompliant}
use wazuh_ocsf_etl.Transform.Finish.{finish, finish_record}
use wazuh_ocsf_etl.Transform.Native.{apply_steps}
use wazuh_ocsf_etl.Transform.Native.Laws.{unnamed, Extends-unnamed, Extends-apply_steps}
use wazuh_ocsf_etl.Transform.Severities.{severity_of-IsSeverity}
use wazuh_ocsf_etl.Transform.Input.{Outside, data_of, read_event}
use wazuh_ocsf_etl.Transform.Convert.{
  native_steps, columns_of, fields_of, Globals, parse_line, convert, transformed, transform,
}

-- No block for a log source and no custom mapping overwrites a column that the scan of the candidate paths
-- has filled; only the network protocol may get another name.
pub columns_of-Extends :
    (to_json : Value → String) (custom : CustomMappings) (fs : Fields)
    → Extends (unnamed (extract_columns (data_of fs))) (columns_of to_json custom fs)
unfolding columns_of
columns_of-Extends to_json custom fs =
    let v = data_of fs in
    let c = extract_columns v in
    let steps = native_steps to_json fs v in
    Extends-trans (Extends-apply_steps steps c)
      (Extends-unnamed (overlay-Extends v custom.field_map (apply_steps steps c)))

module _ {F32 : Type 0} (o : Outside F32) where
  module _ (db : String) (special_locs : List String) where
    -- A row that belongs where it is put, and that the validator accepts unless its time is 0.
    pub record IsFiled (custom : CustomMappings) (raw : String) (table : String)
        (rec : OcsfRecord F32) : Type 0 where
      pub name : String
      pub named : IsTableName name
      pub table_of : table ≡ String.◌++◌ db (String.◌++◌ "." name)
      pub compliant : rec.time ≢ 0 → IsCompliant rec
      pub whole_line : rec.raw_data ≡ raw
      pub version : rec.ocsf_version ≡ custom.ocsf_version

    convert-IsFiled :
        (custom : CustomMappings) (raw : String) (fs : Fields)
        → AllChars (λ d. not (eqb (code d) b'.')) db
        → IsFiled custom raw
            (convert o db special_locs custom raw fs).0
            (convert o db special_locs custom raw fs).1
    unfolding convert finish finish_record read_event
    convert-IsFiled custom raw fs plain =
        let e = read_event o raw fs in
        let route = routing_table-IsTableName db e.agent_name e.location special_locs plain in
        record {
          name = route.0;
          named = route.1;
          table_of = route.2;
          compliant = λ timed.
              finish_record-IsCompliant (λ m. o.to_json (obj (fields_of m))) custom.ocsf_version e
                (columns_of o.to_json custom fs) (severity_of-IsSeverity o (data_of fs) _).listed
                timed;
          whole_line = refl;
          version = refl;
        }

    -- The table and the record that a line gives: the table is the database, a dot and a name of at most
    -- 200 characters in [a-z0-9_] that begins with "ocsf_", for a database with no dot in its name; the
    -- record keeps the line and the version of the mappings, and the validator has nothing to say of it
    -- unless its time is 0.
    pub transform-IsFiled :
        (custom : CustomMappings) (raw : String) (g : Globals) (table : String)
        (rec : OcsfRecord F32)
        → AllChars (λ d. not (eqb (code d) b'.')) db
        → (transform o db special_locs custom raw g).0 ≡ some (table, rec)
        → IsFiled custom raw table rec
    unfolding transform
    transform-IsFiled custom raw g table rec plain h = filed (parse_line o db special_locs raw) h
      where
        filed :
            (p : Option Fields)
            → (transformed o db special_locs custom raw g p).0 ≡ some (table, rec)
            → IsFiled custom raw table rec
        filed none k = cc
        filed (some fs) k =
            subst (λ row. IsFiled custom raw row.0 row.1) (some-injective _ _ k)
              (convert-IsFiled custom raw fs plain)

  -- A line that is blank, that is no JSON, or that is JSON but no object
  abbrev pub IsNoEvent : String → Type 0
  IsNoEvent raw =
      (is_empty (trim raw) ≡ true)
      ⊎ ((o.from_str raw ≡ none) ⊎ ((v : Value) × (o.from_str raw ≡ some v) × (as_object v ≡ none)))

  module _ (db : String) (special_locs : List String) where
    no_event : (raw : String) → parse_line o db special_locs raw ≡ none → IsNoEvent raw
    unfolding parse_line
    no_event raw h = elim (Bool-cases (is_empty (trim raw))) [
      | inl blank ↦ inl blank
      | inr text ↦ elim (Option-cases (o.from_str raw)) [
        | inl no_json ↦ inr (inl no_json)
        | inr (v, json) ↦ inr (inr (v, json, cc (h, text, json)))
      ]
    ]

    no_event_is_skipped : (raw : String) → IsNoEvent raw → parse_line o db special_locs raw ≡ none
    unfolding parse_line
    no_event_is_skipped raw (inl blank) = rw blank refl
    no_event_is_skipped raw (inr (inl no_json)) = rw no_json (ground arith)
    no_event_is_skipped raw (inr (inr (v, json, no_object))) = rw (json, no_object) (ground arith)

    -- `transform` gives no row exactly for a line that is blank, that is no JSON, or that is JSON but no
    -- object, and then changes nothing: neither the tracker nor the count of violations.
    pub transform-none_iff :
        (custom : CustomMappings) (raw : String) (g : Globals)
        → (((transform o db special_locs custom raw g).0 ≡ none) ↔ IsNoEvent raw)
          × (IsNoEvent raw → (transform o db special_locs custom raw g).1 ≡ g)
    unfolding transform
    transform-none_iff custom raw g = (
      (
        (λ h. no_event raw (unconverted (parse_line o db special_locs raw) h)),
        (λ e.
            ap (λ p. (transformed o db special_locs custom raw g p).0) (no_event_is_skipped raw e)),
      ),
      (λ e. ap (λ p. (transformed o db special_locs custom raw g p).1) (no_event_is_skipped raw e)),
    )
      where
        unconverted :
            (p : Option Fields) → (transformed o db special_locs custom raw g p).0 ≡ none → p ≡ none
        unconverted none h = refl
        unconverted (some fs) h = cc
