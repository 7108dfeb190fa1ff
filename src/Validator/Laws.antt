-- ===== src/Validator/Laws.antt =====
-- What the checks of validator.rs amount to.
use wazuh_ocsf_etl.Base.{
  ℕ, ◌+◌, ◌*◌, ◌%◌, ◌^◌, ◌≡◌, refl, ◌≢◌, ◌↔◌, String, List, [], ◌∷◌, ◌++◌, Bool, true, false,
  Option, none, some, eqb_iff, eq_iff, arith, contains_num,
}
use wazuh_ocsf_etl.Record.{OcsfRecord}
use wazuh_ocsf_etl.Validator.{
  class_check, severity_check, type_check, time_check, derived_type_uid, Violation, push_if,
  activity_check, category_check, validate_ocsf_record, valid_class_uids, valid_severity_ids,
  valid_activity_ids_for_class, expected_category,
}

abbrev pub ActivityOk : ℕ → Option (List ℕ) → Type 0
ActivityOk id none = Unit
ActivityOk id (some ids) = contains_num ids id ≡ true

abbrev pub CategoryOk : ℕ → String → Option (ℕ × String) → Type 0
CategoryOk uid name none = Unit
CategoryOk uid name (some (exp_uid, exp_name)) = (uid ≡ exp_uid) × (name ≡ exp_name)

-- The OCSF constraints on a record, as statements.
pub record IsCompliant {F32 : Type 0} (rec : OcsfRecord F32) : Type 0 where
  pub known_class : contains_num valid_class_uids rec.class_uid ≡ true
  pub known_severity : contains_num valid_severity_ids rec.severity_id ≡ true
  pub derived_type : rec.type_uid ≡ (rec.class_uid * 100 + rec.activity_id) % 2 ^ 32
  pub fitting_activity : ActivityOk rec.activity_id (valid_activity_ids_for_class rec.class_uid)
  pub fitting_category :
      CategoryOk rec.category_uid rec.category_name (expected_category rec.class_uid)
  pub timed : rec.time ≢ 0

push_if-eq-nil_iff : (b : Bool) (v : Violation) → (push_if b v ≡ []) ↔ (b ≡ false)
push_if-eq-nil_iff b v = ground arith

append-eq-nil : (xs ys : List Violation) → (xs ++ ys ≡ []) ↔ ((xs ≡ []) × (ys ≡ []))
append-eq-nil [] ys = ((λ e. (refl, e)), (λ p. p.1))
append-eq-nil (x ∷ xs) ys = ((λ e. cc), (λ p. cc (p.0)))

activity_check-eq-nil_iff :
    (id : ℕ) (o : Option (List ℕ)) → (activity_check id o ≡ []) ↔ ActivityOk id o
activity_check-eq-nil_iff id none = ground arith
activity_check-eq-nil_iff id (some ids) = ground arith

category_check-eq-nil_iff :
    (uid : ℕ) (name : String) (o : Option (ℕ × String))
    → (category_check uid name o ≡ []) ↔ CategoryOk uid name o
category_check-eq-nil_iff uid name none = ground arith
category_check-eq-nil_iff uid name (some (exp_uid, exp_name)) =
    ground (arith, eqb_iff uid exp_uid, eq_iff name exp_name)

six-eq-nil :
    (a b c d e f : List Violation)
    → (a ++ (b ++ (c ++ (d ++ (e ++ f)))) ≡ [])
      ↔ ((a ≡ []) × (b ≡ []) × (c ≡ []) × (d ≡ []) × (e ≡ []) × (f ≡ []))
six-eq-nil a b c d e f = grind (arith, append-eq-nil)

module _ {F32 : Type 0} (rec : OcsfRecord F32) where
  parts : (validate_ocsf_record rec ≡ []) ↔ (
      (class_check rec ≡ [])
      × (severity_check rec ≡ [])
      × (type_check rec ≡ [])
      × (activity_check rec.activity_id (valid_activity_ids_for_class rec.class_uid) ≡ [])
      × (category_check rec.category_uid rec.category_name (expected_category rec.class_uid) ≡ [])
      × (time_check rec ≡ []))
  unfolding validate_ocsf_record
  parts =
      six-eq-nil (class_check rec) (severity_check rec) (type_check rec)
        (activity_check rec.activity_id (valid_activity_ids_for_class rec.class_uid))
        (category_check rec.category_uid rec.category_name (expected_category rec.class_uid))
        (time_check rec)

  IsCompliant-if_silent : validate_ocsf_record rec ≡ [] → IsCompliant rec
  IsCompliant-if_silent h =
      let (a, b, c, d, e, f) = parts.0 h in
      record {
        known_class = ground arith;
        known_severity = ground arith;
        derived_type = ground (arith, eqb_iff rec.type_uid (derived_type_uid rec));
        fitting_activity = (activity_check-eq-nil_iff rec.activity_id _).0 d;
        fitting_category = (category_check-eq-nil_iff rec.category_uid rec.category_name _).0 e;
        timed = ground (arith, eqb_iff rec.time 0);
      }

  silent_if_compliant : IsCompliant rec → validate_ocsf_record rec ≡ []
  silent_if_compliant k = parts.1 (
    ground (arith, k.known_class),
    ground (arith, k.known_severity),
    ground (arith, k.derived_type, eqb_iff rec.type_uid (derived_type_uid rec)),
    (activity_check-eq-nil_iff rec.activity_id _).1 k.fitting_activity,
    (category_check-eq-nil_iff rec.category_uid rec.category_name _).1 k.fitting_category,
    ground (arith, k.timed, eqb_iff rec.time 0),
  )

-- The validator reports nothing exactly when the record meets the OCSF constraints: class and severity
-- are known, the type is derived from class and activity, activity and category fit the class where the
-- schema says which do, and the time is not 0.
pub validate_ocsf_record-eq-nil_iff :
    {F32 : Type 0} (rec : OcsfRecord F32) → (validate_ocsf_record rec ≡ []) ↔ IsCompliant rec
validate_ocsf_record-eq-nil_iff rec = (IsCompliant-if_silent rec, silent_if_compliant rec)
