-- ===== src/Validator.antt =====
-- src/pipeline/validator.rs: the checks of a record, and the count of violations.
pub mod Laws
pub mod Ocsf
use wazuh_ocsf_etl.Base.{
  ℕ, ◌+◌, ◌*◌, ◌%◌, ◌^◌, String, List, [], ◌∷◌, ◌++◌, length, Bool, true, false, not, ◌&&◌, ◌||◌,
  Option, none, some, ◌==◌, if◌then◌else◌, eqb, leb, contains_num,
}
use wazuh_ocsf_etl.Record.{OcsfRecord}

abbrev pub valid_class_uids : List ℕ
valid_class_uids =
    1001 ∷ 1002 ∷ 1003 ∷ 1004 ∷ 1005 ∷ 1006 ∷ 1007 ∷ 1008 ∷ 2001 ∷ 2002 ∷ 2003 ∷ 2004 ∷ 2005 ∷ 2006
    ∷ 3001 ∷ 3002 ∷ 3003 ∷ 3004 ∷ 3005 ∷ 3006 ∷ 4001 ∷ 4002 ∷ 4003 ∷ 4004 ∷ 4005 ∷ 4006 ∷ 4007
    ∷ 5001 ∷ 5002 ∷ 5003 ∷ 5004 ∷ 6001 ∷ 6002 ∷ 6003 ∷ 6004 ∷ 6005 ∷ []

abbrev pub valid_severity_ids : List ℕ
valid_severity_ids = 0 ∷ 1 ∷ 2 ∷ 3 ∷ 4 ∷ 5 ∷ 6 ∷ 99 ∷ []

unfoldable pub valid_activity_ids_for_class : ℕ → Option (List ℕ)
valid_activity_ids_for_class class_uid =
    if eqb class_uid 1001
    then some (1 ∷ 2 ∷ 3 ∷ 4 ∷ 5 ∷ 99 ∷ [])
    else if eqb class_uid 1006
    then some (1 ∷ 2 ∷ 3 ∷ 99 ∷ [])
    else if eqb class_uid 2002 || eqb class_uid 2003 || eqb class_uid 2004
    then some (1 ∷ 2 ∷ 3 ∷ 99 ∷ [])
    else if eqb class_uid 3001
    then some (1 ∷ 2 ∷ 3 ∷ 7 ∷ 8 ∷ 9 ∷ 12 ∷ 99 ∷ [])
    else if eqb class_uid 3002
    then some (1 ∷ 2 ∷ 3 ∷ 99 ∷ [])
    else if eqb class_uid 4001
    then some (1 ∷ 2 ∷ 3 ∷ 4 ∷ 5 ∷ 6 ∷ 99 ∷ [])
    else if eqb class_uid 4002
    then some (1 ∷ 2 ∷ 3 ∷ 4 ∷ 5 ∷ 6 ∷ 7 ∷ 99 ∷ [])
    else if eqb class_uid 4003
    then some (1 ∷ 2 ∷ 3 ∷ 99 ∷ [])
    else if eqb class_uid 4004
    then some (1 ∷ 2 ∷ 3 ∷ 4 ∷ 99 ∷ [])
    else none

unfoldable pub expected_category : ℕ → Option (ℕ × String)
expected_category class_uid =
    if leb 1001 class_uid && leb class_uid 1099
    then some (1, "System Activity")
    else if leb 2001 class_uid && leb class_uid 2099
    then some (2, "Findings")
    else if leb 3001 class_uid && leb class_uid 3099
    then some (3, "Identity & Access Management")
    else if leb 4001 class_uid && leb class_uid 4099
    then some (4, "Network Activity")
    else if leb 5001 class_uid && leb class_uid 5099
    then some (5, "Discovery")
    else if leb 6001 class_uid && leb class_uid 6099
    then some (6, "Application Activity")
    else none

-- The violations, by their texts in the source.
pub data Violation : Type 0 where
  class_uid_unknown severity_out_of_range type_uid_mismatch activity_invalid : Violation
  category_uid_inconsistent category_name_inconsistent time_zero : Violation

-- `if failed { v.push(what); }`
abbrev pub push_if : Bool → Violation → List Violation
push_if failed what = if failed then what ∷ [] else []

abbrev pub activity_check : ℕ → Option (List ℕ) → List Violation
activity_check id none = []
activity_check id (some ids) = push_if (not (contains_num ids id)) activity_invalid

abbrev pub category_check : ℕ → String → Option (ℕ × String) → List Violation
category_check uid name none = []
category_check uid name (some (exp_uid, exp_name)) =
    push_if (not (eqb uid exp_uid)) category_uid_inconsistent
    ++ push_if (not (name == exp_name)) category_name_inconsistent

module _ {F32 : Type 0} (rec : OcsfRecord F32) where
  abbrev pub class_check : List Violation
  class_check = push_if (not (contains_num valid_class_uids rec.class_uid)) class_uid_unknown

  abbrev pub severity_check : List Violation
  severity_check =
      push_if (not (contains_num valid_severity_ids rec.severity_id)) severity_out_of_range

  abbrev pub derived_type_uid : ℕ
  derived_type_uid = (rec.class_uid * 100 + rec.activity_id) % 2 ^ 32

  abbrev pub type_check : List Violation
  type_check = push_if (not (eqb rec.type_uid derived_type_uid)) type_uid_mismatch

  abbrev pub time_check : List Violation
  time_check = push_if (eqb rec.time 0) time_zero

  unfoldable pub validate_ocsf_record : List Violation
  validate_ocsf_record =
      class_check
      ++ (severity_check
          ++ (type_check
              ++ (activity_check rec.activity_id (valid_activity_ids_for_class rec.class_uid)
                  ++ (category_check rec.category_uid rec.category_name
                        (expected_category rec.class_uid)
                      ++ time_check))))

  -- `check_and_warn` on the switch and the counter, an `AtomicU64`, which wraps around.
  unfoldable pub check_and_warn : Bool → ℕ → ℕ
  check_and_warn enabled violation_count =
      if enabled then (violation_count + length validate_ocsf_record) % 2 ^ 64 else violation_count
