-- ===== src/Validator/Ocsf.antt =====
-- src/pipeline/validator.rs: what a record keeps to when the validator has nothing to say of it.
use wazuh_ocsf_etl.Base.{
  ℕ, String, ◌+◌, ◌*◌, ◌≤◌, ◌<◌, ◌≡◌, ◌≢◌, [], true, ◌⊎◌, arith, contains_num,
}
use wazuh_ocsf_etl.Record.{OcsfRecord}
use wazuh_ocsf_etl.Validator.{
  validate_ocsf_record, valid_class_uids, valid_severity_ids, expected_category,
}
use wazuh_ocsf_etl.Validator.Laws.{CategoryOk, validate_ocsf_record-eq-nil_iff}

severity_range : (id : ℕ) → contains_num valid_severity_ids id ≡ true → (id ≤ 6) ⊎ (id ≡ 99)
severity_range id h = ground (arith, h)

class_range :
    (c : ℕ)
    → contains_num valid_class_uids c ≡ true
    → ((1001 ≤ c) × (c ≤ 1008))
      ⊎ (((2001 ≤ c) × (c ≤ 2006))
          ⊎ (((3001 ≤ c) × (c ≤ 3006))
              ⊎ (((4001 ≤ c) × (c ≤ 4007))
                  ⊎ (((5001 ≤ c) × (c ≤ 5004)) ⊎ ((6001 ≤ c) × (c ≤ 6005))))))
class_range c h = ground (arith, h)

category_range :
    (c cat : ℕ) (name : String)
    → contains_num valid_class_uids c ≡ true
    → CategoryOk cat name (expected_category c)
    → (1 ≤ cat) × (cat ≤ 6) × (cat * 1000 < c) × (c ≤ cat * 1000 + 8)
unfolding expected_category
category_range c cat name h ok = ground (arith, class_range c h, ok)

-- A record that the validator has nothing to say of, with an activity of 8 bits: its severity is one of 0
-- to 6 or 99, its category is one of 1 to 6, its class is that category times 1000 and a number from 1 to 8, its
-- type is 100 times the class and the activity, without an overflow, and its time is not 0.
pub silent_record_meets_ocsf :
    {F32 : Type 0} (rec : OcsfRecord F32)
    → validate_ocsf_record rec ≡ []
    → rec.activity_id ≤ 255
    → ((rec.severity_id ≤ 6) ⊎ (rec.severity_id ≡ 99))
      × ((1 ≤ rec.category_uid) × (rec.category_uid ≤ 6))
      × ((rec.category_uid * 1000 < rec.class_uid) × (rec.class_uid ≤ rec.category_uid * 1000 + 8))
      × (rec.type_uid ≡ rec.class_uid * 100 + rec.activity_id)
      × (rec.time ≢ 0)
silent_record_meets_ocsf rec quiet small =
    let h = (validate_ocsf_record-eq-nil_iff rec).0 quiet in
    let (low, high, above, below) =
      category_range rec.class_uid rec.category_uid rec.category_name h.known_class
        h.fitting_category in
    (
      severity_range rec.severity_id h.known_severity,
      (low, high),
      (above, below),
      omega (arith, h.derived_type, high, below, small),
      h.timed,
    )
