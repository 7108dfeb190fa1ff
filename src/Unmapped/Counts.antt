-- ===== src/Unmapped/Counts.antt =====
-- src/util/unmapped.rs: the counts of the tracker, and its paths.
use wazuh_ocsf_etl.Base.{
  ℕ, ◌+◌, ◌<◌, ◌^◌, contains, map, starts_with, not, ◌&&◌, String, List, [], ◌∷◌, true, false, ◌≡◌,
  ap, ◌∙◌, ◌==◌, if◌then◌else◌, eq_iff, arith, All, Bool-cases, inl, inr, if-both,
}
use wazuh_ocsf_etl.Config.{CustomMappings}
use wazuh_ocsf_etl.Json.{Value}
use wazuh_ocsf_etl.Json.Flatten.{flatten_to_paths}
use wazuh_ocsf_etl.Unmapped.Known.{is_known}
use wazuh_ocsf_etl.Unmapped.Tracker.{
  FieldInfo, Tracker, is_suppressed, custom_keys, is_unmapped, count_field, track_leaves,
  track_unmapped_fields,
}

-- The count that the tracker has for a path, 0 without an entry
abbrev pub counted : String → Tracker → ℕ
counted p [] = 0
counted p ((seen, info) ∷ tracker) = if seen == p then info.count else counted p tracker

-- How many leaves have the path
abbrev pub occurrences : String → List (String × String) → ℕ
occurrences p [] = 0
occurrences p ((path, example) ∷ leaves) = (if path == p then 1 else 0) + occurrences p leaves

counted-count_field :
    (p path example : String) (tracker : Tracker)
    → (if path == p then 1 else 0) + counted p tracker < 2 ^ 64
    → counted p (count_field path example tracker)
      ≡ (if path == p then 1 else 0) + counted p tracker
unfolding count_field
counted-count_field p path example [] h = ground arith
counted-count_field p path example ((seen, info) ∷ tracker) h = ground (
  arith,
  h,
  counted-count_field p path example tracker,
  eq_iff seen path,
  eq_iff seen p,
  eq_iff path p,
)

-- What the leaves add to the count of a path
abbrev pub added : List String → String → List (String × String) → ℕ
added keys p leaves = if is_unmapped keys p then occurrences p leaves else 0

counted_one :
    (keys : List String) (p path example : String) (tracker : Tracker)
    → added keys p ((path, example) ∷ []) + counted p tracker < 2 ^ 64
    → counted p (if is_unmapped keys path then count_field path example tracker else tracker)
      ≡ added keys p ((path, example) ∷ []) + counted p tracker
counted_one keys p path example tracker h = elim (Bool-cases (path == p)) [
  | inl same ↦
      let e = ap (is_unmapped keys) ((eq_iff path p).0 same) in
      ground (arith, h, same, e, counted-count_field p path example tracker)
  | inr other ↦ ground (arith, h, other, counted-count_field p path example tracker)
]

counted-track_leaves :
    (keys : List String) (p : String) (leaves : List (String × String)) (tracker : Tracker)
    → added keys p leaves + counted p tracker < 2 ^ 64
    → counted p (track_leaves keys leaves tracker) ≡ added keys p leaves + counted p tracker
unfolding track_leaves
counted-track_leaves keys p [] tracker h = ground arith
counted-track_leaves keys p ((path, example) ∷ leaves) tracker h =
    let one = counted_one keys p path example tracker (ground (arith, h)) in
    counted-track_leaves keys p leaves
      (if is_unmapped keys path then count_field path example tracker else tracker)
      (ground (arith, h, one))
    ∙ ground (arith, one)

guards_of :
    (keys : List String) (p : String)
    → is_unmapped keys p ≡ (
        not (is_known p)
        && (not (contains keys p)
            && (not (starts_with p "aws.requestParameters.")
                && not (starts_with p "aws.responseElements."))))
unfolding is_unmapped
guards_of keys p = ground arith

-- What an event does to the count of a path, as long as it fits 64 bits: a known path, a key of the custom
-- mappings and a path into the parameters or the response of an AWS call keep their counts, and any other path
-- counts the leaves of the event at that path in addition.
pub counted-track_unmapped_fields :
    (data_val : Value) (custom : CustomMappings) (p : String) (tracker : Tracker)
    → occurrences p (flatten_to_paths data_val "") + counted p tracker < 2 ^ 64
    → let after = counted p (track_unmapped_fields data_val custom tracker) in
      let is_key = contains (map (λ (entry : String × String). entry.0) custom.field_map) p in
      let is_parameter = starts_with p "aws.requestParameters." in
      let is_response = starts_with p "aws.responseElements." in
      (is_known p ≡ true → after ≡ counted p tracker)
      × (is_key ≡ true → after ≡ counted p tracker)
      × (is_parameter ≡ true → after ≡ counted p tracker)
      × (is_response ≡ true → after ≡ counted p tracker)
      × (is_known p ≡ false
          → is_key ≡ false
          → is_parameter ≡ false
          → is_response ≡ false
          → after ≡ occurrences p (flatten_to_paths data_val "") + counted p tracker)
unfolding track_unmapped_fields
counted-track_unmapped_fields data_val custom p tracker h =
    let leaves = flatten_to_paths data_val "" in
    let all = counted-track_leaves (custom_keys custom) p leaves tracker (ground (arith, h)) in
    let guards = guards_of (custom_keys custom) p in ground (arith, all, guards)

-- No entry of the report is a path that the program reads, or a payload of an AWS call.
abbrev pub IsForeign : String × FieldInfo → Type 0
IsForeign (path, info) = (is_known path ≡ false) × (is_suppressed path ≡ false)

IsForeign-unmapped :
    (keys : List String) (path : String) (info : FieldInfo)
    → is_unmapped keys path ≡ true
    → IsForeign (path, info)
unfolding is_unmapped
IsForeign-unmapped keys path info h = (ground (arith, h), ground (arith, h))

count_field-IsForeign :
    (path example : String) (tracker : Tracker)
    → ((info : FieldInfo) → IsForeign (path, info))
    → All IsForeign tracker
    → All IsForeign (count_field path example tracker)
unfolding count_field
count_field-IsForeign path example [] f h = (f (record { count = 1; example = example }), tt)
count_field-IsForeign path example ((seen, info) ∷ tracker) f (e, h) =
    if-both (All IsForeign) (seen == path) (e, h)
      (e, count_field-IsForeign path example tracker f h)

track_leaves-IsForeign :
    (keys : List String) (leaves : List (String × String)) (tracker : Tracker)
    → All IsForeign tracker
    → All IsForeign (track_leaves keys leaves tracker)
unfolding track_leaves
track_leaves-IsForeign keys [] tracker h = h
track_leaves-IsForeign keys ((path, example) ∷ leaves) tracker h =
    elim (Bool-cases (is_unmapped keys path)) [
      | inl on ↦ rw on (
          track_leaves-IsForeign keys leaves (count_field path example tracker) (
            count_field-IsForeign path example tracker
              (λ info. IsForeign-unmapped keys path info on) h))
      | inr off ↦ rw off (track_leaves-IsForeign keys leaves tracker h)
    ]

-- Tracking keeps it so that no entry of the tracker is a path that `transform` reads for a column or
-- elsewhere, or a payload of an AWS call.
pub track_unmapped_fields-IsForeign :
    (data_val : Value) (custom : CustomMappings) (tracker : Tracker)
    → All IsForeign tracker
    → All IsForeign (track_unmapped_fields data_val custom tracker)
unfolding track_unmapped_fields
track_unmapped_fields-IsForeign data_val custom tracker h =
    track_leaves-IsForeign (custom_keys custom) (flatten_to_paths data_val "") tracker h
