-- ===== src/Unmapped/Tracker.antt =====
-- src/util/unmapped.rs: `track_unmapped_fields`, over the map behind the lock.
use wazuh_ocsf_etl.Base.{
  ℕ, ◌+◌, ◌%◌, ◌^◌, String, List, [], ◌∷◌, Bool, not, ◌&&◌, ◌||◌, ◌==◌, if◌then◌else◌, is_empty,
  contains, starts_with, map,
}
use wazuh_ocsf_etl.Config.{CustomMappings}
use wazuh_ocsf_etl.Json.{Value}
use wazuh_ocsf_etl.Json.Flatten.{flatten_to_paths}
use wazuh_ocsf_etl.Unmapped.Known.{is_known}

pub record FieldInfo : Type 0 where
  pub count : ℕ
  pub example : String

-- `UNMAPPED_TRACKER`: a `HashMap`, as the list of its entries.
abbrev pub Tracker : Type 0
Tracker = List (String × FieldInfo)

-- The payloads of AWS calls
abbrev pub is_suppressed : String → Bool
is_suppressed path =
    starts_with path "aws.requestParameters." || starts_with path "aws.responseElements."

abbrev pub custom_keys : CustomMappings → List String
custom_keys custom = map (λ (entry : String × String). entry.0) custom.field_map

-- The three `continue`s of the loop are not taken.
unfoldable pub is_unmapped : List String → String → Bool
is_unmapped keys path = not (is_known path) && not (contains keys path) && not (is_suppressed path)

-- An entry that is there counts one more, in 64 bits without overflow checks, and takes the example unless it is empty.
abbrev pub count_again : String → FieldInfo → FieldInfo
count_again example info = record {
  count = (info.count + 1) % 2 ^ 64;
  example = if is_empty example then info.example else example;
}

-- `entry(path).or_insert_with(..)` and the changes of the entry
unfoldable pub count_field : String → String → Tracker → Tracker
count_field path example [] = (path, record { count = 1; example = example }) ∷ []
count_field path example ((seen, info) ∷ tracker) =
    let others = count_field path example tracker in
    if seen == path then (seen, count_again example info) ∷ tracker else (seen, info) ∷ others

unfoldable pub track_leaves : List String → List (String × String) → Tracker → Tracker
track_leaves keys [] tracker = tracker
track_leaves keys ((path, example) ∷ leaves) tracker =
    track_leaves keys leaves
      (if is_unmapped keys path then count_field path example tracker else tracker)

-- Without leaves the loop does nothing, which is the early return.
unfoldable pub track_unmapped_fields : Value → CustomMappings → Tracker → Tracker
track_unmapped_fields data_val custom tracker =
    track_leaves (custom_keys custom) (flatten_to_paths data_val "") tracker
