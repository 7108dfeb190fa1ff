-- ===== src/Json/Flatten.antt =====
-- src/util/json.rs: `flatten_to_paths`, with the vector that it fills as its result.
use Prim.Native.String
use wazuh_ocsf_etl.Base.{ℕ, ◌+◌, String, List, [], ◌∷◌, ◌++◌, if◌then◌else◌, is_empty, to_decimal}
use wazuh_ocsf_etl.Json.{Value, Items, Fields, null, arr, obj, no_items, item, no_fields, field}
use wazuh_ocsf_etl.Json.Lookup.{value_to_str}

-- `format!("{prefix}.{k}")`, and the bare key at the root
unfoldable pub join_path : String → String → String
join_path prefix k = if is_empty prefix then k else String.◌++◌ prefix (String.◌++◌ "." k)

abbrev pub leaf_at : Value → String → List (String × String)
leaf_at leaf prefix = if is_empty prefix then [] else (prefix, value_to_str leaf) ∷ []

unfoldable mutual
  pub flatten_to_paths : Value → String → List (String × String)
  flatten_to_paths (obj fs) prefix = flatten_fields fs prefix
  flatten_to_paths (arr xs) prefix = flatten_items xs 0 prefix
  flatten_to_paths null prefix = []
  flatten_to_paths leaf prefix = leaf_at leaf prefix

  pub flatten_fields : Fields → String → List (String × String)
  flatten_fields no_fields prefix = []
  flatten_fields (field k v fs) prefix =
      flatten_to_paths v (join_path prefix k) ++ flatten_fields fs prefix

  pub flatten_items : Items → ℕ → String → List (String × String)
  flatten_items no_items i prefix = []
  flatten_items (item v xs) i prefix =
      flatten_to_paths v (join_path prefix (to_decimal i)) ++ flatten_items xs (i + 1) prefix
