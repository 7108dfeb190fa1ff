-- ===== src/Json/RoundTrip.antt =====
-- src/util/json.rs: the paths of `flatten_to_paths` against the lookup by `get_data_field`.
use Prim.Native.String.{[], ◌∷◌}
use mathlib.Core.Path.{subst}
use wazuh_ocsf_etl.Base.{
  String, Bool, true, false, not, ◌&&◌, Option, none, some, ◌≡◌, refl, sym, ap, ◌∙◌, if◌then◌else◌,
  if-both, is_empty, split, ◌==◌, eq_iff, All, All-map, All-append, arith, Bool-cases, eq_refl, inl,
  inr,
}
use mathlib.Core.List.{[], ◌∷◌}
use wazuh_ocsf_etl.Json.{
  Value, Fields, obj, arr, str, num, bool, null, no_fields, field, get, member,
}
use wazuh_ocsf_etl.Json.Segments.{has_dot, segments, split_segment, walk-append, segments-join_path}
use wazuh_ocsf_etl.Json.Lookup.{walk, text_of, get_data_field}
use wazuh_ocsf_etl.Json.Flatten.{join_path, leaf_at, flatten_to_paths, flatten_fields}

abbrev is_missing : Option Value → Bool
is_missing none = true
is_missing (some v) = false

-- A key that is a segment of a path
abbrev is_segment : String → Bool
is_segment k = not (is_empty k) && not (has_dot k)

-- A value without arrays, whose keys are segments, each once in its object
abbrev mutual
  pub is_plain : Value → Bool
  is_plain (obj fs) = is_plain_fields fs
  is_plain (arr xs) = false
  is_plain _ = true

  pub is_plain_fields : Fields → Bool
  is_plain_fields no_fields = true
  is_plain_fields (field k v fs) =
      is_segment k && is_missing (get fs k) && is_plain v && is_plain_fields fs

record IsPlainField (k : String) (v : Value) (fs : Fields) : Type 0 where
  text : is_empty k ≡ false
  dotless : has_dot k ≡ false
  missing : is_missing (get fs k) ≡ true
  value : is_plain v ≡ true
  rest : is_plain_fields fs ≡ true

all_hold :
    (a b c d e : Bool)
    → ((not a && not b) && c && d && e) ≡ true
    → (a ≡ false) × (b ≡ false) × (c ≡ true) × (d ≡ true) × (e ≡ true)
all_hold a b c d e h = ground arith

plain_parts :
    (k : String) (v : Value) (fs : Fields)
    → is_plain_fields (field k v fs) ≡ true
    → IsPlainField k v fs
plain_parts k v fs h =
    let (text, dotless, missing, value, rest) =
      all_hold (is_empty k) (has_dot k) (is_missing (get fs k)) (is_plain v) (is_plain_fields fs)
        h in
    record { text = text; dotless = dotless; missing = missing; value = value; rest = rest }

member_of_object : (fs : Fields) (k : String) → member (obj fs) k ≡ get fs k
unfolding member
member_of_object fs k = refl

get_first : (k : String) (v : Value) (fs : Fields) → get (field k v fs) k ≡ some v
unfolding get
get_first k v fs = rw (eq_refl k) refl

get_other :
    (k j : String) (v : Value) (fs : Fields) → (k == j) ≡ false → get (field k v fs) j ≡ get fs j
unfolding get
get_other k j v fs other = simp other refl

get_later :
    (k j : String) (v u : Value) (fs : Fields)
    → is_missing (get fs k) ≡ true
    → get fs j ≡ some u
    → get (field k v fs) j ≡ some u
unfolding get
get_later k j v u fs missing h = elim (Bool-cases (k == j)) [
  | inl same ↦ cc (ap is_missing (ap (get fs) ((eq_iff k j).0 same) ∙ h), missing)
  | inr other ↦ get_other k j v fs other ∙ h
]

module _ (root : Value) where
  -- The lookup of a path, once it is no literal key
  abbrev Reads : String × String → Type 0
  Reads e = text_of (walk (split b'.' e.0) root) ≡ e.1

  abbrev Leads : String → Value → Type 0
  Leads prefix v = walk (segments prefix) root ≡ some v

  leaf_at-Reads :
      (leaf : Value) (prefix : String) → Leads prefix leaf → All Reads (leaf_at leaf prefix)
  leaf_at-Reads leaf [] h = tt
  leaf_at-Reads leaf (c ∷ p) h = (ap text_of h, tt)

  mutual
    unfolding flatten_to_paths join_path

    flatten_to_paths-Reads :
        (v : Value) (prefix : String)
        → is_plain v ≡ true
        → Leads prefix v
        → All Reads (flatten_to_paths v prefix)
    flatten_to_paths-Reads (obj fs) prefix plain h =
        flatten_fields-Reads fs fs prefix plain h (λ k v e. e)
    flatten_to_paths-Reads (arr xs) prefix plain h = cc
    flatten_to_paths-Reads null prefix plain h = tt
    flatten_to_paths-Reads (str s) prefix plain h = leaf_at-Reads (str s) prefix h
    flatten_to_paths-Reads (num n) prefix plain h = leaf_at-Reads (num n) prefix h
    flatten_to_paths-Reads (bool b) prefix plain h = leaf_at-Reads (bool b) prefix h

    flatten_fields-Reads :
        (fs all : Fields) (prefix : String)
        → is_plain_fields fs ≡ true
        → Leads prefix (obj all)
        → ((k : String) (v : Value) → get fs k ≡ some v → get all k ≡ some v)
        → All Reads (flatten_fields fs prefix)
    flatten_fields-Reads no_fields all prefix plain h within = tt
    flatten_fields-Reads (field k v fs) all prefix plain h within =
        let parts = plain_parts k v fs plain in
        let (extended, some_text) = segments-join_path prefix k parts.text parts.dotless in
        let there : Leads (join_path prefix k) v =
          ap (λ ks. walk ks root) extended
          ∙ walk-append (segments prefix) k root (obj all) h
          ∙ member_of_object all k
          ∙ within k v (get_first k v fs) in
        All-append Reads (flatten_to_paths v (join_path prefix k)) _
          (flatten_to_paths-Reads v (join_path prefix k) parts.value there)
          (flatten_fields-Reads fs all prefix parts.rest h
            (λ j u e. within j u (get_later k j v u fs parts.missing e)))

key_is_segment :
    (fs : Fields) (p : String) (u : Value)
    → is_plain_fields fs ≡ true
    → get fs p ≡ some u
    → has_dot p ≡ false
unfolding get
key_is_segment no_fields p u plain h = cc
key_is_segment (field k v fs) p u plain h =
    let parts = plain_parts k v fs plain in
    elim (Bool-cases (k == p)) [
      | inl same ↦ subst (λ q. has_dot q ≡ false) ((eq_iff k p).0 same) parts.dotless
      | inr other ↦ key_is_segment fs p u parts.rest (sym (get_other k p v fs other) ∙ h)
    ]

by_literal :
    (o : Option Value) (text : String)
    → ((u : Value) → o ≡ some u → text_of o ≡ text)
    → (if is_empty (text_of o) then text else text_of o) ≡ text
by_literal none text h = refl
by_literal (some u) text h = if-both (λ t. t ≡ text) (is_empty (text_of (some u))) refl (h u refl)

get_data_field_of_plain :
    (fs : Fields) (p : String)
    → is_plain_fields fs ≡ true
    → get_data_field (obj fs) p ≡ text_of (walk (split b'.' p) (obj fs))
unfolding get_data_field
get_data_field_of_plain fs p plain = by_literal (member (obj fs) p) _ (λ u e.
    let dotless = key_is_segment fs p u plain (sym (member_of_object fs p) ∙ e) in
    ap text_of (
      sym (
        ap (λ ks. walk ks (obj fs)) (split_segment p dotless)
        ∙ walk-append [] p (obj fs) (obj fs) (unfold walk in refl))))

-- Every path that `flatten_to_paths` lists for an object leads `get_data_field` to the text that is listed
-- with it, if the object holds no array and its keys, at every depth, are not empty, have no dot, and stand
-- once in their object.
pub get_data_field-flatten_to_paths :
    (fs : Fields)
    → is_plain (obj fs) ≡ true
    → All (λ e. get_data_field (obj fs) e.0 ≡ e.1) (flatten_to_paths (obj fs) "")
get_data_field-flatten_to_paths fs plain =
    All-map _ _ (λ e h. get_data_field_of_plain fs e.0 plain ∙ h) _
      (flatten_to_paths-Reads (obj fs) (obj fs) "" plain (unfold walk in refl))
