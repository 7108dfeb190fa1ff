-- ===== src/Transform/Extensions.antt =====
-- src/pipeline/transform.rs: custom mappings whose target is no typed column.
use wazuh_ocsf_etl.Base.{
  inl, inr, Option, none, some, not, ◌&&◌, if◌then◌else◌, ap, ◌∙◌, sym, ◌≡◌, refl, String, List, [],
  ◌∷◌, Bool, true, false, ◌==◌, eq_iff, is_empty, contains, arith, Bool-cases,
}
use wazuh_ocsf_etl.Json.{Value}
use wazuh_ocsf_etl.Json.Lookup.{get_data_field}
use wazuh_ocsf_etl.Config.{standard_ocsf_targets}
use wazuh_ocsf_etl.Transform.Columns.{Columns, insert}
use wazuh_ocsf_etl.Transform.Overlay.{
  Target, other, target_of, apply_target, apply_mapping, overlay,
}
use wazuh_ocsf_etl.Transform.OverlayLaws.{is_other, target_of-other_iff}

abbrev pub lookup : String → List (String × String) → Option String
lookup k [] = none
lookup k ((j, v) ∷ m) = if j == k then some v else lookup k m

lookup-insert :
    (k j v : String) (m : List (String × String))
    → lookup j (insert k v m) ≡ (if k == j then some v else lookup j m)
unfolding insert
lookup-insert k j v [] = refl
lookup-insert k j v ((present, old) ∷ entries) =
    ground (arith, lookup-insert k j v entries, eq_iff present k, eq_iff present j, eq_iff k j)

abbrev pub or_before : Option String → Option String → Option String
or_before (some v) before = some v
or_before none before = before

-- The value of the last mapping to a target whose field the event has
abbrev pub last_value : Value → List (String × String) → String → Option String
last_value v [] target = none
last_value v ((field, t) ∷ entries) target = or_before (last_value v entries target) (
    if t == target && not (is_empty (get_data_field v field))
    then some (get_data_field v field)
    else none)

other_of_is_other : (t : Target) → is_other t ≡ true → t ≡ other
other_of_is_other other h = refl
other_of_is_other _ h = cc

-- An arm of the overlay changes the extensions at its own key at most.
lookup-apply_target :
    (t : Target) (key val k : String) (c : Columns)
    → (key == k) ≡ false
    → lookup k (apply_target t key val c).extensions ≡ lookup k c.extensions
unfolding apply_target
lookup-apply_target other key val k c h = rw (lookup-insert key k val c.extensions, h) refl
lookup-apply_target _ key val k c h = refl

nothing_there : (x : String) (b : Bool) → (if b && false then some x else none) ≡ none
nothing_there x true = refl
nothing_there x false = refl

lookup-apply_mapping :
    (v : Value) (field t target : String) (c : Columns)
    → contains standard_ocsf_targets target ≡ false
    → lookup target (apply_mapping v (field, t) c).extensions
      ≡ or_before
          (if t == target && not (is_empty (get_data_field v field))
            then some (get_data_field v field)
            else none)
          (lookup target c.extensions)
unfolding apply_mapping apply_target
lookup-apply_mapping v field t target c custom =
    elim (Bool-cases (is_empty (get_data_field v field))) [
      | inl empty ↦ rw empty (
          sym (
            ap (λ o. or_before o (lookup target c.extensions))
              (nothing_there (get_data_field v field) (t == target))))
      | inr full ↦ elim (Bool-cases (t == target)) [
        | inl same ↦
            let e = other_of_is_other (target_of t) (
              target_of-other_iff t
              ∙ ap (λ x. not (contains standard_ocsf_targets x)) ((eq_iff t target).0 same)
              ∙ ap not custom) in
            rw (full, same, e, lookup-insert t target (get_data_field v field) c.extensions, same)
              refl
        | inr off ↦ rw (full, off) (lookup-apply_target (target_of t) t _ target c off)
      ]
    ]

or_before_assoc :
    (a b c : Option String) → or_before a (or_before b c) ≡ or_before (or_before a b) c
or_before_assoc none b c = refl
or_before_assoc (some v) b c = refl

-- A target that is no typed column: behind the overlay, the extensions have for it the value of the last
-- mapping to it whose field the event has, in the order in which the mappings are gone through; without such a
-- mapping they have what they had.
pub lookup-overlay_of_custom :
    (v : Value) (entries : List (String × String)) (target : String) (c : Columns)
    → contains standard_ocsf_targets target ≡ false
    → lookup target (overlay v entries c).extensions
      ≡ or_before (last_value v entries target) (lookup target c.extensions)
unfolding overlay
lookup-overlay_of_custom v [] target c custom = refl
lookup-overlay_of_custom v ((field, t) ∷ entries) target c custom =
    lookup-overlay_of_custom v entries target (apply_mapping v (field, t) c) custom
    ∙ ap (or_before (last_value v entries target)) (lookup-apply_mapping v field t target c custom)
    ∙ or_before_assoc (last_value v entries target) _ _
