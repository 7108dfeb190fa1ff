-- ===== src/Unmapped/Report.antt =====
-- src/util/unmapped.rs: the names that `write_unmapped_report` writes.
use wazuh_ocsf_etl.Base.{
  ℕ, ◌≤◌, String, List, [], ◌∷◌, Bool, ◌&&◌, ◌||◌, Option, none, some, ◌≡◌, refl, ◌∙◌,
  if◌then◌else◌, eqb, ltb, max, arith, Bool-cases, inl, inr, count, map,
}
use Prim.Native.String.{compare}
use text.Mathlib.Text.{is_le}
use wazuh_ocsf_etl.Unmapped.Tracker.{FieldInfo, Tracker}

-- The comparison: the greater count first, and names in order where counts are equal.
abbrev pub comes_first : String × FieldInfo → String × FieldInfo → Bool
comes_first (p, a) (q, b) = ltb b.count a.count || (eqb a.count b.count && is_le (compare p q))

-- `sort_by`, as sorting by insertion
unfoldable pub place : String × FieldInfo → Tracker → Tracker
place field [] = field ∷ []
place field (next ∷ fields) =
    let later = place field fields in
    if comes_first field next then field ∷ next ∷ fields else next ∷ later

unfoldable pub sort_fields : Tracker → Tracker
sort_fields [] = []
sort_fields (field ∷ fields) = place field (sort_fields fields)

-- The value of `fields` in the file; nothing is written for an empty tracker.
unfoldable pub report : Tracker → Option (List String)
report [] = none
report (field ∷ fields) = some (map (λ f. f.0) (sort_fields (field ∷ fields)))

-- The counts go down, from at most `most`.
abbrev pub Descending : ℕ → Tracker → Type 0
Descending most [] = Unit
Descending most ((path, info) ∷ fields) = (info.count ≤ most) × Descending info.count fields

place-Descending :
    (most : ℕ) (path : String) (info : FieldInfo) (fields : Tracker)
    → info.count ≤ most
    → Descending most fields
    → Descending most (place (path, info) fields)
unfolding place
place-Descending most path info [] le h = (le, tt)
place-Descending most path info ((next, seen) ∷ fields) le (first, h) =
    elim (Bool-cases (comes_first (path, info) (next, seen))) [
      | inl before ↦ rw before (le, (ground (arith, before), h))
      | inr after ↦
          rw after (first, place-Descending seen.count path info fields (ground (arith, after)) h)
    ]

count-place :
    (test : String × FieldInfo → Bool) (field : String × FieldInfo) (fields : Tracker)
    → count test (place field fields) ≡ count test (field ∷ fields)
unfolding place
count-place test field [] = refl
count-place test field (next ∷ fields) = elim (Bool-cases (comes_first field next)) [
  | inl before ↦ rw before refl
  | inr after ↦ rw after (omega (arith, count-place test field fields))
]

count-sort_fields :
    (test : String × FieldInfo → Bool) (fields : Tracker)
    → count test (sort_fields fields) ≡ count test fields
unfolding sort_fields
count-sort_fields test [] = refl
count-sort_fields test (field ∷ fields) =
    count-place test field (sort_fields fields) ∙ omega (arith, count-sort_fields test fields)

-- The greatest count of the tracker
abbrev pub greatest : Tracker → ℕ
greatest [] = 0
greatest ((path, info) ∷ fields) = max info.count (greatest fields)

Descending-more : (a b : ℕ) (fields : Tracker) → a ≤ b → Descending a fields → Descending b fields
Descending-more a b [] le h = tt
Descending-more a b ((path, info) ∷ fields) le (first, h) = (omega (arith, first, le), h)

sort_fields-Descending : (fields : Tracker) → Descending (greatest fields) (sort_fields fields)
unfolding sort_fields
sort_fields-Descending [] = tt
sort_fields-Descending ((path, info) ∷ fields) =
    place-Descending (max info.count (greatest fields)) path info (sort_fields fields) (omega arith)
      (Descending-more (greatest fields) (max info.count (greatest fields)) (sort_fields fields)
        (omega arith) (sort_fields-Descending fields))

-- The report of a tracker that is not empty names its fields in an order in which the counts go down,
-- each entry as often as it is in the tracker, for every way of choosing entries.
pub report_is_sorted :
    (field : String × FieldInfo) (fields : Tracker)
    → (sorted : Tracker) × (report (field ∷ fields) ≡ some (map (λ f. f.0) sorted))
      × Descending (greatest (field ∷ fields)) sorted
      × ((test : String × FieldInfo → Bool) → count test sorted ≡ count test (field ∷ fields))
unfolding report
report_is_sorted field fields = (
  sort_fields (field ∷ fields),
  refl,
  sort_fields-Descending (field ∷ fields),
  (λ test. count-sort_fields test (field ∷ fields)),
)
