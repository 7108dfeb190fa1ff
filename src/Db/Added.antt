-- ===== src/Db/Added.antt =====
-- src/output/db.rs: the columns that `ensure_custom_columns` reports as applied.
use wazuh_ocsf_etl.Base.{
  String, List, [], ◌∷◌, Bool, true, false, Option, none, some, if◌then◌else◌, contains, is_empty,
  split_once, ◌≡◌, refl, sym, ap, ◌∙◌, Bool-cases, inl, inr, ◌⊎◌, eq_iff, ◌==◌,
}
use mathlib.Core.Path.{subst}
use wazuh_ocsf_etl.Db.Columns.{
  ClickHouse, Statement, add_custom_column, safe_column, add_columns, add_columns_to,
  ensure_custom_columns,
}
use wazuh_ocsf_etl.Db.Keeps.{Keeps, add_columns_keeps}
use wazuh_ocsf_etl.Db.Delivery.{IsHonest}

module _ {W R : Type 0} (server : ClickHouse W R) (Has : W → Statement → Type 0)
    (Open Stored : W → String → List R → Type 0) (honest : IsHonest server Has Open Stored) where
  -- The table has the column for a target.
  abbrev pub IsAdded : W → String → String → Type 0
  IsAdded w c table =
      (parts : String × String) × (split_once b'.' table ≡ some parts)
      × Has w (add_custom_column parts.0 parts.1 (safe_column c))

  tried_last :
      (c col : String) (done : Bool) (applied : List String)
      → contains (if done then col ∷ applied else applied) c ≡ true
      → ((c ≡ col) × (done ≡ true)) ⊎ (contains applied c ≡ true)
  unfolding contains
  tried_last c col false applied h = inr h
  tried_last c col true applied h = elim (Bool-cases (c == col)) [
    | inl same ↦ inl ((eq_iff c col).0 same, refl)
    | inr other ↦ inr (simp other at h)
  ]

  add_columns-Has :
      (db tbl c : String) (cols : List String) (w : W)
      → contains (add_columns server db tbl cols w).0 c ≡ true
      → Has (add_columns server db tbl cols w).1 (add_custom_column db tbl (safe_column c))
  unfolding add_columns contains
  add_columns-Has db tbl c [] w h = cc
  add_columns-Has db tbl c (col ∷ cols) w h = elim (Bool-cases (is_empty (safe_column col))) [
    | inl empty ↦ rw empty (add_columns-Has db tbl c cols w (simp empty at h))
    | inr named ↦
        let step = server.execute (add_custom_column db tbl (safe_column col)) w in
        let rest = add_columns server db tbl cols step.1 in
        let e : add_columns server db tbl (col ∷ cols) w
            ≡ (if step.0 then col ∷ rest.0 else rest.0, rest.1) =
          rw named refl in
        subst (λ (r : List String × W). Has r.1 (add_custom_column db tbl (safe_column c))) (sym e)
          (elim (tried_last c col step.0 rest.0
            (ap (λ (r : List String × W). contains r.0 c) (sym e) ∙ h)) [
              | inl (same, done) ↦
                  add_columns_keeps server (λ v. Has v (add_custom_column db tbl (safe_column c)))
                    (honest.has_kept _) db tbl cols step.1
                    (subst (λ x. Has step.1 (add_custom_column db tbl (safe_column x))) (sym same)
                      (honest.executed _ w done))
              | inr later ↦ add_columns-Has db tbl c cols step.1 later
            ])
  ]

  applied-IsAdded :
      (c table : String) (o : Option (String × String)) (cols : List String) (w : W)
      → split_once b'.' table ≡ o
      → contains (add_columns_to server o cols w).0 c ≡ true
      → IsAdded (add_columns_to server o cols w).1 c table
  unfolding contains
  applied-IsAdded c table none cols w e h = cc
  applied-IsAdded c table (some parts) cols w e h =
      (parts, e, add_columns-Has parts.0 parts.1 c cols w h)

  pub ensure_custom_columns-IsAdded :
      (table c : String) (cols : List String) (w : W)
      → contains (ensure_custom_columns server table cols w).0 c ≡ true
      → IsAdded (ensure_custom_columns server table cols w).1 c table
  unfolding ensure_custom_columns contains
  ensure_custom_columns-IsAdded table c [] w h = cc
  ensure_custom_columns-IsAdded table c (col ∷ cols) w h =
      applied-IsAdded c table (split_once b'.' table) (col ∷ cols) w refl h

  pub IsAdded-kept : (c table : String) → Keeps server (λ w. IsAdded w c table)
  IsAdded-kept c table = record {
    by_execute = λ s w (parts, e, h). (parts, e, (honest.has_kept _).by_execute s w h);
    by_open = λ t w (parts, e, h). (parts, e, (honest.has_kept _).by_open t w h);
    by_write = λ t row w (parts, e, h). (parts, e, (honest.has_kept _).by_write t row w h);
    by_end = λ t w (parts, e, h). (parts, e, (honest.has_kept _).by_end t w h);
  }
