-- ===== src/Pipeline/Queues.antt =====
-- src/main.rs: the batches and the log as queues, one for each table.
pub mod Refine
use mathlib.Core.Path.{fun_ext, subst}
use wazuh_ocsf_etl.Base.{
  ℕ, String, List, [], ◌∷◌, ◌++◌, Bool, true, false, ◌||◌, Option, none, some, ◌≡◌, refl, sym, ap,
  ◌∙◌, ◌==◌, eq_iff, if◌then◌else◌, contains, leb, ltb, arith, if-both, Bool-cases, inl, inr,
}
use wazuh_ocsf_etl.Config.{CustomMappings}
use wazuh_ocsf_etl.Db.Columns.{ClickHouse}
use wazuh_ocsf_etl.Db.Flush.{pending_work}
use wazuh_ocsf_etl.Db.Conserve.{all_filed, all_filed-append, flush_all-Accounts}
use wazuh_ocsf_etl.Pipeline.Loop.{
  Service, Look, Event, line, closed, tick, shutdown, reload, push_row, bucket_len, pending,
  new_columns, register_columns, do_flush, accept, step, run,
}
use wazuh_ocsf_etl.Pipeline.Conserve.{do_flush-batches}

-- The specification: for each table the rows that were taken in for it, in order.
abbrev pub Queues : Type 0 → Type 0
Queues R = String → List R

abbrev pub enqueue : {R : Type 0} → String × R → Queues R → Queues R
enqueue (table, row) q t = if table == t then q t ++ row ∷ [] else q t

unfoldable pub replay : {R : Type 0} → List (String × R) → Queues R → Queues R
replay [] q = q
replay (taken ∷ rest) q = replay rest (enqueue taken q)

module _ {R : Type 0} where
  -- The rows for a table
  abbrev pub rows_in : List (String × List R) → Queues R
  rows_in [] t = []
  rows_in ((table, rows) ∷ b) t = (if table == t then rows else []) ++ rows_in b t

  abbrev pub keys : List (String × List R) → List String
  keys [] = []
  keys ((table, rows) ∷ b) = table ∷ keys b

  -- A map has one bucket for a table.
  abbrev pub IsMap : List (String × List R) → Type 0
  IsMap [] = Unit
  IsMap ((table, rows) ∷ b) = (contains (keys b) table ≡ false) × IsMap b

  pub append_assoc : (xs ys zs : List R) → (xs ++ ys) ++ zs ≡ xs ++ (ys ++ zs)
  append_assoc [] ys zs = refl
  append_assoc (x ∷ xs) ys zs = ap (λ l. x ∷ l) (append_assoc xs ys zs)

  pub append_nil : (xs : List R) → xs ++ [] ≡ xs
  append_nil [] = refl
  append_nil (x ∷ xs) = ap (λ l. x ∷ l) (append_nil xs)

  pub rows_in-append :
      (xs ys : List (String × List R)) (t : String)
      → rows_in (xs ++ ys) t ≡ rows_in xs t ++ rows_in ys t
  rows_in-append [] ys t = refl
  rows_in-append ((table, rows) ∷ xs) ys t =
      ap (λ l. (if table == t then rows else []) ++ l) (rows_in-append xs ys t)
      ∙ sym (append_assoc (if table == t then rows else []) (rows_in xs t) (rows_in ys t))

  pub rows_in-pending_work :
      (b : List (String × List R)) (t : String) → rows_in (pending_work b) t ≡ rows_in b t
  unfolding pending_work
  rows_in-pending_work [] t = refl
  rows_in-pending_work ((table, []) ∷ b) t =
      rows_in-pending_work b t ∙ ap (λ l. l ++ rows_in b t) (sym (no_rows (table == t)))
    where
      no_rows : (b : Bool) → ◌≡◌ {A = List R} (if b then [] else []) []
      no_rows true = refl
      no_rows false = refl
  rows_in-pending_work ((table, row ∷ rows) ∷ b) t =
      ap (λ l. (if table == t then row ∷ rows else []) ++ l) (rows_in-pending_work b t)

  rows_in_absent :
      (b : List (String × List R)) (t : String) → contains (keys b) t ≡ false → rows_in b t ≡ []
  unfolding contains
  rows_in_absent [] t h = refl
  rows_in_absent ((table, rows) ∷ b) t h =
      let other : (table == t) ≡ false = ground (arith, h, eq_iff table t, eq_iff t table) in
      rw other (rows_in_absent b t (ground (arith, h)))

  contains-keys_of_push_row :
      (table : String) (row : R) (b : List (String × List R)) (t : String)
      → contains (keys (push_row table row b)) t ≡ (t == table || contains (keys b) t)
  unfolding push_row contains
  contains-keys_of_push_row table row [] t = ground arith
  contains-keys_of_push_row table row ((u, rows) ∷ b) t = elim (Bool-cases (u == table)) [
    | inl same ↦ rw same (ground (arith, same, eq_iff u table, eq_iff t u, eq_iff t table))
    | inr other ↦ rw other (ground (arith, contains-keys_of_push_row table row b t))
  ]

  pub push_row-IsMap :
      (table : String) (row : R) (b : List (String × List R))
      → IsMap b
      → IsMap (push_row table row b)
  unfolding push_row
  push_row-IsMap table row [] h = (unfold contains in refl, tt)
  push_row-IsMap table row ((u, rows) ∷ b) (new, h) = elim (Bool-cases (u == table)) [
    | inl same ↦ rw same (new, h)
    | inr other ↦
        let kept =
          contains-keys_of_push_row table row b u ∙ ground (arith, new, other, eq_iff u table) in
        rw other (kept, push_row-IsMap table row b h)
  ]

  -- The bucket of the table itself
  rows_in_bucket :
      (table : String) (row : R) (rows : List R) (b : List (String × List R)) (t : String)
      → contains (keys b) table ≡ false
      → rows_in ((table, rows ++ row ∷ []) ∷ b) t
        ≡ enqueue (table, row) (rows_in ((table, rows) ∷ b)) t
  rows_in_bucket table row rows b t new = elim (Bool-cases (table == t)) [
    | inl here ↦
        let none_else : rows_in b t ≡ [] =
          rows_in_absent b t (ap (contains (keys b)) (sym ((eq_iff table t).0 here)) ∙ new) in
        rw (here, none_else)
          (append_nil (rows ++ row ∷ []) ∙ ap (λ l. l ++ row ∷ []) (sym (append_nil rows)))
    | inr away ↦ rw away refl
  ]

  pub rows_in_further :
      (table : String) (row : R) (xs ys : List R) (t : String)
      → xs ++ (if table == t then ys ++ row ∷ [] else ys)
        ≡ (if table == t then (xs ++ ys) ++ row ∷ [] else xs ++ ys)
  rows_in_further table row xs ys t = elim (Bool-cases (table == t)) [
    | inl here ↦ rw here (sym (append_assoc xs ys (row ∷ [])))
    | inr away ↦ rw away refl
  ]

  pub rows_in-push_row :
      (table : String) (row : R) (b : List (String × List R)) (t : String)
      → IsMap b
      → rows_in (push_row table row b) t ≡ enqueue (table, row) (rows_in b) t
  unfolding push_row
  rows_in-push_row table row [] t h = elim (Bool-cases (table == t)) [
    | inl here ↦ rw here refl
    | inr away ↦ rw away refl
  ]
  rows_in-push_row table row ((u, rows) ∷ b) t (new, h) = elim (Bool-cases (u == table)) [
    | inl same ↦
        let e = (eq_iff u table).0 same in
        rw same (
          subst
            (λ w.
              rows_in ((w, rows ++ row ∷ []) ∷ b) t
              ≡ enqueue (table, row) (rows_in ((w, rows) ∷ b)) t)
            (sym e) (rows_in_bucket table row rows b t (ap (contains (keys b)) (sym e) ∙ new)))
    | inr other ↦ rw other (
        ap (λ l. (if u == t then rows else []) ++ l) (rows_in-push_row table row b t h)
        ∙ rows_in_further table row (if u == t then rows else []) (rows_in b t) t)
  ]
