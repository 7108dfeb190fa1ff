-- ===== src/Db/Success.antt =====
-- src/output/db.rs: a whole flush, and a flush to which every call of the server succeeds.
use wazuh_ocsf_etl.Base.{
  ℕ, String, List, [], ◌∷◌, true, Option, contains, ◌≡◌, refl, ap, All, All-append, Bool-cases, inl,
  inr, if◌then◌else◌, split_once,
}
use wazuh_ocsf_etl.Db.Columns.{
  ClickHouse, Statement, table_statements, split_or, execute_all, ensure_table,
}
use wazuh_ocsf_etl.Db.Flush.{
  BatchMap, flushed, insert_failed, Entry, write_rows, insert_batch, insert_entry, flush_table,
  flush_work, pending_work, flush_all,
}
use wazuh_ocsf_etl.Db.Conserve.{all_filed, flush_all-Accounts}
use wazuh_ocsf_etl.Db.Delivery.{IsHonest, IsMade, Delivers, flush_work-Delivers}

-- Every call succeeds.
pub record IsUp {W R : Type 0} (server : ClickHouse W R) : Type 0 where
  pub executes : (s : Statement) (w : W) → (server.execute s w).0 ≡ true
  pub opens : (table : String) (w : W) → (server.open_insert table w).0 ≡ true
  pub writes : (table : String) (row : R) (w : W) → (server.write table row w).0 ≡ true
  pub ends : (table : String) (w : W) → (server.end_insert table w).0 ≡ true

abbrev pub IsFlushed : {R : Type 0} → Entry R → Type 0
IsFlushed e = e.outcome ≡ flushed

module _ {W R : Type 0} (server : ClickHouse W R) (up : IsUp server) where
  execute_all_up : (l : List Statement) (w : W) → (execute_all server l w).0 ≡ true
  unfolding execute_all
  execute_all_up [] w = refl
  execute_all_up (s ∷ rest) w = rw (execute_all, up.executes s w) (execute_all_up rest _)

  write_rows_up :
      (table : String) (rows : List R) (w : W) → (write_rows server table rows w).0 ≡ true
  unfolding write_rows
  write_rows_up table [] w = up.ends table w
  write_rows_up table (row ∷ rows) w =
      rw (write_rows, up.writes table row w) (write_rows_up table rows _)

  insert_batch_up :
      (table : String) (rows : List R) (w : W) → (insert_batch server table rows w).0 ≡ true
  unfolding insert_batch
  insert_batch_up table [] w = refl
  insert_batch_up table (row ∷ rows) w =
      rw (insert_batch, up.opens table w) (write_rows_up table (row ∷ rows) _)

  entry_up :
      (table : String) (rows : List R) (known : List String) (w : W)
      → All IsFlushed (insert_entry server table rows known w).log
  unfolding insert_entry
  entry_up table rows known w =
      (ap (λ done. if done then flushed else insert_failed) (insert_batch_up table rows w), tt)

  module _ (db : String) (ttl : Option ℕ) (cols : List String) where
    table_up :
        (table : String) (rows : List R) (known : List String) (w : W)
        → All IsFlushed (flush_table server db ttl cols table rows known w).log
    unfolding flush_table ensure_table
    table_up table rows known w = elim (Bool-cases (contains known table)) [
      | inl old ↦ rw old (entry_up table rows known w)
      | inr new ↦
          rw
            (
              new,
              execute_all_up (table_statements db ttl (split_or table (split_once b'.' table) db))
                  w,
            )
            (entry_up table rows (table ∷ known) _)
    ]

    pub work_up :
        (work : List (String × List R)) (known : List String) (w : W)
        → All IsFlushed (flush_work server db ttl cols work known w).log
    unfolding flush_work
    work_up [] known w = tt
    work_up ((table, rows) ∷ work) known w =
        let one = flush_table server db ttl cols table rows known w in
        All-append _ one.log _ (table_up table rows known w)
          (work_up work one.known_tables one.world)

module _ {W R : Type 0} (server : ClickHouse W R) (Has : W → Statement → Type 0)
    (Open Stored : W → String → List R → Type 0) where
  -- Of a server that does what it documents: a flush over tables that have been made leaves one entry of the
  -- log for each batch with rows; what the log calls flushed is stored, all rows of the entry in one insertion
  -- into its table; every table that is known has been made. If every call succeeds, every entry is flushed.
  pub flush_all-Delivers :
      (db : String) (ttl : Option ℕ) (cols : List String) (batches : BatchMap R)
      (known : List String) (w : W) (honest : IsHonest server Has Open Stored)
      → ((t : String) → contains known t ≡ true → IsMade server Has Open Stored honest db ttl w t)
      → let f = (flush_all server db ttl batches known cols w).1 in
        Delivers server Has Open Stored honest db ttl f
        × (all_filed f.log ≡ pending_work batches)
        × (IsUp server → All IsFlushed f.log)
  unfolding flush_all
  flush_all-Delivers db ttl cols batches known w honest made = (
    flush_work-Delivers server Has Open Stored honest db ttl cols (pending_work batches) known w
        made,
    (flush_all-Accounts server db ttl cols batches known w).1.once,
    (λ up. work_up server up db ttl cols (pending_work batches) known w),
  )
