-- ===== src/Db/Keeps.antt =====
-- src/output/db.rs: what all calls of the server keep, the functions over it keep.
use wazuh_ocsf_etl.Base.{
  ℕ, String, List, [], ◌∷◌, Option, none, some, if-both, contains, is_nil, is_empty, split_once,
  Bool-cases, inl, inr,
}
use wazuh_ocsf_etl.Db.Columns.{
  ClickHouse, Statement, safe_column, table_statements, split_or, execute_all, ensure_table,
  add_columns, add_columns_to, ensure_custom_columns,
}
use wazuh_ocsf_etl.Db.Flush.{
  write_rows, insert_batch, insert_entry, with_columns, flush_table, flush_work,
}

-- A property of the state outside that no call of the server takes away, whether it succeeds or not
pub record Keeps {W R : Type 0} (server : ClickHouse W R) (P : W → Type 0) : Type 0 where
  pub by_execute : (s : Statement) (w : W) → P w → P (server.execute s w).1
  pub by_open : (table : String) (w : W) → P w → P (server.open_insert table w).1
  pub by_write : (table : String) (row : R) (w : W) → P w → P (server.write table row w).1
  pub by_end : (table : String) (w : W) → P w → P (server.end_insert table w).1

module _ {W R : Type 0} (server : ClickHouse W R) (P : W → Type 0) (k : Keeps server P) where
  pub execute_all_keeps : (l : List Statement) (w : W) → P w → P (execute_all server l w).1
  unfolding execute_all
  execute_all_keeps [] w h = h
  execute_all_keeps (s ∷ rest) w h = elim (Bool-cases (server.execute s w).0) [
    | inl done ↦ rw (execute_all, done) (execute_all_keeps rest _ (k.by_execute s w h))
    | inr failed ↦ rw (execute_all, failed) (k.by_execute s w h)
  ]

  pub ensure_table_keeps :
      (db table : String) (ttl : Option ℕ) (w : W) → P w → P (ensure_table server db table ttl w).1
  unfolding ensure_table
  ensure_table_keeps db table ttl w h =
      execute_all_keeps (table_statements db ttl (split_or table (split_once b'.' table) db)) w h

  pub add_columns_keeps :
      (db tbl : String) (cols : List String) (w : W) → P w → P (add_columns server db tbl cols w).1
  unfolding add_columns
  add_columns_keeps db tbl [] w h = h
  add_columns_keeps db tbl (col ∷ cols) w h = elim (Bool-cases (is_empty (safe_column col))) [
    | inl empty ↦ rw empty (add_columns_keeps db tbl cols w h)
    | inr named ↦ rw named (add_columns_keeps db tbl cols _ (k.by_execute _ w h))
  ]

  add_columns_to_keeps :
      (o : Option (String × String)) (cols : List String) (w : W)
      → P w
      → P (add_columns_to server o cols w).1
  add_columns_to_keeps none cols w h = h
  add_columns_to_keeps (some (db, tbl)) cols w h = add_columns_keeps db tbl cols w h

  pub ensure_custom_columns_keeps :
      (table : String) (cols : List String) (w : W)
      → P w
      → P (ensure_custom_columns server table cols w).1
  unfolding ensure_custom_columns
  ensure_custom_columns_keeps table cols w h = elim (Bool-cases (is_nil cols)) [
    | inl empty ↦ rw empty h
    | inr some_cols ↦ rw some_cols (add_columns_to_keeps (split_once b'.' table) cols w h)
  ]

  write_rows_keeps :
      (table : String) (rows : List R) (w : W) → P w → P (write_rows server table rows w).1
  unfolding write_rows
  write_rows_keeps table [] w h = k.by_end table w h
  write_rows_keeps table (row ∷ rows) w h = elim (Bool-cases (server.write table row w).0) [
    | inl done ↦ rw (write_rows, done) (write_rows_keeps table rows _ (k.by_write table row w h))
    | inr failed ↦ rw (write_rows, failed) (k.by_write table row w h)
  ]

  insert_batch_keeps :
      (table : String) (rows : List R) (w : W) → P w → P (insert_batch server table rows w).1
  unfolding insert_batch
  insert_batch_keeps table [] w h = h
  insert_batch_keeps table (row ∷ rows) w h = elim (Bool-cases (server.open_insert table w).0) [
    | inl done ↦
        rw (insert_batch, done) (write_rows_keeps table (row ∷ rows) _ (k.by_open table w h))
    | inr failed ↦ rw (insert_batch, failed) (k.by_open table w h)
  ]

  pub insert_entry_keeps :
      (table : String) (rows : List R) (known : List String) (w : W)
      → P w
      → P (insert_entry server table rows known w).world
  unfolding insert_entry
  insert_entry_keeps table rows known w h = insert_batch_keeps table rows w h

  pub with_columns_keeps :
      (table : String) (cols : List String) (w : W) → P w → P (with_columns server table cols w)
  with_columns_keeps table cols w h =
      if-both P (is_nil cols) h (ensure_custom_columns_keeps table cols w h)

  module _ (db : String) (ttl : Option ℕ) (cols : List String) where
    pub flush_table_keeps :
        (table : String) (rows : List R) (known : List String) (w : W)
        → P w
        → P (flush_table server db ttl cols table rows known w).world
    unfolding flush_table
    flush_table_keeps table rows known w h = elim (Bool-cases (contains known table)) [
      | inl old ↦ rw old (insert_entry_keeps table rows known w h)
      | inr new ↦ elim (Bool-cases (ensure_table server db table ttl w).0) [
        | inl made ↦
            rw (new, made)
              (insert_entry_keeps table rows (table ∷ known) _
                (with_columns_keeps table cols _ (ensure_table_keeps db table ttl w h)))
        | inr failed ↦ rw (new, failed) (ensure_table_keeps db table ttl w h)
      ]
    ]

    pub flush_work_keeps :
        (work : List (String × List R)) (known : List String) (w : W)
        → P w
        → P (flush_work server db ttl cols work known w).world
    unfolding flush_work
    flush_work_keeps [] known w h = h
    flush_work_keeps ((table, rows) ∷ work) known w h =
        flush_work_keeps work _ _ (flush_table_keeps table rows known w h)
