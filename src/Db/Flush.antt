-- ===== src/Db/Flush.antt =====
-- src/output/db.rs: `insert_batch` and `flush_all`.
use wazuh_ocsf_etl.Base.{
  ℕ, String, List, [], ◌∷◌, ◌++◌, Bool, true, false, Option, if◌then◌else◌, contains, is_nil,
}
use wazuh_ocsf_etl.Db.Columns.{ClickHouse, ensure_table, ensure_custom_columns}

-- A `HashMap` from tables to rows, as the list of its entries in the order of an iteration.
abbrev pub BatchMap : Type 0 → Type 0
BatchMap R = List (String × List R)

-- What the log says of the rows of one table.
pub data Outcome : Type 0 where
  flushed insert_failed no_table : Outcome

pub record Entry (R : Type 0) : Type 0 where
  pub table : String
  pub rows : List R
  pub outcome : Outcome

-- What a flush leaves: the known tables, the state outside, and the log.
pub record Flush (W R : Type 0) : Type 0 where
  pub known_tables : List String
  pub world : W
  pub log : List (Entry R)

-- The entries with rows; `std::mem::take` and `retain` leave no entry behind.
unfoldable pub pending_work {ℓ} : {R : Type ℓ} → List (String × List R) → List (String × List R)
pending_work [] = []
pending_work ((table, rows) ∷ batches) =
    let rest = pending_work batches in if is_nil rows then rest else (table, rows) ∷ rest

module _ {W R : Type 0} (server : ClickHouse W R) where
  unfoldable pub write_rows : String → List R → W → Bool × W
  write_rows table [] w = server.end_insert table w
  write_rows table (row ∷ rows) w =
      let (done, w') = server.write table row w in
      elim done [ true ↦ write_rows table rows w' | false ↦ (false, w') ]

  unfoldable pub insert_batch : String → List R → W → Bool × W
  unfolding write_rows
  insert_batch table [] w = (true, w)
  insert_batch table (row ∷ rows) w =
      let (done, w') = server.open_insert table w in
      elim done [ true ↦ write_rows table (row ∷ rows) w' | false ↦ (false, w') ]

  -- The end of one round: the insertion and its line of the log.
  unfoldable pub insert_entry : String → List R → List String → W → Flush W R
  insert_entry table rows known w =
      let (done, w') = insert_batch table rows w in
      record {
        known_tables = known;
        world = w';
        log =
            record { table = table; rows = rows; outcome = if done then flushed else insert_failed }
            ∷ [];
      }

  -- A table that was just made gets the custom columns; the results are not read.
  abbrev pub with_columns : String → List String → W → W
  with_columns table custom_cols w =
      let w' = (ensure_custom_columns server table custom_cols w).1 in
      if is_nil custom_cols then w else w'

  -- One round of the loop: a table that is not known is made first, and skipped if that fails.
  unfoldable pub flush_table :
      String → Option ℕ → List String → String → List R → List String → W → Flush W R
  flush_table db ttl_days custom_cols table rows known w =
      let ready = insert_entry table rows known w in
      let (made, w') = ensure_table server db table ttl_days w in
      let fresh = insert_entry table rows (table ∷ known) (with_columns table custom_cols w') in
      let skipped : Flush W R = record {
        known_tables = known;
        world = w';
        log = record { table = table; rows = rows; outcome = no_table } ∷ [];
      } in
      if contains known table then ready else if made then fresh else skipped

  unfoldable pub flush_work :
      String → Option ℕ → List String → List (String × List R) → List String → W → Flush W R
  flush_work db ttl_days custom_cols [] known w = record {
    known_tables = known;
    world = w;
    log = [];
  }
  flush_work db ttl_days custom_cols ((table, rows) ∷ work) known w =
      let one = flush_table db ttl_days custom_cols table rows known w in
      let rest = flush_work db ttl_days custom_cols work one.known_tables one.world in
      record rest { log = one.log ++ rest.log }

  -- `flush_all`; the batches that it leaves are none.
  unfoldable pub flush_all :
      String → Option ℕ → BatchMap R → List String → List String → W → BatchMap R × Flush W R
  unfolding flush_work pending_work
  flush_all db ttl_days batches known custom_cols w =
      ([], flush_work db ttl_days custom_cols (pending_work batches) known w)
