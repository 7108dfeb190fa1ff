-- ===== src/Db/Delivery.antt =====
-- src/output/db.rs: what reaches a server that does what it answers.
use wazuh_ocsf_etl.Base.{
  ℕ, String, List, [], ◌∷◌, ◌++◌, Bool, true, false, Option, contains, split_once, ◌≡◌, refl, sym,
  All, All-append, All-map, Bool-cases, inl, inr, ◌⊎◌, eq_iff, ◌==◌, if◌then◌else◌,
}
use mathlib.Core.Path.{subst}
use wazuh_ocsf_etl.Tailer.Lines.{append_assoc, append_nil}
use wazuh_ocsf_etl.Db.Columns.{
  ClickHouse, Statement, create_table, table_statements, split_or, execute_all, ensure_table,
}
use wazuh_ocsf_etl.Db.Flush.{
  flushed, insert_failed, Entry, Flush, write_rows, insert_batch, insert_entry, flush_table,
  flush_work,
}
use wazuh_ocsf_etl.Db.Keeps.{
  Keeps, execute_all_keeps, ensure_table_keeps, insert_entry_keeps, with_columns_keeps,
  flush_work_keeps,
}

-- What a server documents: a statement that succeeds has its effect, an insertion collects the rows that are
-- written to it and stores them for its table when its end succeeds, and nothing of this is lost again. `Open`
-- is the insertion under way, with the rows so far.
pub record IsHonest {W R : Type 0} (server : ClickHouse W R) (Has : W → Statement → Type 0)
    (Open Stored : W → String → List R → Type 0) : Type 0 where
  pub executed :
      (s : Statement) (w : W) → (server.execute s w).0 ≡ true → Has (server.execute s w).1 s
  pub opened :
      (table : String) (w : W)
      → (server.open_insert table w).0 ≡ true
      → Open (server.open_insert table w).1 table []
  pub written :
      (table : String) (rows : List R) (row : R) (w : W)
      → Open w table rows
      → (server.write table row w).0 ≡ true
      → Open (server.write table row w).1 table (rows ++ row ∷ [])
  pub ended :
      (table : String) (rows : List R) (w : W)
      → Open w table rows
      → (server.end_insert table w).0 ≡ true
      → Stored (server.end_insert table w).1 table rows
  pub has_kept : (s : Statement) → Keeps server (λ w. Has w s)
  pub stored_kept : (table : String) (rows : List R) → Keeps server (λ w. Stored w table rows)

module _ {W R : Type 0} (server : ClickHouse W R) (Has : W → Statement → Type 0)
    (Open Stored : W → String → List R → Type 0) (honest : IsHonest server Has Open Stored) where
  -- The table has been created.
  abbrev pub IsMade : String → Option ℕ → W → String → Type 0
  IsMade db ttl w table =
      let parts = split_or table (split_once b'.' table) db in
      Has w (create_table parts.0 parts.1 ttl)

  abbrev pub IsDelivered : W → Entry R → Type 0
  IsDelivered w e = e.outcome ≡ flushed → (e.rows ≡ []) ⊎ Stored w e.table e.rows

  write_rows-Stored :
      (table : String) (before rows : List R) (w : W)
      → Open w table before
      → (write_rows server table rows w).0 ≡ true
      → Stored (write_rows server table rows w).1 table (before ++ rows)
  unfolding write_rows
  write_rows-Stored table before [] w o h =
      subst (Stored _ table) (sym (append_nil before)) (honest.ended table before w o h)
  write_rows-Stored table before (row ∷ rows) w o h =
      elim (Bool-cases (server.write table row w).0) [
        | inl done ↦
            rw (write_rows, done)
              (subst (Stored (write_rows server table rows (server.write table row w).1).1 table)
                (append_assoc before (row ∷ []) rows)
                (write_rows-Stored table (before ++ row ∷ []) rows _
                  (honest.written table before row w o done) (simp (write_rows, done) at h)))
        | inr failed ↦ let e : false ≡ true = simp (write_rows, failed) at h in cc
      ]

  insert_batch-Stored :
      (table : String) (row : R) (rows : List R) (w : W)
      → (insert_batch server table (row ∷ rows) w).0 ≡ true
      → Stored (insert_batch server table (row ∷ rows) w).1 table (row ∷ rows)
  unfolding insert_batch
  insert_batch-Stored table row rows w h = elim (Bool-cases (server.open_insert table w).0) [
    | inl done ↦
        rw (insert_batch, done)
          (write_rows-Stored table [] (row ∷ rows) _ (honest.opened table w done)
            (simp (insert_batch, done) at h))
    | inr failed ↦ let e : false ≡ true = simp (insert_batch, failed) at h in cc
  ]

  execute_all-Has :
      (l : List Statement) (w : W)
      → (execute_all server l w).0 ≡ true
      → All (λ s. Has (execute_all server l w).1 s) l
  unfolding execute_all
  execute_all-Has [] w h = tt
  execute_all-Has (s ∷ rest) w h = elim (Bool-cases (server.execute s w).0) [
    | inl done ↦
        let e : execute_all server (s ∷ rest) w ≡ execute_all server rest (server.execute s w).1 =
          rw (execute_all, done) refl in
        subst (λ (r : Bool × W). All (λ t. Has r.1 t) (s ∷ rest)) (sym e)
          (
            execute_all_keeps server (λ v. Has v s) (honest.has_kept s) rest _
                (honest.executed s w done),
            execute_all-Has rest _ (simp (execute_all, done) at h),
          )
    | inr failed ↦ let e : false ≡ true = simp (execute_all, failed) at h in cc
  ]

  -- A table that was made
  ensure_table-IsMade :
      (db table : String) (ttl : Option ℕ) (w : W)
      → (ensure_table server db table ttl w).0 ≡ true
      → IsMade db ttl (ensure_table server db table ttl w).1 table
  unfolding ensure_table
  ensure_table-IsMade db table ttl w h =
      (execute_all-Has (table_statements db ttl (split_or table (split_once b'.' table) db)) w
        h).1.0

  -- A flush so far: what its log calls flushed is stored, and the known tables have been made.
  pub record Delivers (db : String) (ttl : Option ℕ) (f : Flush W R) : Type 0 where
    pub delivered : All (IsDelivered f.world) f.log
    pub made : (t : String) → contains f.known_tables t ≡ true → IsMade db ttl f.world t

  flushed_if : (done : Bool) → (if done then flushed else insert_failed) ≡ flushed → done ≡ true
  flushed_if true h = refl
  flushed_if false h = cc

  insert_entry-IsDelivered :
      (table : String) (rows : List R) (known : List String) (w : W)
      → let f = insert_entry server table rows known w in All (IsDelivered f.world) f.log
  unfolding insert_entry
  insert_entry-IsDelivered table [] known w = ((λ e. inl refl), tt)
  insert_entry-IsDelivered table (row ∷ rows) known w =
      ((λ e. inr (insert_batch-Stored table row rows w (flushed_if _ e))), tt)

  pub IsDelivered-kept : (e : Entry R) → Keeps server (λ w. IsDelivered w e)
  IsDelivered-kept e =
      let k = honest.stored_kept e.table e.rows in
      record {
        by_execute = λ s w h d. elim (h d) [
          | inl none_there ↦ inl none_there
          | inr t ↦ inr (k.by_execute s w t)
        ];
        by_open = λ table w h d. elim (h d) [
          | inl none_there ↦ inl none_there
          | inr t ↦ inr (k.by_open table w t)
        ];
        by_write = λ table row w h d. elim (h d) [
          | inl none_there ↦ inl none_there
          | inr t ↦ inr (k.by_write table row w t)
        ];
        by_end = λ table w h d. elim (h d) [
          | inl none_there ↦ inl none_there
          | inr t ↦ inr (k.by_end table w t)
        ];
      }

  module _ (db : String) (ttl : Option ℕ) where
    pub IsMade-kept : (t : String) → Keeps server (λ w. IsMade db ttl w t)
    IsMade-kept t = honest.has_kept _

    IsMade-or_known :
        (table : String) (known : List String) (w : W) (t : String)
        → ((s : String) → contains known s ≡ true → IsMade db ttl w s)
        → IsMade db ttl w table
        → contains (table ∷ known) t ≡ true
        → IsMade db ttl w t
    unfolding contains
    IsMade-or_known table known w t made here h = elim (Bool-cases (t == table)) [
      | inl same ↦ subst (IsMade db ttl w) (sym ((eq_iff t table).0 same)) here
      | inr other ↦ made t (simp other at h)
    ]

    module _ (cols : List String) where
      entry-Delivers :
          (table : String) (rows : List R) (known : List String) (w : W)
          → ((t : String) → contains known t ≡ true → IsMade db ttl w t)
          → Delivers db ttl (insert_entry server table rows known w)
      unfolding insert_entry
      entry-Delivers table rows known w made = record {
        delivered = insert_entry-IsDelivered table rows known w;
        made = λ t h. insert_entry_keeps server _ (IsMade-kept t) table rows known w (made t h);
      }

      flush_table-Delivers :
          (table : String) (rows : List R) (known : List String) (w : W)
          → ((t : String) → contains known t ≡ true → IsMade db ttl w t)
          → Delivers db ttl (flush_table server db ttl cols table rows known w)
      unfolding flush_table
      flush_table-Delivers table rows known w made = elim (Bool-cases (contains known table)) [
        | inl old ↦ rw old (entry-Delivers table rows known w made)
        | inr new ↦ elim (Bool-cases (ensure_table server db table ttl w).0) [
          | inl done ↦
              rw (new, done)
                (entry-Delivers table rows (table ∷ known) _ (λ t h.
                  with_columns_keeps server _ (IsMade-kept t) table cols _ (
                    IsMade-or_known table known _ t
                      (λ s k. ensure_table_keeps server _ (IsMade-kept s) db table ttl w (made s k))
                      (ensure_table-IsMade db table ttl w done) h)))
          | inr failed ↦
              rw (new, failed)
                (record {
                  delivered = ((λ e. cc), tt);
                  made =
                      λ t h. ensure_table_keeps server _ (IsMade-kept t) db table ttl w (made t h);
                })
        ]
      ]

      pub flush_work-Delivers :
          (work : List (String × List R)) (known : List String) (w : W)
          → ((t : String) → contains known t ≡ true → IsMade db ttl w t)
          → Delivers db ttl (flush_work server db ttl cols work known w)
      unfolding flush_work
      flush_work-Delivers [] known w made = record { delivered = tt; made = made }
      flush_work-Delivers ((table, rows) ∷ work) known w made =
          let one = flush_table server db ttl cols table rows known w in
          let d = flush_table-Delivers table rows known w made in
          let rest = flush_work-Delivers work one.known_tables one.world d.made in
          record {
            delivered =
                All-append _ one.log _
                  (All-map _ _
                    (λ e.
                      flush_work_keeps server (λ v. IsDelivered v e) (IsDelivered-kept e) db ttl
                        cols work one.known_tables one.world)
                    one.log d.delivered)
                  rest.delivered;
            made = rest.made;
          }
