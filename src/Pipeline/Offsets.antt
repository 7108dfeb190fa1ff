-- ===== src/Pipeline/Offsets.antt =====
-- What a flush saves when the server refuses the rows.
use wazuh_ocsf_etl.Base.{
  ℕ, String, List, [], ◌∷◌, ◌++◌, true, false, Option, ◌≡◌, refl, contains, All, All-append,
  Bool-cases, ◌⊎◌, inl, inr, ap, if◌then◌else◌,
}
use wazuh_ocsf_etl.Db.Columns.{ClickHouse, ensure_table}
use wazuh_ocsf_etl.Db.Flush.{
  insert_failed, no_table, Entry, pending_work, insert_batch, insert_entry, flush_table, flush_work,
  flush_all, flushed,
}
use wazuh_ocsf_etl.Pipeline.Loop.{Service, Look, do_flush}

-- The server opens no insertion.
abbrev pub RefusesRows : {W R : Type 0} → ClickHouse W R → Type 0
RefusesRows {W} server = (table : String) (w : W) → (server.open_insert table w).0 ≡ false

-- The rows of an entry did not reach the server.
abbrev pub IsDropped : {R : Type 0} → Entry R → Type 0
IsDropped {R} e = (e.rows ≡ []) ⊎ ((e.outcome ≡ insert_failed) ⊎ (e.outcome ≡ no_table))

module _ {W R : Type 0} (server : ClickHouse W R) (refuses : RefusesRows server) where
  insert_batch_refused :
      (table : String) (row : R) (rows : List R) (w : W)
      → (insert_batch server table (row ∷ rows) w).0 ≡ false
  unfolding insert_batch
  insert_batch_refused table row rows w = rw (insert_batch, refuses table w) refl

  insert_entry-IsDropped :
      (table : String) (rows : List R) (known : List String) (w : W)
      → All IsDropped (insert_entry server table rows known w).log
  unfolding insert_entry
  insert_entry-IsDropped table [] known w = (inl refl, tt)
  insert_entry-IsDropped table (row ∷ rows) known w = (
    inr (
        inl (
          ap (λ done. if done then flushed else insert_failed)
            (insert_batch_refused table row rows w))),
    tt,
  )

  module _ (db : String) (ttl : Option ℕ) (cols : List String) where
    flush_table-IsDropped :
        (table : String) (rows : List R) (known : List String) (w : W)
        → All IsDropped (flush_table server db ttl cols table rows known w).log
    unfolding flush_table
    flush_table-IsDropped table rows known w = elim (Bool-cases (contains known table)) [
      | inl old ↦ rw old (insert_entry-IsDropped table rows known w)
      | inr new ↦ elim (Bool-cases (ensure_table server db table ttl w).0) [
        | inl made ↦ rw (new, made) (insert_entry-IsDropped table rows (table ∷ known) _)
        | inr failed ↦ rw (new, failed) (inr (inr refl), tt)
      ]
    ]

    flush_work-IsDropped :
        (work : List (String × List R)) (known : List String) (w : W)
        → All IsDropped (flush_work server db ttl cols work known w).log
    unfolding flush_work
    flush_work-IsDropped [] known w = tt
    flush_work-IsDropped ((table, rows) ∷ work) known w =
        let one = flush_table server db ttl cols table rows known w in
        All-append IsDropped one.log _ (flush_table-IsDropped table rows known w)
          (flush_work-IsDropped work one.known_tables one.world)

  -- A server that opens no insertion, and a state that can be saved: the flush still empties the
  -- batches, drops every row, and saves the offset behind the lines of those rows, so a restart does
  -- not read them again.
  pub refused_rows_are_lost :
      (db : String) (ttl : Option ℕ) (look : Look) (s : Service W R)
      → look.save_ok ≡ true
      → let s' = do_flush server db ttl look s in
        (s'.batches ≡ [])
        × (s'.saved.offset ≡ s.current_offset)
        × ((log : List (Entry R)) × (s'.log ≡ s.log ++ log) × All IsDropped log)
  unfolding do_flush flush_all
  refused_rows_are_lost db ttl look s ok = (
    refl,
    rw ok refl,
    (_, refl, flush_work-IsDropped db ttl _ (pending_work s.batches) s.known_tables _),
  )
