-- ===== src/Db/Conserve.antt =====
-- What a flush does with the rows, and which tables and columns it takes for made.
use Prim.Native.String.{[], ◌∷◌}
use wazuh_ocsf_etl.Base.{
  ℕ, String, List, [], ◌∷◌, ◌++◌, true, Option, ◌≡◌, refl, ◌∙◌, ◌⊎◌, inl, inr, contains,
  contains_more, contains_head, All-append, Bool-cases, All,
}
use wazuh_ocsf_etl.Db.Columns.{ClickHouse, ensure_table}
use wazuh_ocsf_etl.Db.Flush.{
  BatchMap, no_table, Entry, Flush, pending_work, insert_entry, flush_table, flush_work, flush_all,
}

abbrev pub all_filed : {R : Type 0} → List (Entry R) → List (String × List R)
all_filed [] = []
all_filed (e ∷ log) = (e.table, e.rows) ∷ all_filed log

-- A table is known if its rows were sent to the server.
abbrev pub SentToKnown : {R : Type 0} → List String → Entry R → Type 0
SentToKnown known e = (e.outcome ≡ no_table) ⊎ (contains known e.table ≡ true)

module _ {W R : Type 0} (server : ClickHouse W R) (db : String) (ttl : Option ℕ)
    (cols : List String) where
  -- One table: its rows are filed once, the known tables grow, and rows are sent to known tables only.
  record Round (table : String) (rows : List R) (known : List String) (f : Flush W R) : Type 0 where
    once : all_filed f.log ≡ (table, rows) ∷ []
    grown : (t : String) → contains known t ≡ true → contains f.known_tables t ≡ true
    sent : All (SentToKnown f.known_tables) f.log

  insert_entry-Round :
      (table : String) (rows : List R) (known before : List String) (w : W)
      → ((t : String) → contains before t ≡ true → contains known t ≡ true)
      → contains known table ≡ true
      → Round table rows before (insert_entry server table rows known w)
  unfolding insert_entry
  insert_entry-Round table rows known before w more h = record {
    once = refl;
    grown = more;
    sent = (inr h, tt);
  }

  flush_table-Round :
      (table : String) (rows : List R) (known : List String) (w : W)
      → Round table rows known (flush_table server db ttl cols table rows known w)
  unfolding flush_table
  flush_table-Round table rows known w = elim (Bool-cases (contains known table)) [
    | inl old ↦ rw old (insert_entry-Round table rows known known w (λ t h. h) old)
    | inr new ↦ elim (Bool-cases (ensure_table server db table ttl w).0) [
      | inl made ↦
          rw (new, made)
            (insert_entry-Round table rows (table ∷ known) known _ (contains_more table known)
              (contains_head table known))
      | inr failed ↦
          rw (new, failed) (record { once = refl; grown = λ t h. h; sent = (inl refl, tt) })
    ]
  ]

-- The same of a whole flush.
pub record Accounts {W R : Type 0} (work : List (String × List R)) (known : List String)
    (f : Flush W R) : Type 0 where
  pub once : all_filed f.log ≡ work
  pub grown : (t : String) → contains known t ≡ true → contains f.known_tables t ≡ true
  pub sent : All (SentToKnown f.known_tables) f.log

SentToKnown-grown :
    {R : Type 0} (a b : List String) (log : List (Entry R))
    → ((t : String) → contains a t ≡ true → contains b t ≡ true)
    → All (SentToKnown a) log
    → All (SentToKnown b) log
SentToKnown-grown a b [] more h = tt
SentToKnown-grown a b (e ∷ log) more (inl n, h) = (inl n, SentToKnown-grown a b log more h)
SentToKnown-grown a b (e ∷ log) more (inr k, h) =
    (inr (more e.table k), SentToKnown-grown a b log more h)

pub all_filed-append :
    {R : Type 0} (xs ys : List (Entry R)) → all_filed (xs ++ ys) ≡ all_filed xs ++ all_filed ys
all_filed-append [] ys = refl
all_filed-append (x ∷ xs) ys = rw (all_filed-append xs ys)

module _ {W R : Type 0} (server : ClickHouse W R) (db : String) (ttl : Option ℕ)
    (cols : List String) where
  flush_work-Accounts :
      (work : List (String × List R)) (known : List String) (w : W)
      → Accounts work known (flush_work server db ttl cols work known w)
  unfolding flush_work
  flush_work-Accounts [] known w = record { once = refl; grown = λ t h. h; sent = tt }
  flush_work-Accounts ((table, rows) ∷ work) known w =
      let one = flush_table server db ttl cols table rows known w in
      let r = flush_table-Round server db ttl cols table rows known w in
      let k = flush_work-Accounts work one.known_tables one.world in
      record {
        once = all_filed-append one.log _ ∙ rw (r.once, k.once);
        grown = λ t h. k.grown t (r.grown t h);
        sent = All-append _ one.log _ (SentToKnown-grown _ _ one.log k.grown r.sent) k.sent;
      }

  -- A flush empties the batches, and its log accounts for every pending row exactly once, under its own
  -- table and in order: inserted, refused by the insertion, or dropped because the table could not be
  -- made. The known tables only grow, and rows are sent to known tables only. This holds whatever the
  -- server answers.
  pub flush_all-Accounts :
      (batches : BatchMap R) (known : List String) (w : W)
      → ((flush_all server db ttl batches known cols w).0 ≡ [])
        × Accounts (pending_work batches) known (flush_all server db ttl batches known cols w).1
  unfolding flush_all
  flush_all-Accounts batches known w = (refl, flush_work-Accounts (pending_work batches) known w)
