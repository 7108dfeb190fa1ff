-- ===== src/Pipeline/Conserve.antt =====
-- src/main.rs: where the rows are that the loop takes in.
use wazuh_ocsf_etl.Base.{
  count, count-append, ℕ, ◌+◌, String, List, [], ◌∷◌, ◌++◌, Bool, Option, none, some, ◌≡◌, refl,
  ◌∙◌, if◌then◌else◌, leb, ltb, arith, Bool-cases, inl, inr,
}
use wazuh_ocsf_etl.Config.{CustomMappings}
use wazuh_ocsf_etl.Db.Columns.{ClickHouse}
use wazuh_ocsf_etl.Db.Flush.{pending_work, flush_all}
use wazuh_ocsf_etl.Db.Conserve.{all_filed, all_filed-append, flush_all-Accounts}
use wazuh_ocsf_etl.Pipeline.Loop.{
  Service, Look, Event, line, closed, tick, shutdown, reload, push_row, bucket_len, pending,
  do_flush, accept, step, run, register_columns, new_columns,
}

-- How many rows of the batches pass a test
abbrev pub count_rows {ℓ} : {R : Type ℓ} → (R → Bool) → List (String × List R) → ℕ
count_rows p [] = 0
count_rows p ((t, rows) ∷ batches) = count p rows + count_rows p batches

module _ {ℓ} {R : Type ℓ} (p : R → Bool) where
  pub count_rows-append :
      (xs ys : List (String × List R)) → count_rows p (xs ++ ys) ≡ count_rows p xs + count_rows p ys
  count_rows-append [] ys = omega arith
  count_rows-append ((t, rows) ∷ xs) ys = omega (arith, count_rows-append xs ys)

  count_rows-push_row :
      (table : String) (row : R) (b : List (String × List R))
      → count_rows p (push_row table row b) ≡ count p (row ∷ []) + count_rows p b
  unfolding push_row
  count_rows-push_row table row [] = omega arith
  count_rows-push_row table row ((t, rows) ∷ b) =
      ground (arith, count-append p rows (row ∷ []), count_rows-push_row table row b)

  count_rows-pending_work :
      (b : List (String × List R)) → count_rows p (pending_work b) ≡ count_rows p b
  unfolding pending_work
  count_rows-pending_work [] = refl
  count_rows-pending_work ((t, []) ∷ b) = omega (arith, count_rows-pending_work b)
  count_rows-pending_work ((t, r ∷ rows) ∷ b) = omega (arith, count_rows-pending_work b)

-- Rows in the batches and rows that a flush has dealt with
abbrev pub held : {W R : Type 0} → (R → Bool) → Service W R → ℕ
held p s = count_rows p s.batches + count_rows p (all_filed s.log)

module _ {W R : Type 0} (server : ClickHouse W R) (db : String) (ttl : Option ℕ) where
  pub do_flush-batches :
      (look : Look) (s : Service W R) → (do_flush server db ttl look s).batches ≡ []
  unfolding do_flush flush_all
  do_flush-batches look s = refl

module _ {W R : Type 0} (server : ClickHouse W R) (db : String) (ttl : Option ℕ)
    (p : R → Bool) where
  do_flush-held :
      (look : Look) (s : Service W R) → held p (do_flush server db ttl look s) ≡ held p s
  unfolding do_flush
  do_flush-held look s =
      let reg =
        register_columns server (new_columns s.mappings s.known_custom_cols) s.known_custom_cols
          s.known_tables s.world in
      let (emptied, acc) = flush_all-Accounts server db ttl reg.0 s.batches s.known_tables reg.1 in
      rw (emptied, all_filed-append, count_rows-append, acc.once, count_rows-pending_work)
        (omega arith)

abbrev row_of {ℓ} : {R : Type ℓ} → Option (String × R) → List R
row_of none = []
row_of (some (table, row)) = row ∷ []

module _ {W R : Type 0} (transform : CustomMappings → String → Option (String × R)) where
  -- The rows that `transform` gives for an event, with the mappings of the moment
  abbrev pub produced : Event → Service W R → List R
  produced (line offset raw look) s = row_of (transform s.mappings raw)
  produced _ s = []

module _ {W R : Type 0} (server : ClickHouse W R) (db : String) (ttl : Option ℕ)
    (transform : CustomMappings → String → Option (String × R)) (batch_size : ℕ) where
  -- The rows of a whole run
  unfoldable pub produced_by : List Event → Service W R → List R
  produced_by [] s = []
  produced_by (e ∷ events) s =
      let rest = produced_by events (step server db ttl transform batch_size e s) in
      if s.running then produced transform e s ++ rest else []

  module _ (p : R → Bool) where
    accept-held :
        (look : Look) (o : Option (String × R)) (s : Service W R)
        → held p (accept server db ttl transform batch_size look o s)
          ≡ count p (row_of o) + held p s
    unfolding accept
    accept-held look none s = omega arith
    accept-held look (some (table, row)) s =
        let s' : Service W R = record s { batches = push_row table row s.batches } in
        let pushed = count_rows-push_row p table row s.batches in
        elim (Bool-cases (leb batch_size (bucket_len table s'.batches))) [
          | inl full ↦ rw full (do_flush-held server db ttl p look s' ∙ omega (arith, pushed))
          | inr room ↦ rw room (omega (arith, pushed))
        ]

    step-held :
        (e : Event) (s : Service W R)
        → held p (step server db ttl transform batch_size e s)
          ≡ count p (produced transform e s) + held p s
    unfolding step
    step-held (line offset raw look) s = accept-held look (transform s.mappings raw) _
    step-held (closed look) s = do_flush-held server db ttl p look s ∙ omega arith
    step-held (tick look) s = elim (Bool-cases (ltb 0 (pending s.batches))) [
      | inl some_rows ↦ rw some_rows (do_flush-held server db ttl p look s ∙ omega arith)
      | inr no_rows ↦ rw no_rows (omega arith)
    ]
    step-held shutdown s = omega arith
    step-held (reload m) s = omega arith

    -- Whatever happens, and whatever the server answers: the rows in the batches and in the log at the
    -- end are those at the beginning and those that `transform` gave, each counted once, for every way
    -- of choosing rows.
    pub run-held :
        (events : List Event) (s : Service W R)
        → held p (run server db ttl transform batch_size events s)
          ≡ count p (produced_by events s) + held p s
    unfolding run produced_by
    run-held [] s = omega arith
    run-held (e ∷ events) s = elim (Bool-cases s.running) [
      | inl on ↦ simp on (
          run-held events (step server db ttl transform batch_size e s)
          ∙ omega (
            arith,
            step-held e s,
            count-append p (produced transform e s)
                (produced_by events (step server db ttl transform batch_size e s)),
          ))
      | inr off ↦ simp off (omega arith)
    ]
