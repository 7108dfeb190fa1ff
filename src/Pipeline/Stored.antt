-- ===== src/Pipeline/Stored.antt =====
-- src/main.rs: the loop with the `transform` of the program, from the lines to the rows in the log.
use mathlib.Core.Path.{subst}
use mathlib.Core.Option.{some-injective}
use wazuh_ocsf_etl.Base.{
  ℕ, String, List, [], ◌∷◌, Bool, not, Option, none, some, ◌≡◌, ◌≢◌, refl, sym, ◌==◌, eq_iff, eqb,
  code, AllChars, if◌then◌else◌, if-both, leb, ltb, All, All-append, Bool-cases, inl, inr,
}
use Prim.Native.String
use wazuh_ocsf_etl.Config.{CustomMappings}
use wazuh_ocsf_etl.Record.{OcsfRecord}
use wazuh_ocsf_etl.Routing.Laws.{IsTableName}
use wazuh_ocsf_etl.Validator.Laws.{IsCompliant}
use wazuh_ocsf_etl.Db.Columns.{ClickHouse}
use wazuh_ocsf_etl.Db.Flush.{pending_work}
use wazuh_ocsf_etl.Db.Conserve.{all_filed, all_filed-append, flush_all-Accounts}
use wazuh_ocsf_etl.Transform.Input.{Outside}
use wazuh_ocsf_etl.Transform.Convert.{Globals, transform}
use wazuh_ocsf_etl.Transform.Guarantees.{IsFiled, transform-IsFiled}
use wazuh_ocsf_etl.Pipeline.Loop.{
  Service, Look, Event, line, closed, tick, shutdown, reload, push_row, bucket_len, pending,
  new_columns, register_columns, do_flush, accept, step, run,
}

-- `if !cfg.store_raw_data { rec.raw_data = String::new(); }`
abbrev pub stored :
    {F32 : Type 0} → Bool → Option (String × OcsfRecord F32) → Option (String × OcsfRecord F32)
stored store_raw none = none
stored store_raw (some (table, rec)) =
    some (table, record rec { raw_data = if store_raw then rec.raw_data else "" })

-- What the loop takes in of a line; `transform` reads nothing of the globals for it.
unfoldable pub line_to_row :
    {F32 : Type 0}
    → Outside F32
    → String
    → List String
    → Bool
    → Globals
    → CustomMappings
    → String
    → Option (String × OcsfRecord F32)
line_to_row o db special_locs store_raw g custom raw =
    stored store_raw (transform o db special_locs custom raw g).0

-- Rows that all have a property, for the table that they are under
module _ {R : Type 0} (P : String → R → Type 0) where
  abbrev pub AllRows : List (String × List R) → Type 0
  AllRows b = All (λ bucket. All (P bucket.0) bucket.1) b

  push_row-AllRows :
      (table : String) (row : R) (b : List (String × List R))
      → P table row
      → AllRows b
      → AllRows (push_row table row b)
  unfolding push_row
  push_row-AllRows table row [] p h = ((p, tt), tt)
  push_row-AllRows table row ((t, rows) ∷ b) p (first, h) = elim (Bool-cases (t == table)) [
    | inl same ↦
        let q : P t row = subst (λ u. P u row) (sym ((eq_iff t table).0 same)) p in
        rw same (All-append (P t) rows (row ∷ []) first (q, tt), h)
    | inr other ↦ rw other (first, push_row-AllRows table row b p h)
  ]

  pending_work-AllRows : (b : List (String × List R)) → AllRows b → AllRows (pending_work b)
  unfolding pending_work
  pending_work-AllRows [] h = tt
  pending_work-AllRows ((t, []) ∷ b) (first, h) = pending_work-AllRows b h
  pending_work-AllRows ((t, row ∷ rows) ∷ b) (first, h) = (first, pending_work-AllRows b h)

  -- The same of a service: its batches and its log
  pub record HoldsRows {W : Type 0} (s : Service W R) : Type 0 where
    pub waiting : AllRows s.batches
    pub logged : AllRows (all_filed s.log)

  module _ {W : Type 0} (server : ClickHouse W R) (db : String) (ttl : Option ℕ)
      (convert : CustomMappings → String → Option (String × R)) (batch_size : ℕ)
      (given : (m : CustomMappings) (raw table : String) (row : R)
        → convert m raw ≡ some (table, row)
        → P table row) where
    do_flush-HoldsRows :
        (look : Look) (s : Service W R) → HoldsRows s → HoldsRows (do_flush server db ttl look s)
    unfolding do_flush
    do_flush-HoldsRows look s h =
        let reg =
          register_columns server (new_columns s.mappings s.known_custom_cols) s.known_custom_cols
            s.known_tables s.world in
        let (emptied, acc) =
          flush_all-Accounts server db ttl reg.0 s.batches s.known_tables reg.1 in
        record {
          waiting = rw emptied tt;
          logged =
              rw (all_filed-append, acc.once)
                (All-append _ (all_filed s.log) _ h.logged
                  (pending_work-AllRows s.batches h.waiting));
        }

    accept-HoldsRows :
        (look : Look) (o : Option (String × R)) (s : Service W R)
        → ((table : String) (row : R) → o ≡ some (table, row) → P table row)
        → HoldsRows s
        → HoldsRows (accept server db ttl convert batch_size look o s)
    unfolding accept
    accept-HoldsRows look none s p h = h
    accept-HoldsRows look (some (table, row)) s p h =
        let s' : Service W R = record s { batches = push_row table row s.batches } in
        let h' : HoldsRows s' = record {
          waiting = push_row-AllRows table row s.batches (p table row refl) h.waiting;
          logged = h.logged;
        } in
        if-both HoldsRows (leb batch_size (bucket_len table s'.batches))
          (do_flush-HoldsRows look s' h') h'

    step-HoldsRows :
        (e : Event) (s : Service W R)
        → HoldsRows s
        → HoldsRows (step server db ttl convert batch_size e s)
    unfolding step
    step-HoldsRows (line offset raw look) s h =
        accept-HoldsRows look (convert s.mappings raw) (record s { current_offset = offset })
          (given s.mappings raw) (record { waiting = h.waiting; logged = h.logged })
    step-HoldsRows (closed look) s h =
        let k = do_flush-HoldsRows look s h in record { waiting = k.waiting; logged = k.logged }
    step-HoldsRows (tick look) s h =
        if-both HoldsRows (ltb 0 (pending s.batches)) (do_flush-HoldsRows look s h) h
    step-HoldsRows shutdown s h = record { waiting = h.waiting; logged = h.logged }
    step-HoldsRows (reload m) s h = record { waiting = h.waiting; logged = h.logged }

    pub run-HoldsRows :
        (events : List Event) (s : Service W R)
        → HoldsRows s
        → HoldsRows (run server db ttl convert batch_size events s)
    unfolding run
    run-HoldsRows [] s h = h
    run-HoldsRows (e ∷ events) s h =
        let s' = step server db ttl convert batch_size e s in
        if-both HoldsRows s.running (run-HoldsRows events s' (step-HoldsRows e s h)) h

-- A row under the table of its database and a name as in Routing, which the validator accepts unless its
-- time is 0
pub record IsStored {F32 : Type 0} (db table : String) (rec : OcsfRecord F32) : Type 0 where
  pub name : String
  pub named : IsTableName name
  pub table_of : table ≡ String.◌++◌ db (String.◌++◌ "." name)
  pub compliant : rec.time ≢ 0 → IsCompliant rec

module _ {F32 : Type 0} (o : Outside F32) (db : String) (special_locs : List String) where
  stored-IsStored :
      (store_raw : Bool) (custom : CustomMappings) (raw : String)
      (p : Option (String × OcsfRecord F32))
      → ((table : String) (rec : OcsfRecord F32)
          → p ≡ some (table, rec)
          → IsFiled o db special_locs custom raw table rec)
      → (table : String) (rec : OcsfRecord F32) → stored store_raw p ≡ some (table, rec)
      → IsStored db table rec
  stored-IsStored store_raw custom raw none filed table rec h = cc
  stored-IsStored store_raw custom raw (some (t, r)) filed table rec h =
      let f = filed t r refl in
      subst (λ row. IsStored db row.0 row.1) (some-injective _ _ h)
        (record {
          name = f.name;
          named = f.named;
          table_of = f.table_of;
          compliant = λ timed.
              let k = f.compliant timed in
              record {
                known_class = k.known_class;
                known_severity = k.known_severity;
                derived_type = k.derived_type;
                fitting_activity = k.fitting_activity;
                fitting_category = k.fitting_category;
                timed = k.timed;
              };
        })

  -- The whole program on a service that starts with nothing in its batches and its log: whatever lines come,
  -- in whatever order with ticks, reloads and signals, and whatever the server answers, each row that waits
  -- or was sent is under the table of the database, a dot and a name of at most 200 characters in [a-z0-9_]
  -- that begins with "ocsf_", and the validator accepts it unless its time is 0. The database has no dot in
  -- its name.
  pub run-IsStored :
      {W : Type 0} (server : ClickHouse W (OcsfRecord F32)) (ttl : Option ℕ) (store_raw : Bool)
      (g : Globals) (batch_size : ℕ) (events : List Event) (s : Service W (OcsfRecord F32))
      → AllChars (λ d. not (eqb (code d) b'.')) db
      → s.batches ≡ []
      → s.log ≡ []
      → HoldsRows
          (IsStored db)
          (run server db ttl (line_to_row o db special_locs store_raw g) batch_size events s)
  run-IsStored server ttl store_raw g batch_size events s plain no_batches no_log =
      run-HoldsRows (IsStored db) server db ttl (line_to_row o db special_locs store_raw g)
        batch_size
        (λ custom raw table rec h.
          stored-IsStored store_raw custom raw (transform o db special_locs custom raw g).0
            (λ t r e. transform-IsFiled o db special_locs custom raw g t r plain e) table rec
            (unfold line_to_row in h))
        events s
        (record {
          waiting = subst (AllRows (IsStored db)) (sym no_batches) tt;
          logged = subst (λ l. AllRows (IsStored db) (all_filed l)) (sym no_log) tt;
        })
