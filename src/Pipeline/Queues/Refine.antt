-- ===== src/Pipeline/Queues/Refine.antt =====
-- src/main.rs: the loop against its specification by queues.
use mathlib.Core.Path.{fun_ext, subst}
use wazuh_ocsf_etl.Base.{
  ℕ, String, List, [], ◌∷◌, ◌++◌, Option, none, some, ◌≡◌, refl, sym, ap, ◌∙◌, ◌==◌, if◌then◌else◌,
  leb, ltb, if-both, Bool-cases, inl, inr,
}
use wazuh_ocsf_etl.Config.{CustomMappings}
use wazuh_ocsf_etl.Db.Columns.{ClickHouse}
use wazuh_ocsf_etl.Db.Conserve.{all_filed, all_filed-append, flush_all-Accounts}
use wazuh_ocsf_etl.Pipeline.Loop.{
  Service, Look, Event, line, closed, tick, shutdown, reload, push_row, bucket_len, pending,
  new_columns, register_columns, do_flush, accept, step, run,
}
use wazuh_ocsf_etl.Pipeline.Conserve.{do_flush-batches}
use wazuh_ocsf_etl.Pipeline.Queues.{
  Queues, enqueue, replay, rows_in, IsMap, append_nil, rows_in-append, rows_in-pending_work,
  push_row-IsMap, rows_in_further, rows_in-push_row,
}

-- What was taken in so far: the rows in the log and behind them those in the batches
abbrev pub history : {W R : Type 0} → Service W R → Queues R
history s t = rows_in (all_filed s.log) t ++ rows_in s.batches t

module _ {W R : Type 0} (server : ClickHouse W R) (db : String) (ttl : Option ℕ) where
  do_flush-history :
      (look : Look) (s : Service W R) (t : String)
      → history (do_flush server db ttl look s) t ≡ history s t
  unfolding do_flush
  do_flush-history look s t =
      let reg =
        register_columns server (new_columns s.mappings s.known_custom_cols) s.known_custom_cols
          s.known_tables s.world in
      let (emptied, acc) = flush_all-Accounts server db ttl reg.0 s.batches s.known_tables reg.1 in
      rw (emptied, all_filed-append, rows_in-append, acc.once, rows_in-pending_work) (append_nil _)

  do_flush-IsMap : (look : Look) (s : Service W R) → IsMap (do_flush server db ttl look s).batches
  do_flush-IsMap look s = rw (do_flush-batches server db ttl look s) tt

module _ {W R : Type 0} (server : ClickHouse W R) (db : String) (ttl : Option ℕ)
    (transform : CustomMappings → String → Option (String × R)) (batch_size : ℕ) where
  -- What `transform` gives for an event, with the table, and for a whole run
  abbrev taken_of : Option (String × R) → List (String × R)
  taken_of none = []
  taken_of (some row) = row ∷ []

  abbrev pub taken : Event → Service W R → List (String × R)
  taken (line offset raw look) s = taken_of (transform s.mappings raw)
  taken _ s = []

  unfoldable pub taken_by : List Event → Service W R → List (String × R)
  taken_by [] s = []
  taken_by (e ∷ events) s =
      let rest = taken_by events (step server db ttl transform batch_size e s) in
      if s.running then taken e s ++ rest else []

  -- A service whose queues are `q`
  record Shows (q : Queues R) (s : Service W R) : Type 0 where
    shown : (t : String) → history s t ≡ q t
    map : IsMap s.batches

  flushed-Shows :
      (look : Look) (q : Queues R) (s : Service W R)
      → Shows q s
      → Shows q (do_flush server db ttl look s)
  flushed-Shows look q s h = record {
    shown = λ t. do_flush-history server db ttl look s t ∙ h.shown t;
    map = do_flush-IsMap server db ttl look s;
  }

  pushed-Shows :
      (table : String) (row : R) (q : Queues R) (s : Service W R)
      → Shows q s
      → Shows (enqueue (table, row) q) (record s { batches = push_row table row s.batches })
  pushed-Shows table row q s h = record {
    shown = λ t.
        ap (λ l. rows_in (all_filed s.log) t ++ l) (rows_in-push_row table row s.batches t h.map)
        ∙ rows_in_further table row (rows_in (all_filed s.log) t) (rows_in s.batches t) t
        ∙ ap (λ l. if table == t then l ++ row ∷ [] else l) (h.shown t);
    map = push_row-IsMap table row s.batches h.map;
  }

  accept-Shows :
      (look : Look) (o : Option (String × R)) (q : Queues R) (s : Service W R)
      → Shows q s
      → Shows (replay (taken_of o) q) (accept server db ttl transform batch_size look o s)
  unfolding accept replay
  accept-Shows look none q s h = h
  accept-Shows look (some (table, row)) q s h =
      let s' : Service W R = record s { batches = push_row table row s.batches } in
      let h' = pushed-Shows table row q s h in
      if-both (Shows (enqueue (table, row) q)) (leb batch_size (bucket_len table s'.batches))
        (flushed-Shows look _ s' h') h'

  step-Shows :
      (e : Event) (q : Queues R) (s : Service W R)
      → Shows q s
      → Shows (replay (taken e s) q) (step server db ttl transform batch_size e s)
  unfolding step replay
  step-Shows (line offset raw look) q s h =
      accept-Shows look (transform s.mappings raw) q (record s { current_offset = offset })
        (record { shown = h.shown; map = h.map })
  step-Shows (closed look) q s h =
      let k = flushed-Shows look q s h in record { shown = k.shown; map = k.map }
  step-Shows (tick look) q s h =
      if-both (Shows q) (ltb 0 (pending s.batches)) (flushed-Shows look q s h) h
  step-Shows shutdown q s h = record { shown = h.shown; map = h.map }
  step-Shows (reload m) q s h = record { shown = h.shown; map = h.map }

  replay-append :
      (xs ys : List (String × R)) (q : Queues R) → replay (xs ++ ys) q ≡ replay ys (replay xs q)
  unfolding replay
  replay-append [] ys q = refl
  replay-append (x ∷ xs) ys q = replay-append xs ys (enqueue x q)

  run-Shows :
      (events : List Event) (q : Queues R) (s : Service W R)
      → Shows q s
      → Shows (replay (taken_by events s) q) (run server db ttl transform batch_size events s)
  unfolding run taken_by
  run-Shows [] q s h = unfold replay in h
  run-Shows (e ∷ events) q s h = elim (Bool-cases s.running) [
    | inl on ↦
        let s' = step server db ttl transform batch_size e s in
        let next = run-Shows events (replay (taken e s) q) s' (step-Shows e q s h) in
        simp on (
          subst (λ r. Shows r (run server db ttl transform batch_size events s'))
            (sym (replay-append (taken e s) (taken_by events s') q)) next)
    | inr off ↦ simp off (unfold replay in h)
  ]

  -- The loop refines a queue for each table: whatever happens, and whatever the server answers, the rows in
  -- the log for a table, with those in its bucket behind them, are the rows that `transform` gave for this
  -- table, in the order of their lines, behind those that were there at the beginning. The batches have one
  -- bucket for a table then.
  pub run_refines :
      (events : List Event) (s : Service W R)
      → IsMap s.batches
      → history (run server db ttl transform batch_size events s)
        ≡ replay (taken_by events s) (history s)
  run_refines events s h =
      fun_ext λ t. (run-Shows events (history s) s (record { shown = λ u. refl; map = h })).shown t
