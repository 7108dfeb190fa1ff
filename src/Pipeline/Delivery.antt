-- ===== src/Pipeline/Delivery.antt =====
-- src/main.rs with src/output/db.rs: what reaches a server that does what it answers, in a whole run.
use wazuh_ocsf_etl.Base.{
  ℕ, String, List, [], ◌∷◌, true, Option, none, some, if-both, contains, ◌≡◌, All, All-append,
  All-map, leb, ltb,
}
use wazuh_ocsf_etl.Config.{CustomMappings}
use wazuh_ocsf_etl.Db.Columns.{ClickHouse, Statement}
use wazuh_ocsf_etl.Db.Flush.{pending_work, flush_all}
use wazuh_ocsf_etl.Db.Keeps.{Keeps, flush_work_keeps}
use wazuh_ocsf_etl.Db.Delivery.{
  IsHonest, IsMade, IsMade-kept, IsDelivered, IsDelivered-kept, flush_work-Delivers,
}
use wazuh_ocsf_etl.Pipeline.Custom.{failed_columns_keeps}
use wazuh_ocsf_etl.Pipeline.Loop.{
  Service, Look, Event, line, closed, tick, shutdown, reload, push_row, bucket_len, pending,
  new_columns, register_columns, do_flush, accept, step, run,
}

module _ {W R : Type 0} (server : ClickHouse W R) (Has : W → Statement → Type 0)
    (Open Stored : W → String → List R → Type 0) (honest : IsHonest server Has Open Stored)
    (db : String) (ttl : Option ℕ) where
  -- What the log calls flushed is stored, and the known tables have been made.
  pub record IsServed (s : Service W R) : Type 0 where
    pub delivered : All (IsDelivered server Has Open Stored honest s.world) s.log
    pub made :
        (t : String)
        → contains s.known_tables t ≡ true
        → IsMade server Has Open Stored honest db ttl s.world t

  register_columns_keeps :
      (P : W → Type 0) (k : Keeps server P) (cols known tables : List String) (w : W)
      → P w
      → P (register_columns server cols known tables w).1
  unfolding register_columns
  register_columns_keeps P k [] known tables w h = h
  register_columns_keeps P k (c ∷ cols) known tables w h =
      failed_columns_keeps server P k (c ∷ cols) tables w h

  do_flush-IsServed :
      (look : Look) (s : Service W R) → IsServed s → IsServed (do_flush server db ttl look s)
  unfolding do_flush flush_all
  do_flush-IsServed look s h =
      let cols = new_columns s.mappings s.known_custom_cols in
      let reg = register_columns server cols s.known_custom_cols s.known_tables s.world in
      let f =
        flush_work-Delivers server Has Open Stored honest db ttl reg.0 (pending_work s.batches)
          s.known_tables reg.1
          (λ t e.
            register_columns_keeps _ (IsMade-kept server Has Open Stored honest db ttl t) cols
              s.known_custom_cols s.known_tables s.world (h.made t e)) in
      record {
        delivered =
            All-append _ s.log _
              (All-map _ _
                (λ e d.
                  flush_work_keeps server _ (IsDelivered-kept server Has Open Stored honest e) db
                    ttl reg.0 (pending_work s.batches) s.known_tables reg.1
                    (register_columns_keeps _ (IsDelivered-kept server Has Open Stored honest e)
                      cols s.known_custom_cols s.known_tables s.world d))
                s.log h.delivered)
              f.delivered;
        made = f.made;
      }

  module _ (transform : CustomMappings → String → Option (String × R)) (batch_size : ℕ) where
    accept-IsServed :
        (look : Look) (o : Option (String × R)) (s : Service W R)
        → IsServed s
        → IsServed (accept server db ttl transform batch_size look o s)
    unfolding accept
    accept-IsServed look none s h = h
    accept-IsServed look (some (table, row)) s h =
        let s' : Service W R = record s { batches = push_row table row s.batches } in
        let h' : IsServed s' = record { delivered = h.delivered; made = h.made } in
        if-both IsServed (leb batch_size (bucket_len table s'.batches))
          (do_flush-IsServed look s' h') h'

    step-IsServed :
        (e : Event) (s : Service W R)
        → IsServed s
        → IsServed (step server db ttl transform batch_size e s)
    unfolding step
    step-IsServed (line offset raw look) s h =
        accept-IsServed look (transform s.mappings raw) (record s { current_offset = offset })
          (record { delivered = h.delivered; made = h.made })
    step-IsServed (closed look) s h =
        let h' = do_flush-IsServed look s h in record { delivered = h'.delivered; made = h'.made }
    step-IsServed (tick look) s h =
        if-both IsServed (ltb 0 (pending s.batches)) (do_flush-IsServed look s h) h
    step-IsServed shutdown s h = record { delivered = h.delivered; made = h.made }
    step-IsServed (reload m) s h = record { delivered = h.delivered; made = h.made }

    -- Over a server that does what it documents, whatever happens to the loop and whatever the server answers:
    -- the rows of every entry that the log calls flushed, if there are any, are stored in its table by one
    -- insertion, all of them in their order, and every known table has been made, if this was so at first.
    pub run-IsServed :
        (events : List Event) (s : Service W R)
        → IsServed s
        → IsServed (run server db ttl transform batch_size events s)
    unfolding run
    run-IsServed [] s h = h
    run-IsServed (e ∷ events) s h =
        if-both IsServed s.running (run-IsServed events _ (step-IsServed e s h)) h
