-- ===== src/Pipeline/Socket.antt =====
-- src/main.rs with src/input/zmq.rs: the saved position when the lines come from the socket.
use wazuh_ocsf_etl.Base.{
  ℕ, String, List, [], ◌∷◌, Option, none, some, ◌≡◌, ◌≢◌, refl, true, Bool, All, if-both, leb, ltb,
  arith, map, ◌∙◌, sym,
}
use wazuh_ocsf_etl.Config.{CustomMappings}
use wazuh_ocsf_etl.Db.Columns.{ClickHouse}
use wazuh_ocsf_etl.State.Text.{TailState}
use wazuh_ocsf_etl.ZeroMq.Laws.{IsLine}
use wazuh_ocsf_etl.Pipeline.Startup.{AlertsFile, start_state, reader_offset}
use wazuh_ocsf_etl.Pipeline.Loop.{
  Service, Look, Event, line, closed, tick, shutdown, reload, push_row, bucket_len, pending,
  do_flush, accept, step, run,
}

-- An event whose line, if it has one, has the offset that the subscriber sends
abbrev pub HasNoOffset : Event → Type 0
HasNoOffset (line offset raw look) = offset ≡ 0
HasNoOffset _ = Unit

-- The lines of the subscriber as events of the loop
pub lines_without_offset :
    (look : Look) (sent : List (ℕ × String))
    → All IsLine sent
    → All HasNoOffset (map (λ l. line l.0 l.1 look) sent)
lines_without_offset look [] h = tt
lines_without_offset look ((offset, text) ∷ sent) (here, rest) =
    (here.no_offset, lines_without_offset look sent rest)

restart_at_zero :
    (saved : TailState) (file : AlertsFile) (seek_to_end : Bool)
    → saved.offset ≡ 0
    → saved.inode ≢ 0
    → file.inode ≡ saved.inode
    → reader_offset (start_state saved file seek_to_end) file.inode ≡ 0
unfolding reader_offset start_state
restart_at_zero saved file seek_to_end h k e = ground arith

module _ {W R : Type 0} (server : ClickHouse W R) (db : String) (ttl : Option ℕ)
    (transform : CustomMappings → String → Option (String × R)) (batch_size : ℕ) where
  pub do_flush-current_offset :
      (look : Look) (s : Service W R)
      → (do_flush server db ttl look s).current_offset ≡ s.current_offset
  unfolding do_flush
  do_flush-current_offset look s = refl

  pub accept-current_offset :
      (look : Look) (o : Option (String × R)) (s : Service W R)
      → (accept server db ttl transform batch_size look o s).current_offset ≡ s.current_offset
  unfolding accept
  accept-current_offset look none s = refl
  accept-current_offset look (some (table, row)) s =
      let s' : Service W R = record s { batches = push_row table row s.batches } in
      if-both (λ (r : Service W R). r.current_offset ≡ s.current_offset)
        (leb batch_size (bucket_len table s'.batches)) (do_flush-current_offset look s') refl

  step_without_offset :
      (e : Event) (s : Service W R)
      → HasNoOffset e
      → s.current_offset ≡ 0
      → (step server db ttl transform batch_size e s).current_offset ≡ 0
  unfolding step
  step_without_offset (line offset raw look) s e h =
      accept-current_offset look (transform s.mappings raw) (record s { current_offset = offset })
      ∙ e
  step_without_offset (closed look) s e h = do_flush-current_offset look s ∙ h
  step_without_offset (tick look) s e h =
      if-both (λ (r : Service W R). r.current_offset ≡ 0) (ltb 0 (pending s.batches))
        (do_flush-current_offset look s ∙ h) h
  step_without_offset shutdown s e h = h
  step_without_offset (reload m) s e h = h

  run_without_offset :
      (events : List Event) (s : Service W R)
      → All HasNoOffset events
      → s.current_offset ≡ 0
      → (run server db ttl transform batch_size events s).current_offset ≡ 0
  unfolding run
  run_without_offset [] s _ h = h
  run_without_offset (e ∷ events) s (here, rest) h =
      if-both (λ (r : Service W R). r.current_offset ≡ 0) s.running
        (run_without_offset events (step server db ttl transform batch_size e s) rest
          (step_without_offset e s here h))
        h

  pub closed-saved :
      (look : Look) (s : Service W R)
      → look.save_ok ≡ true
      → ((step server db ttl transform batch_size (closed look) s).saved.inode ≡ look.alerts_inode)
        × ((step server db ttl transform batch_size (closed look) s).saved.offset
            ≡ s.current_offset)
  unfolding step do_flush
  closed-saved look s ok = (rw ok refl, rw ok refl)

  -- A session with lines of the socket, behind the first of them, that ends with a state that can be saved:
  -- whatever was saved before, the next start on the same alerts file reads it from its first byte.
  pub socket_session_forgets_position :
      (events : List Event) (look : Look) (s : Service W R) (file : AlertsFile) (seek_to_end : Bool)
      → All HasNoOffset events
      → s.current_offset ≡ 0
      → look.save_ok ≡ true
      → look.alerts_inode ≢ 0
      → file.inode ≡ look.alerts_inode
      → let s' =
          step server db ttl transform batch_size
            (closed look)
            (run server db ttl transform batch_size events s) in
        reader_offset (start_state s'.saved file seek_to_end) file.inode ≡ 0
  socket_session_forgets_position events look s file seek_to_end plain zero_offset ok known same =
      let r = run server db ttl transform batch_size events s in
      let (inode, offset) = closed-saved look r ok in
      let at_zero = run_without_offset events s plain zero_offset in
      restart_at_zero (step server db ttl transform batch_size (closed look) r).saved file
        seek_to_end (offset ∙ at_zero) (λ e. known (sym inode ∙ e)) (same ∙ sym inode)
