-- ===== src/Pipeline/Loop.antt =====
-- src/main.rs: `do_flush` and the event loop. The rows and `transform` are parameters here, and the
-- server is that of Db.
use wazuh_ocsf_etl.Base.{
  ℕ, String, List, [], ◌∷◌, ◌++◌, Bool, true, false, not, Option, none, some, ◌==◌, if◌then◌else◌,
  contains, is_nil, keep, length, leb, ltb, ◌+◌,
}
use wazuh_ocsf_etl.Config.{CustomMappings, custom_column_targets}
use wazuh_ocsf_etl.State.Text.{TailState}
use wazuh_ocsf_etl.Db.Columns.{ClickHouse, ensure_custom_columns}
use wazuh_ocsf_etl.Db.Flush.{BatchMap, Entry, flush_all}

-- The variables of `main` that the loop changes, the state file as it would be loaded, the state
-- outside, and the log of all flushes.
pub record Service (W R : Type 0) : Type 0 where
  pub batches : BatchMap R
  pub known_tables : List String
  pub known_custom_cols : List String
  pub current_offset : ℕ
  pub mappings : CustomMappings
  pub saved : TailState
  pub world : W
  pub log : List (Entry R)
  pub shutting_down : Bool
  pub running : Bool

-- What a flush finds outside: the inode of the alerts file, and whether the state can be saved.
pub record Look : Type 0 where
  pub alerts_inode : ℕ
  pub save_ok : Bool

-- What happens to the loop: a line of the channel, the closed channel, a tick of the timer, the
-- shutdown signal (which closes the receiver: `closed` follows the lines that are still in it), and a
-- reload by the watcher.
pub data Event : Type 0 where
  line : ℕ → String → Look → Event
  closed : Look → Event
  tick : Look → Event
  shutdown : Event
  reload : CustomMappings → Event

-- `batches.entry(table).or_default().push(record)`
unfoldable pub push_row {ℓ} :
    {R : Type ℓ} → String → R → List (String × List R) → List (String × List R)
push_row table row [] = (table, row ∷ []) ∷ []
push_row table row ((t, rows) ∷ batches) =
    if t == table then (t, rows ++ row ∷ []) ∷ batches else (t, rows) ∷ push_row table row batches

unfoldable pub bucket_len {ℓ} : {R : Type ℓ} → String → List (String × List R) → ℕ
bucket_len table [] = 0
bucket_len table ((t, rows) ∷ batches) =
    if t == table then length rows else bucket_len table batches

unfoldable pub pending {ℓ} : {R : Type ℓ} → List (String × List R) → ℕ
pending [] = 0
pending ((t, rows) ∷ batches) = length rows + pending batches

-- The targets that are not registered yet
unfoldable pub new_columns : CustomMappings → List String → List String
new_columns m known = keep (λ c. not (contains known c)) (custom_column_targets m)

-- The columns of `cols` that `applied` lacks
abbrev pub missing : List String → List String → List String
missing cols applied = keep (λ c. not (contains applied c)) cols

-- `known_custom_cols.insert(col)` for each of the columns; the set has a column once.
unfoldable pub registered : List String → List String → List String
registered [] known = known
registered (col ∷ cols) known =
    let rest = registered cols known in if contains rest col then rest else col ∷ rest

module _ {W R : Type 0} (server : ClickHouse W R) where
  -- The loop over the known tables: the columns that some table refused.
  unfoldable pub failed_columns : List String → List String → W → List String × W
  failed_columns cols [] w = ([], w)
  failed_columns cols (table ∷ tables) w =
      let (applied, w') = ensure_custom_columns server table cols w in
      let (failed, w'') = failed_columns cols tables w' in (missing cols applied ++ failed, w'')

  -- The registered columns and the state outside, behind the first part of `do_flush`.
  unfoldable pub register_columns : List String → List String → List String → W → List String × W
  register_columns cols known tables w =
      let (failed, w') = failed_columns cols tables w in
      let tried : List String × W = (registered (missing cols failed) known, w') in
      if is_nil cols then (known, w) else tried

  module _ (db : String) (ttl_days : Option ℕ) where
    unfoldable pub do_flush : Look → Service W R → Service W R
    do_flush look s =
        let (registered, w) =
          register_columns (new_columns s.mappings s.known_custom_cols) s.known_custom_cols
            s.known_tables s.world in
        let (batches, f) = flush_all server db ttl_days s.batches s.known_tables registered w in
        record s {
          batches = batches;
          known_tables = f.known_tables;
          known_custom_cols = registered;
          world = f.world;
          log = s.log ++ f.log;
          saved =
              if look.save_ok
              then record { inode = look.alerts_inode; offset = s.current_offset }
              else s.saved;
        }

    module _ (transform : CustomMappings → String → Option (String × R)) (batch_size : ℕ) where
      -- A row goes to the bucket of its table, and a full bucket flushes all of them.
      unfoldable pub accept : Look → Option (String × R) → Service W R → Service W R
      accept look none s = s
      accept look (some (table, row)) s =
          let s' : Service W R = record s { batches = push_row table row s.batches } in
          if leb batch_size (bucket_len table s'.batches) then do_flush look s' else s'

      unfoldable pub step : Event → Service W R → Service W R
      unfolding accept
      step (line offset raw look) s =
          let s' : Service W R = record s { current_offset = offset } in
          accept look (transform s.mappings raw) s'
      step (closed look) s = let s' = do_flush look s in record s' { running = false }
      step (tick look) s = if ltb 0 (pending s.batches) then do_flush look s else s
      step shutdown s = record s { shutting_down = true }
      step (reload m) s = record s { mappings = m }

      -- The loop, up to its `break`.
      unfoldable pub run : List Event → Service W R → Service W R
      run [] s = s
      run (e ∷ events) s = let next = run events (step e s) in if s.running then next else s
