-- ===== src/Pipeline/Begin.antt =====
-- src/main.rs: the state file and the variables of `main` when the loop begins.
use wazuh_ocsf_etl.Base.{
  ◌≤◌, ◌<◌, [], Bool, true, false, ◌&&◌, if◌then◌else◌, ltb, ◌≡◌, ◌≢◌, refl, arith,
}
use wazuh_ocsf_etl.Config.{CustomMappings}
use wazuh_ocsf_etl.State.Text.{TailState, default_state}
use wazuh_ocsf_etl.Pipeline.Startup.{
  AlertsFile, is_first_run, start_offset, start_state, reader_offset,
}
use wazuh_ocsf_etl.Pipeline.Loop.{Service}

-- What is saved when the loop begins: the start position of a first run, if it is not 0 and can be saved
unfoldable pub saved_at_start : TailState → AlertsFile → Bool → Bool → TailState
saved_at_start saved file seek_to_end save_ok =
    if is_first_run saved && ltb 0 (start_offset saved file seek_to_end) && save_ok
    then start_state saved file seek_to_end
    else saved

-- The service in front of its first event; `w` is the state outside.
unfoldable pub start_service :
    {W R : Type 0} → CustomMappings → TailState → AlertsFile → Bool → Bool → W → Service W R
start_service mappings saved file seek_to_end save_ok w = record {
  batches = [];
  known_tables = [];
  known_custom_cols = [];
  current_offset = (start_state saved file seek_to_end).offset;
  mappings = mappings;
  saved = saved_at_start saved file seek_to_end save_ok;
  world = w;
  log = [];
  shutting_down = false;
  running = true;
}

-- A first run that seeks to the end of a file, and the next start when nothing was flushed in between, with
-- the same setting, on the same file, which has not shrunk, and whose inode is not 0. If the file was not
-- empty and the position could be saved, reading goes on where the first run began. If the file was empty,
-- there is no saved position, and the next start seeks to the end again: what was written in between is
-- skipped.
pub second_start :
    (file later : AlertsFile) (save_ok : Bool)
    → later.inode ≡ file.inode
    → file.inode ≢ 0
    → file.size ≤ later.size
    → let saved = saved_at_start default_state file true save_ok in
      let from = reader_offset (start_state saved later true) later.inode in
      (0 < file.size → save_ok ≡ true → from ≡ file.size) × (file.size ≡ 0 → from ≡ later.size)
unfolding saved_at_start reader_offset start_state start_offset is_first_run
second_start file later save_ok same known grown = ground arith

-- A service without a saved state, at the start of the file
pub record IsFresh {W R : Type 0} (s : Service W R) : Type 0 where
  pub on : s.running ≡ true
  pub at_start : s.current_offset ≡ 0
  pub fresh : s.saved ≡ default_state
  pub no_rows : s.batches ≡ []

-- A first run that does not seek to the end
pub start_service-IsFresh :
    {W R : Type 0} (mappings : CustomMappings) (file : AlertsFile) (save_ok : Bool) (w : W)
    → let s : Service W R = start_service mappings default_state file false save_ok w in IsFresh s
unfolding start_service saved_at_start start_state start_offset is_first_run
start_service-IsFresh mappings file save_ok w = record {
  on = refl;
  at_start = refl;
  fresh = refl;
  no_rows = refl;
}
