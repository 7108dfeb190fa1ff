-- ===== src/Pipeline/Startup.antt =====
-- src/main.rs and src/input/tailer.rs: where reading begins after a start.
use wazuh_ocsf_etl.Base.{
  ℕ, ◌≤◌, ◌<◌, ◌≡◌, ◌≢◌, Bool, false, not, ◌&&◌, if◌then◌else◌, eqb, ltb, arith,
}
use wazuh_ocsf_etl.State.Text.{TailState}

-- What `main` sees of the alerts file: size and inode, 0 where it has no metadata.
pub record AlertsFile : Type 0 where
  pub size : ℕ
  pub inode : ℕ

unfoldable pub is_first_run : TailState → Bool
is_first_run saved = eqb saved.offset 0 && eqb saved.inode 0

unfoldable pub start_offset : TailState → AlertsFile → Bool → ℕ
start_offset saved file seek_to_end =
    if not (is_first_run saved)
    then if not (eqb saved.inode 0) && not (eqb saved.inode file.inode)
      then saved.offset
      else if ltb file.size saved.offset
      then 0
      else saved.offset
    else if seek_to_end
    then file.size
    else 0

-- The state that the reader gets: the inode is the one of now.
unfoldable pub start_state : TailState → AlertsFile → Bool → TailState
unfolding start_offset is_first_run
start_state saved file seek_to_end = record {
  inode = file.inode;
  offset = start_offset saved file seek_to_end;
}

-- The start of `reader_task`: the offset that it reads from, when it has opened a file with this inode.
unfoldable pub reader_offset : TailState → ℕ → ℕ
reader_offset initial tailer_inode =
    if not (eqb initial.inode 0) && not (eqb tailer_inode initial.inode) then 0 else initial.offset

-- The same file as before: reading goes on at the saved offset if the file is that long, and from the
-- start if it was truncated.
pub resume_same_file :
    (saved : TailState) (file : AlertsFile) (seek_to_end : Bool)
    → saved.inode ≡ file.inode
    → is_first_run saved ≡ false
    → let from = reader_offset (start_state saved file seek_to_end) file.inode in
      (saved.offset ≤ file.size → from ≡ saved.offset) × (file.size < saved.offset → from ≡ 0)
unfolding reader_offset start_state
resume_same_file saved file seek_to_end h k = ground arith

-- Another file than the saved one: reading begins at the saved offset all the same.
pub rotation_while_stopped :
    (saved : TailState) (file : AlertsFile) (seek_to_end : Bool)
    → saved.inode ≢ 0
    → saved.inode ≢ file.inode
    → reader_offset (start_state saved file seek_to_end) file.inode ≡ saved.offset
unfolding reader_offset start_state
rotation_while_stopped saved file seek_to_end h k = ground arith
