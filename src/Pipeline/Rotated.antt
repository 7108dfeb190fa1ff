-- ===== src/Pipeline/Rotated.antt =====
-- src/main.rs and src/input/tailer.rs: a start on a file that was rotated while the service was stopped.
use mathlib.Core.Path.{subst}
use wazuh_ocsf_etl.Base.{
  ℕ, zero, suc, ◌<◌, ◌≢◌, List, [], ◌∷◌, ◌++◌, Bool, true, some, ◌≡◌, refl, sym, ◌∙◌, All, length,
  arith,
}
use wazuh_ocsf_etl.State.Text.{TailState}
use wazuh_ocsf_etl.Tailer.{
  File, Reader, open_at, drop, read_line, no_fault, next_line, check_rotation, reader_round,
}
use wazuh_ocsf_etl.Tailer.Utf8.{start, utf8_run}
use wazuh_ocsf_etl.Tailer.Follow.{
  Follows, Change, IsText, followed_from, follow-Follows, opened-Follows,
}
use wazuh_ocsf_etl.Pipeline.Startup.{AlertsFile, start_state, reader_offset, rotation_while_stopped}

-- The offset from which the reader of a file starts
abbrev pub begins_at : TailState → File → Bool → ℕ
begins_at saved file seek_to_end =
    let now : AlertsFile = record { size = length file.content; inode = file.inode } in
    reader_offset (start_state saved now seek_to_end) file.inode

-- A file that took the place of the saved one while the service was stopped; the saved inode is not 0, and the
-- new file has at least as many bytes, `head`, as the saved offset. The rest and the growth are UTF-8 in whole
-- characters. What the reader has sent at any moment are the complete lines behind `head` up to its offset, the
-- blank ones left out: the lines in `head`, which no session has read, are skipped.
pub rotated_head_is_skipped :
    (is_blank : List ℕ → Bool) (saved : TailState) (file : File) (seek_to_end : Bool)
    (head rest : List ℕ) (changes : List Change)
    → saved.inode ≢ 0
    → saved.inode ≢ file.inode
    → file.content ≡ head ++ rest
    → saved.offset ≡ length head
    → utf8_run start rest ≡ start
    → All IsText changes
    → let (end, r) = followed_from is_blank (begins_at saved file seek_to_end) file changes in
      Follows is_blank head end r
rotated_head_is_skipped is_blank saved file seek_to_end head rest changes known other whole at
      encoded valid =
    let now : AlertsFile = record { size = length file.content; inode = file.inode } in
    let from = rotation_while_stopped saved now seek_to_end known other ∙ at in
    subst
      (λ n.
        Follows is_blank head (followed_from is_blank n file changes).0
          (followed_from is_blank n file changes).1)
      (sym from)
      (follow-Follows is_blank head changes _ valid
        (opened-Follows is_blank head rest file whole encoded))

drop_all : (n : ℕ) (bytes : List ℕ) → length bytes < n → drop n bytes ≡ []
unfolding drop
drop_all zero bytes h = absurd (omega (arith, h))
drop_all (suc n) [] h = refl
drop_all (suc n) (b ∷ bytes) h = drop_all n bytes (omega (arith, h))

-- If a file that took the place of the saved one, whose inode is not 0, has fewer bytes than the saved offset,
-- the reader finds no line there, and its first round, if the file can be opened again, sets it back to the
-- start of the file, with nothing sent.
pub shorter_file_is_reopened :
    (is_blank : List ℕ → Bool) (saved : TailState) (file : File) (seek_to_end : Bool)
    → saved.inode ≢ 0
    → saved.inode ≢ file.inode
    → length file.content < saved.offset
    → let r : Reader = record {
      tailer = open_at file (begins_at saved file seek_to_end);
      sent = [];
    } in
      reader_round is_blank no_fault file (some file) true r
      ≡ record { tailer = open_at file 0; sent = [] }
unfolding reader_round next_line check_rotation open_at read_line
shorter_file_is_reopened is_blank saved file seek_to_end known other short =
    let now : AlertsFile = record { size = length file.content; inode = file.inode } in
    let from = rotation_while_stopped saved now seek_to_end known other in
    rw (from, drop_all saved.offset file.content short) (ground (arith, short))
