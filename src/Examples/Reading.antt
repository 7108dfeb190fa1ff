-- ===== src/Examples/Reading.antt =====
-- Tests and instances for the reader of the alerts file.
use wazuh_ocsf_etl.Base.{List, [], ◌∷◌, ◌≡◌, refl, true, is_nil, length, none, some, All, ℕ, arith}
use wazuh_ocsf_etl.State.Text.{TailState}
use wazuh_ocsf_etl.Pipeline.Rotated.{begins_at, rotated_head_is_skipped, shorter_file_is_reopened}
use wazuh_ocsf_etl.Tailer.Utf8.{start, utf8_run, utf8_step, is_utf8}
use wazuh_ocsf_etl.Tailer.{
  File, no_fault, reader_round, next_line, read_line, drop, line_text, trim_end, open_at,
  check_rotation,
}
use wazuh_ocsf_etl.Tailer.Drain.{rounds, followed-drain}
use wazuh_ocsf_etl.Tailer.Follow.{
  Follows, Change, IsText, grown, polled, follow, followed, followed_from, followed-Follows,
}

-- "hi", a line feed, and the beginning of the next line
abbrev file : File
file = record { inode = 9; content = 104 ∷ 105 ∷ 10 ∷ 104 ∷ [] }

-- The reader looks twice before the rest of the second line is there.
abbrev changes : List Change
changes = polled true ∷ polled true ∷ grown (111 ∷ 13 ∷ 10 ∷ []) ∷ polled true ∷ []

file_is_text : utf8_run start file.content ≡ start
unfolding utf8_run utf8_step
file_is_text = refl

changes-IsText : All IsText changes
unfolding utf8_run utf8_step
changes-IsText = (tt, (tt, (refl, (tt, tt))))

followed_runs :
    (followed is_nil file changes).1.sent ≡ (3, 104 ∷ 105 ∷ []) ∷ (7, 104 ∷ 111 ∷ []) ∷ []
unfolding follow reader_round next_line read_line drop line_text trim_end open_at check_rotation
    is_utf8 utf8_step
followed_runs = refl

followed-Follows_example :
    Follows is_nil [] (followed is_nil file changes).0 (followed is_nil file changes).1
followed-Follows_example = followed-Follows is_nil file changes file_is_text changes-IsText

followed-drain_example :
    let (now, r) = followed is_nil file changes in
    read_line (drop (rounds is_nil now (length now.content) r).tailer.offset now.content) ≡ none
followed-drain_example = followed-drain is_nil file changes file_is_text changes-IsText

-- What was saved for an older file; the new one has at least as many bytes, or fewer.
abbrev saved : TailState
saved = record { inode = 5; offset = 3 }

abbrev far : TailState
far = record { inode = 5; offset = 30 }

abbrev head : List ℕ
head = 104 ∷ 105 ∷ 10 ∷ []

abbrev rest : List ℕ
rest = 104 ∷ []

rest_is_text : utf8_run start rest ≡ start
unfolding utf8_run utf8_step
rest_is_text = refl

rotated_head_is_skipped_example :
    let (end, r) = followed_from is_nil (begins_at saved file true) file changes in
    Follows is_nil head end r
rotated_head_is_skipped_example =
    rotated_head_is_skipped is_nil saved file true head rest changes (omega arith) (omega arith)
      refl refl rest_is_text changes-IsText

shorter_file_is_reopened_example :
    reader_round is_nil no_fault file
      (some file)
      true
      (record { tailer = open_at file (begins_at far file true); sent = [] })
    ≡ record { tailer = open_at file 0; sent = [] }
shorter_file_is_reopened_example =
    shorter_file_is_reopened is_nil far file true (omega arith) (omega arith) (omega arith)
