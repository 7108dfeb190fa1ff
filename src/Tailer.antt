-- ===== src/Tailer.antt =====
-- src/input/tailer.rs: reading the alerts file line by line, with the offset behind each line.
pub mod Utf8
pub mod Lines
pub mod Follow
pub mod Resume
pub mod Rounds
pub mod Faults
pub mod Drain
use wazuh_ocsf_etl.Tailer.Utf8.{is_utf8}
use wazuh_ocsf_etl.Base.{
  ◌&&◌, ℕ, zero, suc, ◌+◌, not, List, [], ◌∷◌, ◌++◌, Bool, true, false, Option, none, some,
  if◌then◌else◌, eqb, ltb, length,
}

-- A file: its inode and its bytes.
pub record File : Type 0 where
  pub inode : ℕ
  pub content : List ℕ

-- `position` is where `reader` reads next. It may part from `offset` when a read fails.
pub record FileTailer : Type 0 where
  pub inode : ℕ
  pub offset : ℕ
  pub position : ℕ

unfoldable pub open_at : File → ℕ → FileTailer
open_at file offset = record { inode = file.inode; offset = offset; position = offset }

-- The bytes from an offset on
unfoldable pub drop : ℕ → List ℕ → List ℕ
drop zero bytes = bytes
drop (suc n) [] = []
drop (suc n) (b ∷ bytes) = drop n bytes

abbrev pub with_head : ℕ → Option (List ℕ) → Option (List ℕ)
with_head b none = none
with_head b (some bytes) = some (b ∷ bytes)

-- The bytes up to the first line feed, with it, if there is one
unfoldable pub read_line : List ℕ → Option (List ℕ)
read_line [] = none
read_line (b ∷ bytes) =
    let rest = read_line bytes in if eqb b b'\n' then some (b ∷ []) else with_head b rest

abbrev keep_byte : ℕ → ℕ → List ℕ → List ℕ
keep_byte c b [] = if eqb b c then [] else b ∷ []
keep_byte c b (next ∷ bytes) = b ∷ next ∷ bytes

-- `trim_end_matches` of one character
unfoldable pub trim_end : ℕ → List ℕ → List ℕ
trim_end c [] = []
trim_end c (b ∷ bytes) = keep_byte c b (trim_end c bytes)

-- The bytes up to the line feed, and what is sent of them
unfoldable pub line_text : List ℕ → List ℕ
unfolding trim_end
line_text raw = trim_end b'\r' (trim_end b'\n' raw)

-- What `next_line` returns: `Ok(Some(…))`, `Ok(None)`, or an error.
pub data Next : Type 0 where
  text_line : List ℕ → Next
  no_line bad_read : Next

-- What the system may do to a call: nothing, fail to read behind so many bytes, or fail to seek.
pub data Fault : Type 0 where
  no_fault : Fault
  read_fault : ℕ → Fault
  seek_fault : Fault

-- A line that is no UTF-8 is an error. Its bytes are read then, but `offset` stays.
abbrev pub took : Bool → List ℕ → FileTailer → Next × FileTailer
took true raw t = (
  text_line (line_text raw),
  record t { offset = t.offset + length raw; position = t.position + length raw },
)
took false raw t = (bad_read, record t { position = t.position + length raw })

-- The end of the file in the middle of a line: back to `offset`, if its bytes are UTF-8 and the seek works.
abbrev pub gave_up : Bool → List ℕ → FileTailer → Next × FileTailer
gave_up true bytes t = (no_line, record t { position = t.offset })
gave_up false bytes t = (bad_read, record t { position = t.position + length bytes })

-- `read_line` on the bytes that follow, with the line in them
abbrev pub next_of : Bool → Option (List ℕ) → List ℕ → FileTailer → Next × FileTailer
next_of seeks (some raw) bytes t = took (is_utf8 raw) raw t
next_of seeks none [] t = (no_line, t)
next_of seeks none (b ∷ bytes) t = gave_up (is_utf8 (b ∷ bytes) && seeks) (b ∷ bytes) t

-- The file that the reader has open is the one of its inode.
unfoldable pub next_line : Fault → File → FileTailer → Next × FileTailer
next_line no_fault file t =
    let bytes = drop t.position file.content in next_of true (read_line bytes) bytes t
next_line (read_fault n) file t = (bad_read, record t { position = t.position + n })
next_line seek_fault file t =
    let bytes = drop t.position file.content in next_of false (read_line bytes) bytes t

-- The file at the path, if there is one; `reopens` says whether it can be opened again.
unfoldable pub check_rotation : Option File → Bool → FileTailer → Bool × FileTailer
check_rotation none reopens t = (false, t)
check_rotation (some file) reopens t =
    let fresh : Bool × FileTailer = if reopens then (true, open_at file 0) else (false, t) in
    if not (eqb file.inode t.inode)
    then fresh
    else if ltb (length file.content) t.offset
    then fresh
    else (false, t)

-- What the reader has sent: each line with the offset behind it.
pub record Reader : Type 0 where
  pub tailer : FileTailer
  pub sent : List (ℕ × List ℕ)

-- `is_blank` says of a line whether `trim` leaves nothing; blank lines are skipped.
abbrev pub send : (List ℕ → Bool) → ℕ → List ℕ → List (ℕ × List ℕ)
send is_blank offset text = if is_blank text then [] else (offset, text) ∷ []

-- What follows a call of `next_line`: the line is sent, or the file at the path is looked at, or nothing but a
-- pause.
abbrev pub after_line :
    (List ℕ → Bool) → Option File → Bool → List (ℕ × List ℕ) → Next × FileTailer → Reader
after_line is_blank at_path reopens sent (text_line text, t) = record {
  tailer = t;
  sent = sent ++ send is_blank t.offset text;
}
after_line is_blank at_path reopens sent (no_line, t) = record {
  tailer = (check_rotation at_path reopens t).1;
  sent = sent;
}
after_line is_blank at_path reopens sent (bad_read, t) = record { tailer = t; sent = sent }

-- One round of the loop in `reader_task`: `file` is the file that is open, `at_path` the one at the path.
unfoldable pub reader_round : (List ℕ → Bool) → Fault → File → Option File → Bool → Reader → Reader
reader_round is_blank fault file at_path reopens r =
    after_line is_blank at_path reopens r.sent (next_line fault file r.tailer)
