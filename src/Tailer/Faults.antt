-- ===== src/Tailer/Faults.antt =====
-- src/input/tailer.rs: what the reader makes of bytes that it cannot read as text.
use wazuh_ocsf_etl.Base.{
  ℕ, ◌+◌, List, [], ◌∷◌, ◌++◌, Bool, true, false, none, some, ◌≡◌, ◌≢◌, sym, ap, ◌∙◌, length,
  length-append, arith,
}
use wazuh_ocsf_etl.Tailer.{File, FileTailer, Reader, read_line, line_text, no_fault, reader_round}
use wazuh_ocsf_etl.Tailer.Utf8.{
  start, utf8_run, utf8_run-append, is_utf8, is_utf8_inside, is_utf8_of_start, cut_rest,
}
use wazuh_ocsf_etl.Tailer.Lines.{IsLine, append_assoc, append_nil}
use wazuh_ocsf_etl.Tailer.Follow.{grown, polled, follow}
use wazuh_ocsf_etl.Tailer.Rounds.{
  parts-IsLine, round_of_bad_line, round_of_line, round_of_cut, round_of_part, bytes_from,
}

-- A line that is not UTF-8 (`bad`), one that is (`raw`), and the first part of a third, in UTF-8, that has no
-- line feed yet, as a reader comes to them from right in front of the bad line
module _ (is_blank : List ℕ → Bool) (reopens : Bool) (file : File) (r : Reader)
    (head bad raw part : List ℕ) (whole : file.content ≡ head ++ (bad ++ (raw ++ part)))
    (from : r.tailer.offset ≡ length head) (at : r.tailer.position ≡ length head)
    (same : r.tailer.inode ≡ file.inode) (bad_line : IsLine bad) (not_text : is_utf8 bad ≡ false)
    (line : IsLine raw) (text : is_utf8 raw ≡ true) (shown : is_blank (line_text raw) ≡ false)
    (no_line : read_line part ≡ none) (some_byte : part ≢ [])
    (part_text : is_utf8 part ≡ true) where
  abbrev behind_bad : FileTailer
  behind_bad = record r.tailer { position = r.tailer.position + length bad }

  abbrev behind_raw : Reader
  behind_raw = record {
    tailer = record behind_bad {
      offset = r.tailer.offset + length raw;
      position = r.tailer.position + length bad + length raw;
    };
    sent = r.sent ++ (r.tailer.offset + length raw, line_text raw) ∷ [];
  }

  to_part : file.content ≡ (head ++ (bad ++ raw)) ++ part
  to_part =
      whole
      ∙ ap (λ l. head ++ l) (sym (append_assoc bad raw part))
      ∙ sym (append_assoc head (bad ++ raw) part)

  sizes : length (head ++ (bad ++ raw)) ≡ length head + length bad + length raw
  sizes = omega (arith, length-append head (bad ++ raw), length-append bad raw)

  two_rounds :
      reader_round is_blank no_fault file
        (some file)
        reopens
        (reader_round is_blank no_fault file (some file) reopens r)
      ≡ behind_raw
  two_rounds =
      ap (reader_round is_blank no_fault file (some file) reopens) (
        round_of_bad_line is_blank reopens file r bad (raw ++ part)
          (bytes_from file r.tailer.position head (bad ++ (raw ++ part)) whole at) bad_line
          not_text)
      ∙ round_of_line is_blank reopens file (record r { tailer = behind_bad }) raw part
          (bytes_from file behind_bad.position (head ++ bad) (raw ++ part)
            (whole ∙ sym (append_assoc head bad (raw ++ part)))
            (omega (arith, at, length-append head bad)))
          line text shown

  back_to_offset :
      reader_round is_blank no_fault file (some file) reopens behind_raw ≡ record behind_raw {
        tailer = record behind_raw.tailer { position = behind_raw.tailer.offset };
      }
  back_to_offset =
      round_of_part is_blank reopens file behind_raw part
        (bytes_from file behind_raw.tailer.position (head ++ (bad ++ raw)) part to_part
          (omega (arith, at, sizes)))
        some_byte no_line part_text same
        (omega (arith, from, sizes, ap length to_part, length-append (head ++ (bad ++ raw)) part))

  -- A reader in front of a line that is not UTF-8, with a line behind it that is, and is not blank, and then the first part of
  -- a third that has no line feed yet, in UTF-8; the file is still the one at the path. Three rounds skip the
  -- first line, send the second with an offset that is too small by the length of the first, and set the
  -- reader back there: the last bytes that it has gone through, as many as the first line has, are read again.
  pub bad_line_shifts_offsets :
      let now =
        (follow is_blank (polled reopens ∷ polled reopens ∷ polled reopens ∷ []) (file, r)).1 in
      (now.sent ≡ r.sent ++ (length (head ++ raw), line_text raw) ∷ [])
      × (now.tailer.position ≡ length (head ++ raw))
      × (now.tailer.position + length bad ≡ length (head ++ (bad ++ raw)))
  unfolding follow
  bad_line_shifts_offsets =
      let three : (follow is_blank (polled reopens ∷ polled reopens ∷ polled reopens ∷ [])
            (file, r)).1
          ≡ record behind_raw {
            tailer = record behind_raw.tailer { position = behind_raw.tailer.offset };
          } =
        ap (reader_round is_blank no_fault file (some file) reopens) two_rounds ∙ back_to_offset in
      let here : r.tailer.offset + length raw ≡ length (head ++ raw) =
        omega (arith, from, length-append head raw) in
      let there : (follow is_blank (polled reopens ∷ polled reopens ∷ polled reopens ∷ [])
            (file, r)).1.tailer.position
          ≡ length (head ++ raw) =
        ap (λ (q : Reader). q.tailer.position) three ∙ here in
      (
        ap (λ (q : Reader). q.sent) three ∙ ap (λ n. r.sent ++ (n, line_text raw) ∷ []) here,
        there,
        omega (arith, there, sizes, length-append head raw),
      )

-- The reader comes to the first part of a line that is cut inside a character, right at the end of the file,
-- and the rest of the line is written before it looks again. The whole is a line in UTF-8, but the reader goes
-- through all of it and sends nothing.
pub cut_character_is_lost :
    (is_blank : List ℕ → Bool) (reopens : Bool) (file : File) (r : Reader) (head part tail : List ℕ)
    → file.content ≡ head ++ part
    → r.tailer.position ≡ length head
    → read_line part ≡ none
    → utf8_run start part ≢ start
    → IsLine tail
    → utf8_run start (part ++ tail) ≡ start
    → let now = follow is_blank (polled reopens ∷ grown tail ∷ polled reopens ∷ []) (file, r) in
      IsLine (part ++ tail)
      × (is_utf8 (part ++ tail) ≡ true)
      × (now.0.content ≡ head ++ (part ++ tail))
      × (now.1.tailer.position ≡ length now.0.content)
      × (now.1.sent ≡ r.sent)
unfolding follow
cut_character_is_lost is_blank reopens file r head part tail whole at no_line cut line text =
    let t1 : FileTailer = record r.tailer { position = r.tailer.position + length part } in
    let r1 : Reader = record r { tailer = t1 } in
    let longer : File = record file { content = file.content ++ tail } in
    let t2 : FileTailer = record t1 { position = t1.position + length tail } in
    let content : longer.content ≡ head ++ (part ++ tail) =
      ap (λ l. l ++ tail) whole ∙ append_assoc head part tail in
    let rest_cut =
      cut_rest (utf8_run start part) tail cut (sym (utf8_run-append start part tail) ∙ text) in
    let first =
      round_of_cut is_blank reopens file r part
        (bytes_from file r.tailer.position head part whole at) no_line (is_utf8_inside part cut) in
    let second =
      round_of_bad_line is_blank reopens longer r1 tail []
        (bytes_from longer t1.position (head ++ part) (tail ++ [])
          (ap (λ l. l ++ tail) whole ∙ ap (λ l. (head ++ part) ++ l) (sym (append_nil tail)))
          (omega (arith, at, length-append head part)))
        line rest_cut in
    let both : reader_round is_blank no_fault longer (some longer) reopens
          (reader_round is_blank no_fault file (some file) reopens r)
        ≡ record r { tailer = t2 } =
      ap (reader_round is_blank no_fault longer (some longer) reopens) first ∙ second in
    (
      parts-IsLine part tail no_line line,
      is_utf8_of_start (part ++ tail) text,
      content,
      ap (λ (q : Reader). q.tailer.position) both
          ∙ omega (
            arith,
            at,
            ap length content,
            length-append head (part ++ tail),
            length-append part tail,
          ),
      ap (λ (q : Reader). q.sent) both,
    )
