-- ===== src/Tailer/Rounds.antt =====
-- src/input/tailer.rs: what one round of the reader does with the bytes in front of it.
use wazuh_ocsf_etl.Base.{
  ℕ, ◌+◌, List, [], ◌∷◌, ◌++◌, Bool, true, false, Option, none, some, ◌≡◌, ◌≢◌, refl, sym, ap, ◌∙◌,
  length, Bool-cases, inl, inr, eqb, ◌≤◌,
}
use wazuh_ocsf_etl.Tailer.{
  File, FileTailer, Reader, drop, with_head, read_line, line_text, no_fault, next_line,
  reader_round,
}
use wazuh_ocsf_etl.Tailer.Utf8.{utf8_run, is_utf8}
use wazuh_ocsf_etl.Tailer.Lines.{IsLine, drop-append, line_of_feed, behind_byte-IsLine}
use wazuh_ocsf_etl.Tailer.Follow.{no_rotation}

-- A line in front of other bytes is what `read_line` finds there.
first_line : (raw rest : List ℕ) → IsLine raw → read_line (raw ++ rest) ≡ some raw
unfolding read_line
first_line [] rest line = cc
first_line (b ∷ raw) rest line = elim (Bool-cases (eqb b b'\n')) [
  | inl on ↦ rw on (ap (λ l. some (b ∷ l)) (sym (line_of_feed b raw on line)))
  | inr off ↦ rw off (ap (with_head b) (first_line raw rest (behind_byte-IsLine b raw off line)))
]

no_feed : (b : ℕ) (o : Option (List ℕ)) → with_head b o ≡ none → o ≡ none
no_feed b none h = refl
no_feed b (some bytes) h = cc

-- A line whose first part has no line feed
pub parts-IsLine :
    (part tail : List ℕ) → read_line part ≡ none → IsLine tail → IsLine (part ++ tail)
unfolding read_line
parts-IsLine [] tail h line = line
parts-IsLine (b ∷ part) tail h line = elim (Bool-cases (eqb b b'\n')) [
  | inl on ↦ let e : some (b ∷ []) ≡ none = simp on at h in cc
  | inr off ↦
      rw off (
        ap (with_head b) (parts-IsLine part tail (no_feed b (read_line part) (simp off at h)) line))
]

module _ (is_blank : List ℕ → Bool) (reopens : Bool) (file : File) (r : Reader) where
  -- The bytes that the reader reads next
  abbrev next_bytes : List ℕ
  next_bytes = drop r.tailer.position file.content

  -- A round that meets a line that is no text: its bytes are read, nothing is sent, and `offset` stays.
  pub round_of_bad_line :
      (raw rest : List ℕ)
      → next_bytes ≡ raw ++ rest
      → IsLine raw
      → is_utf8 raw ≡ false
      → reader_round is_blank no_fault file (some file) reopens r
        ≡ record r { tailer = record r.tailer { position = r.tailer.position + length raw } }
  unfolding reader_round next_line
  round_of_bad_line raw rest e line bad = rw (e, first_line raw rest line, bad) refl

  pub round_of_line :
      (raw rest : List ℕ)
      → next_bytes ≡ raw ++ rest
      → IsLine raw
      → is_utf8 raw ≡ true
      → is_blank (line_text raw) ≡ false
      → reader_round is_blank no_fault file (some file) reopens r ≡ record {
        tailer = record r.tailer {
          offset = r.tailer.offset + length raw;
          position = r.tailer.position + length raw;
        };
        sent = r.sent ++ (r.tailer.offset + length raw, line_text raw) ∷ [];
      }
  unfolding reader_round next_line
  round_of_line raw rest e line text shown = rw (e, first_line raw rest line, text, shown) refl

  -- A round that meets a part of a line that is cut inside a character
  pub round_of_cut :
      (part : List ℕ)
      → next_bytes ≡ part
      → read_line part ≡ none
      → is_utf8 part ≡ false
      → reader_round is_blank no_fault file (some file) reopens r
        ≡ record r { tailer = record r.tailer { position = r.tailer.position + length part } }
  unfolding reader_round next_line is_utf8 utf8_run
  round_of_cut [] e no_line cut = cc
  round_of_cut (b ∷ part) e no_line cut = rw (e, no_line, cut) refl

  -- A round that meets a part of a line that is text: back to `offset`.
  pub round_of_part :
      (part : List ℕ)
      → next_bytes ≡ part
      → part ≢ []
      → read_line part ≡ none
      → is_utf8 part ≡ true
      → r.tailer.inode ≡ file.inode
      → r.tailer.offset ≤ length file.content
      → reader_round is_blank no_fault file (some file) reopens r
        ≡ record r { tailer = record r.tailer { position = r.tailer.offset } }
  unfolding reader_round next_line
  round_of_part [] e some_byte no_line text same fits = absurd (some_byte refl)
  round_of_part (b ∷ part) e some_byte no_line text same fits =
      let t : FileTailer = record r.tailer { position = r.tailer.offset } in
      rw (e, no_line, text, no_rotation file reopens t same fits) refl

pub bytes_from :
    (file : File) (n : ℕ) (head bytes : List ℕ)
    → file.content ≡ head ++ bytes
    → n ≡ length head
    → drop n file.content ≡ bytes
bytes_from file n head bytes whole at =
    ap (drop n) whole ∙ ap (λ m. drop m (head ++ bytes)) at ∙ drop-append head bytes
