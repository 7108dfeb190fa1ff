-- ===== src/Tailer/Follow.antt =====
-- src/input/tailer.rs: a reader that follows a file that grows.
use mathlib.Core.Path.{subst}
use wazuh_ocsf_etl.Base.{
  ℕ, ◌+◌, ◌≤◌, List, [], ◌∷◌, ◌++◌, Bool, true, false, Option, none, some, ◌≡◌, refl, sym, ap, ◌∙◌,
  length, length-append, All, All-append, arith,
}
use wazuh_ocsf_etl.Tailer.{
  File, FileTailer, Reader, open_at, drop, read_line, line_text, no_line, no_fault, took, next_of,
  next_line, check_rotation, send, after_line, reader_round,
}
use wazuh_ocsf_etl.Tailer.Utf8.{start, utf8_run, utf8_run-append, is_utf8, is_utf8_of_start}
use wazuh_ocsf_etl.Tailer.Lines.{
  concat, IsLine, lines_from, append_assoc, append_nil, drop-append, concat-append,
  lines_from-append, LineOf, read_line-LineOf, line_apart,
}

-- The reader has gone through whole lines, from behind the bytes `head` of the content, and has sent just
-- these, the blank ones left out; `rest` is what it has not read.
pub record Follows (is_blank : List ℕ → Bool) (head : List ℕ) (file : File) (r : Reader)
    : Type 0 where
  pub raws : List (List ℕ)
  pub rest : List ℕ
  pub whole : file.content ≡ (head ++ concat raws) ++ rest
  pub offset : r.tailer.offset ≡ length (head ++ concat raws)
  pub position : r.tailer.position ≡ r.tailer.offset
  pub same : r.tailer.inode ≡ file.inode
  pub whole_lines : All IsLine raws
  pub sent : r.sent ≡ lines_from is_blank (length head) raws
  pub encoded : utf8_run start rest ≡ start

pub no_rotation :
    (file : File) (reopens : Bool) (t : FileTailer)
    → t.inode ≡ file.inode
    → t.offset ≤ length file.content
    → check_rotation (some file) reopens t ≡ (false, t)
unfolding check_rotation
no_rotation file reopens t same le = ground arith

module _ (is_blank : List ℕ → Bool) (head : List ℕ) (file : File) (reopens : Bool) (r : Reader)
    (f : Follows is_blank head file r) where
  pub in_range : r.tailer.offset ≤ length file.content
  in_range =
      omega (arith, f.offset, ap length f.whole, length-append (head ++ concat f.raws) f.rest)

  from_head : r.tailer.offset ≡ length head + length (concat f.raws)
  from_head = omega (arith, f.offset, length-append head (concat f.raws))

  pub at_rest : f.rest ≡ drop r.tailer.position file.content
  at_rest =
      sym (drop-append (head ++ concat f.raws) f.rest)
      ∙ ap (λ n. drop n ((head ++ concat f.raws) ++ f.rest)) (sym (f.position ∙ f.offset))
      ∙ ap (drop r.tailer.position) (sym f.whole)

  -- A line of the rest is taken.
  took-Follows :
      (raw rest : List ℕ)
      → f.rest ≡ raw ++ rest
      → IsLine raw
      → Follows is_blank head file
          (after_line is_blank (some file) reopens r.sent (took (is_utf8 raw) raw r.tailer))
  took-Follows raw rest e line =
      let (valid, encoded) = line_apart raw rest line (ap (utf8_run start) (sym e) ∙ f.encoded) in
      let grown : head ++ concat (f.raws ++ raw ∷ []) ≡ (head ++ concat f.raws) ++ raw =
        ap (λ l. head ++ l) (concat-append f.raws raw)
        ∙ sym (append_assoc head (concat f.raws) raw) in
      rw (is_utf8_of_start raw valid) (record {
        raws = f.raws ++ raw ∷ [];
        rest = rest;
        whole =
            f.whole
            ∙ ap (λ l. (head ++ concat f.raws) ++ l) e
            ∙ sym (append_assoc (head ++ concat f.raws) raw rest)
            ∙ ap (λ l. l ++ rest) (sym grown);
        offset =
            omega (arith, f.offset, length-append (head ++ concat f.raws) raw, ap length grown);
        position = omega (arith, f.position);
        same = f.same;
        whole_lines = All-append IsLine f.raws (raw ∷ []) f.whole_lines (line, tt);
        sent =
            ap (λ l. l ++ send is_blank (r.tailer.offset + length raw) (line_text raw)) f.sent
            ∙ ap
                (λ n.
                  lines_from is_blank (length head) f.raws
                  ++ send is_blank (n + length raw) (line_text raw))
                from_head
            ∙ sym (lines_from-append is_blank (length head) f.raws raw);
        encoded = encoded;
      })

  -- There is no line in the rest yet.
  waits :
      (t : FileTailer)
      → t ≡ r.tailer
      → Follows is_blank head file (after_line is_blank (some file) reopens r.sent (no_line, t))
  waits t e =
      subst
        (λ u.
          Follows is_blank head file (after_line is_blank (some file) reopens r.sent (no_line, u)))
        (sym e) (rw (no_rotation file reopens r.tailer f.same in_range) f)

  next_of-Follows :
      (o : Option (List ℕ)) (bytes : List ℕ)
      → f.rest ≡ bytes
      → LineOf bytes o
      → Follows is_blank head file
          (after_line is_blank (some file) reopens r.sent (next_of true o bytes r.tailer))
  next_of-Follows none [] e h = waits r.tailer refl
  next_of-Follows none (b ∷ bytes) e h =
      let valid = is_utf8_of_start (b ∷ bytes) (ap (utf8_run start) (sym e) ∙ f.encoded) in
      rw valid (
        waits (record r.tailer { position = r.tailer.offset })
          (ap (λ (n : ℕ). record r.tailer { position = n }) (sym f.position)))
  next_of-Follows (some raw) bytes e (rest, parts, line) = took-Follows raw rest (e ∙ parts) line

  pub reader_round-Follows :
      Follows is_blank head file (reader_round is_blank no_fault file (some file) reopens r)
  unfolding reader_round next_line
  reader_round-Follows =
      next_of-Follows (read_line (drop r.tailer.position file.content))
        (drop r.tailer.position file.content) at_rest
        (read_line-LineOf (drop r.tailer.position file.content))

-- What happens to the file and the reader: bytes are appended, or the loop makes a round.
pub data Change : Type 0 where
  grown : List ℕ → Change
  polled : Bool → Change

abbrev pub change : (List ℕ → Bool) → Change → File × Reader → File × Reader
change is_blank (grown bytes) (file, r) = (record file { content = file.content ++ bytes }, r)
change is_blank (polled reopens) (file, r) =
    (file, reader_round is_blank no_fault file (some file) reopens r)

unfoldable pub follow : (List ℕ → Bool) → List Change → File × Reader → File × Reader
follow is_blank [] now = now
follow is_blank (c ∷ changes) now = follow is_blank changes (change is_blank c now)

grown-Follows :
    (is_blank : List ℕ → Bool) (head : List ℕ) (file : File) (r : Reader) (bytes : List ℕ)
    → utf8_run start bytes ≡ start
    → Follows is_blank head file r
    → Follows is_blank head (record file { content = file.content ++ bytes }) r
grown-Follows is_blank head file r bytes valid f = record {
  raws = f.raws;
  rest = f.rest ++ bytes;
  whole = ap (λ l. l ++ bytes) f.whole ∙ append_assoc (head ++ concat f.raws) f.rest bytes;
  offset = f.offset;
  position = f.position;
  same = f.same;
  whole_lines = f.whole_lines;
  sent = f.sent;
  encoded = utf8_run-append start f.rest bytes ∙ ap (λ s. utf8_run s bytes) f.encoded ∙ valid;
}

-- The portions that are appended are whole characters.
abbrev pub IsText : Change → Type 0
IsText (grown bytes) = utf8_run start bytes ≡ start
IsText (polled reopens) = Unit

pub follow-Follows :
    (is_blank : List ℕ → Bool) (head : List ℕ) (changes : List Change) (now : File × Reader)
    → All IsText changes
    → Follows is_blank head now.0 now.1
    → Follows is_blank head (follow is_blank changes now).0 (follow is_blank changes now).1
unfolding follow
follow-Follows is_blank head [] now _ f = f
follow-Follows is_blank head (grown bytes ∷ changes) (file, r) (valid, rest) f =
    follow-Follows is_blank head changes _ rest (grown-Follows is_blank head file r bytes valid f)
follow-Follows is_blank head (polled reopens ∷ changes) (file, r) (_, rest) f =
    follow-Follows is_blank head changes _ rest
      (reader_round-Follows is_blank head file reopens r f)

-- The content and the reader behind some changes, from a start of the reader
abbrev pub followed_from : (List ℕ → Bool) → ℕ → File → List Change → File × Reader
followed_from is_blank offset file changes =
    follow is_blank changes (file, record { tailer = open_at file offset; sent = [] })

abbrev pub followed : (List ℕ → Bool) → File → List Change → File × Reader
followed is_blank file changes = followed_from is_blank 0 file changes

-- A reader that is opened behind the bytes `head`
pub opened-Follows :
    (is_blank : List ℕ → Bool) (head rest : List ℕ) (file : File)
    → file.content ≡ head ++ rest
    → utf8_run start rest ≡ start
    → Follows is_blank head file (record { tailer = open_at file (length head); sent = [] })
unfolding open_at
opened-Follows is_blank head rest file whole encoded = record {
  raws = [];
  rest = rest;
  whole = whole ∙ ap (λ l. l ++ rest) (sym (append_nil head));
  offset = ap length (sym (append_nil head));
  position = refl;
  same = refl;
  whole_lines = tt;
  sent = refl;
  encoded = encoded;
}

-- A reader that starts at the beginning of a file, which others append to meanwhile in any portions of whole
-- characters, has at each moment sent exactly the texts of the complete lines up to its offset, in order, the
-- blank ones left out, each with the offset behind it; the bytes that it has not sent are those from its
-- offset on. No line is sent in part, twice, or left out, whenever the reader looks. The content at the start
-- is UTF-8.
pub followed-Follows :
    (is_blank : List ℕ → Bool) (file : File) (changes : List Change)
    → utf8_run start file.content ≡ start
    → All IsText changes
    → Follows is_blank [] (followed is_blank file changes).0 (followed is_blank file changes).1
followed-Follows is_blank file changes encoded valid =
    follow-Follows is_blank [] changes _ valid
      (opened-Follows is_blank [] file.content file refl encoded)
