-- ===== src/Tailer/Drain.antt =====
-- src/input/tailer.rs: a reader that has time for many rounds.
use mathlib.Core.Path.{subst}
use wazuh_ocsf_etl.Base.{
  ℕ, zero, suc, ◌+◌, ◌≤◌, List, [], ◌∷◌, ◌++◌, All, Bool, true, Option, none, some, ◌≡◌, refl, sym,
  ap, ◌∙◌, length, length-append, arith, inl, inr, Option-cases, eqb, if-both,
}
use wazuh_ocsf_etl.Tailer.{
  File, Reader, drop, with_head, read_line, no_fault, no_line, took, next_of, next_line, after_line,
  reader_round,
}
use wazuh_ocsf_etl.Tailer.Utf8.{start, utf8_run, is_utf8_of_start}
use wazuh_ocsf_etl.Tailer.Lines.{concat, LineOf, read_line-LineOf, line_apart}
use wazuh_ocsf_etl.Tailer.Follow.{
  Follows, no_rotation, in_range, at_rest, reader_round-Follows, Change, IsText, followed,
  followed-Follows,
}

-- So many rounds, while nothing is appended
unfoldable pub rounds : (List ℕ → Bool) → File → ℕ → Reader → Reader
rounds is_blank file zero r = r
rounds is_blank file (suc n) r =
    rounds is_blank file n (reader_round is_blank no_fault file (some file) true r)

nothing_left : (bytes : List ℕ) → length bytes ≤ 0 → read_line bytes ≡ none
unfolding read_line
nothing_left [] h = refl
nothing_left (b ∷ bytes) h = absurd (omega (arith, h))

-- A line is not empty.
abbrev HasBytes : Option (List ℕ) → Type 0
HasBytes none = Unit
HasBytes (some raw) = 1 ≤ length raw

with_head-HasBytes : (b : ℕ) (o : Option (List ℕ)) → HasBytes (with_head b o)
with_head-HasBytes b none = tt
with_head-HasBytes b (some raw) = omega arith

read_line-HasBytes : (bytes : List ℕ) → HasBytes (read_line bytes)
unfolding read_line
read_line-HasBytes [] = tt
read_line-HasBytes (b ∷ bytes) =
    if-both HasBytes (eqb b b'\n') (omega arith) (with_head-HasBytes b (read_line bytes))

not_empty : (bytes raw : List ℕ) → read_line bytes ≡ some raw → 1 ≤ length raw
not_empty bytes raw e = subst HasBytes e (read_line-HasBytes bytes)

module _ (is_blank : List ℕ → Bool) (head : List ℕ) (file : File) where
  idle_next :
      (r : Reader) (bytes : List ℕ)
      → Follows is_blank head file r
      → utf8_run start bytes ≡ start
      → next_of true none bytes r.tailer ≡ (no_line, r.tailer)
  idle_next r [] f valid = refl
  idle_next r (b ∷ bytes) f valid =
      rw (is_utf8_of_start (b ∷ bytes) valid)
        (ap (λ (n : ℕ). (no_line, record r.tailer { position = n })) (sym f.position))

  idle_round :
      (r : Reader)
      → Follows is_blank head file r
      → read_line (drop r.tailer.position file.content) ≡ none
      → reader_round is_blank no_fault file (some file) true r ≡ r
  unfolding reader_round next_line
  idle_round r f e =
      let bytes = drop r.tailer.position file.content in
      let valid = ap (utf8_run start) (sym (at_rest is_blank head file true r f)) ∙ f.encoded in
      ap (λ o. after_line is_blank (some file) true r.sent (next_of true o bytes r.tailer)) e
      ∙ ap (after_line is_blank (some file) true r.sent) (idle_next r bytes f valid)
      ∙ ap (λ moved. record { tailer = moved.1; sent = r.sent })
          (no_rotation file true r.tailer f.same (in_range is_blank head file true r f))

  busy_round :
      (r : Reader) (raw : List ℕ)
      → Follows is_blank head file r
      → read_line (drop r.tailer.position file.content) ≡ some raw
      → (reader_round is_blank no_fault file (some file) true r).tailer.offset
        ≡ r.tailer.offset + length raw
  unfolding reader_round next_line
  busy_round r raw f e =
      let bytes = drop r.tailer.position file.content in
      let (rest, parts, line) = subst (LineOf bytes) e (read_line-LineOf bytes) in
      let valid = ap (utf8_run start) (sym (at_rest is_blank head file true r f)) ∙ f.encoded in
      let (whole, _) = line_apart raw rest line (ap (utf8_run start) (sym parts) ∙ valid) in
      ap
        (λ o.
          (after_line is_blank (some file) true r.sent
            (next_of true o bytes r.tailer)).tailer.offset)
        e
      ∙ ap (λ b. (after_line is_blank (some file) true r.sent (took b raw r.tailer)).tailer.offset)
          (is_utf8_of_start raw whole)

  idle_rounds :
      (n : ℕ) (r : Reader)
      → Follows is_blank head file r
      → read_line (drop r.tailer.position file.content) ≡ none
      → rounds is_blank file n r ≡ r
  unfolding rounds
  idle_rounds zero r f e = refl
  idle_rounds (suc n) r f e = ap (rounds is_blank file n) (idle_round r f e) ∙ idle_rounds n r f e

  rounds-drain :
      (n : ℕ) (r : Reader)
      → Follows is_blank head file r
      → length file.content ≤ r.tailer.offset + n
      → read_line (drop (rounds is_blank file n r).tailer.position file.content) ≡ none
  unfolding rounds
  rounds-drain zero r f le =
      ap read_line (sym (at_rest is_blank head file true r f))
      ∙ nothing_left f.rest (
          omega
            (arith, le, f.offset, ap length f.whole, length-append (head ++ concat f.raws) f.rest))
  rounds-drain (suc n) r f le =
      elim (Option-cases (read_line (drop r.tailer.position file.content))) [
        | inl idle ↦
            ap (λ x. read_line (drop x.tailer.position file.content)) (idle_rounds (suc n) r f idle)
            ∙ idle
        | inr (raw, busy) ↦
            rounds-drain n (reader_round is_blank no_fault file (some file) true r)
              (reader_round-Follows is_blank head file true r f)
              (omega (arith, le, busy_round r raw f busy, not_empty _ raw busy))
      ]

  rounds-Follows :
      (n : ℕ) (r : Reader)
      → Follows is_blank head file r
      → Follows is_blank head file (rounds is_blank file n r)
  unfolding rounds
  rounds-Follows zero r f = f
  rounds-Follows (suc n) r f =
      rounds-Follows n (reader_round is_blank no_fault file (some file) true r)
        (reader_round-Follows is_blank head file true r f)

-- However the file grew, in portions of whole characters, and the reader looked: as many rounds as the
-- content has bytes leave no complete line behind the reader's offset, if nothing is appended meanwhile. The
-- content at the start is UTF-8.
pub followed-drain :
    (is_blank : List ℕ → Bool) (file : File) (changes : List Change)
    → utf8_run start file.content ≡ start
    → All IsText changes
    → let (now, r) = followed is_blank file changes in
      read_line (drop (rounds is_blank now (length now.content) r).tailer.offset now.content) ≡ none
followed-drain is_blank file changes encoded valid =
    let (now, r) = followed is_blank file changes in
    let f = followed-Follows is_blank file changes encoded valid in
    let n = length now.content in
    ap (λ p. read_line (drop p now.content)) (sym (rounds-Follows is_blank [] now n r f).position)
    ∙ rounds-drain is_blank [] now n r f (omega arith)
