-- ===== src/Tailer/Lines.antt =====
-- src/input/tailer.rs: the lines of a file, and what is to be sent of them.
use wazuh_ocsf_etl.Base.{
  ℕ, ◌+◌, List, [], ◌∷◌, ◌++◌, Bool, true, false, Option, none, some, ◌≡◌, ◌≢◌, refl, sym, ap, ◌∙◌,
  eqb, length, length-append, arith, Bool-cases, inl, inr, eqb,
}
use wazuh_ocsf_etl.Tailer.{drop, with_head, read_line, line_text, send}
use wazuh_ocsf_etl.Tailer.Utf8.{
  Utf8, start, invalid, utf8_step, utf8_run, utf8_run-append, valid_prefix, line_feed,
}

abbrev pub concat : List (List ℕ) → List ℕ
concat [] = []
concat (raw ∷ raws) = raw ++ concat raws

-- Bytes up to their only line feed, at the end
abbrev pub IsLine : List ℕ → Type 0
IsLine raw = read_line raw ≡ some raw

-- What is to be sent of lines that begin at an offset
abbrev pub lines_from : (List ℕ → Bool) → ℕ → List (List ℕ) → List (ℕ × List ℕ)
lines_from is_blank offset [] = []
lines_from is_blank offset (raw ∷ raws) =
    send is_blank (offset + length raw) (line_text raw)
    ++ lines_from is_blank (offset + length raw) raws

module _ {ℓ} {A : Type ℓ} where
  pub append_assoc : (xs ys zs : List A) → (xs ++ ys) ++ zs ≡ xs ++ (ys ++ zs)
  append_assoc [] ys zs = refl
  append_assoc (x ∷ xs) ys zs = ap (λ l. x ∷ l) (append_assoc xs ys zs)

  pub append_nil : (xs : List A) → xs ++ [] ≡ xs
  append_nil [] = refl
  append_nil (x ∷ xs) = ap (λ l. x ∷ l) (append_nil xs)

pub drop-append : (xs ys : List ℕ) → drop (length xs) (xs ++ ys) ≡ ys
unfolding drop
drop-append [] ys = refl
drop-append (x ∷ xs) ys = drop-append xs ys

pub concat-append :
    (raws : List (List ℕ)) (raw : List ℕ) → concat (raws ++ raw ∷ []) ≡ concat raws ++ raw
concat-append [] raw = append_nil raw
concat-append (r ∷ raws) raw =
    ap (λ l. r ++ l) (concat-append raws raw) ∙ sym (append_assoc r (concat raws) raw)

pub lines_from-append :
    (is_blank : List ℕ → Bool) (offset : ℕ) (raws : List (List ℕ)) (raw : List ℕ)
    → lines_from is_blank offset (raws ++ raw ∷ [])
      ≡ lines_from is_blank offset raws
        ++ send is_blank (offset + length (concat raws) + length raw) (line_text raw)
lines_from-append is_blank offset [] raw =
    append_nil _ ∙ ap (λ n. send is_blank (n + length raw) (line_text raw)) (omega arith)
lines_from-append is_blank offset (r ∷ raws) raw =
    let here = send is_blank (offset + length r) (line_text r) in
    let move : offset + length r + length (concat raws) ≡ offset + length (r ++ concat raws) =
      omega (arith, length-append r (concat raws)) in
    ap (λ l. here ++ l)
      (lines_from-append is_blank (offset + length r) raws raw
        ∙ ap
            (λ n.
              lines_from is_blank (offset + length r) raws
              ++ send is_blank (n + length raw) (line_text raw))
            move)
    ∙ sym (append_assoc here _ _)

-- What `read_line` finds is the next line of the bytes.
abbrev pub LineOf : List ℕ → Option (List ℕ) → Type 0
LineOf bytes none = Unit
LineOf bytes (some raw) = (rest : List ℕ) × (bytes ≡ raw ++ rest) × IsLine raw

with_head-LineOf :
    (b : ℕ) (bytes : List ℕ) (o : Option (List ℕ))
    → eqb b b'\n' ≡ false
    → LineOf bytes o
    → LineOf (b ∷ bytes) (with_head b o)
unfolding read_line
with_head-LineOf b bytes none off h = tt
with_head-LineOf b bytes (some raw) off (rest, e, h) = (rest, ap (λ l. b ∷ l) e, rw (off, h) refl)

pub read_line-LineOf : (bytes : List ℕ) → LineOf bytes (read_line bytes)
unfolding read_line
read_line-LineOf [] = tt
read_line-LineOf (b ∷ bytes) = elim (Bool-cases (eqb b b'\n')) [
  | inl on ↦ rw on (bytes, refl, rw on refl)
  | inr off ↦ rw off (with_head-LineOf b bytes (read_line bytes) off (read_line-LineOf bytes))
]

-- A line is its line feed, or a byte in front of a line.
pub line_of_feed : (b : ℕ) (bytes : List ℕ) → eqb b b'\n' ≡ true → IsLine (b ∷ bytes) → bytes ≡ []
unfolding read_line
line_of_feed b bytes on line = rest_of (simp on at line)
  where
    rest_of : some (b ∷ []) ≡ some (b ∷ bytes) → bytes ≡ []
    rest_of e = cc

pub behind_byte-IsLine :
    (b : ℕ) (bytes : List ℕ) → eqb b b'\n' ≡ false → IsLine (b ∷ bytes) → IsLine bytes
unfolding read_line
behind_byte-IsLine b bytes off line = rest_of (read_line bytes) (simp off at line)
  where
    rest_of : (o : Option (List ℕ)) → with_head b o ≡ some (b ∷ bytes) → o ≡ some bytes
    rest_of none e = cc
    rest_of (some raw) e = cc

-- A line, of bytes that go on as UTF-8, ends between characters.
line_ends :
    (s : Utf8) (raw : List ℕ) → IsLine raw → utf8_run s raw ≢ invalid → utf8_run s raw ≡ start
unfolding utf8_run read_line
line_ends s [] line valid = cc
line_ends s (b ∷ bytes) line valid = elim (Bool-cases (eqb b b'\n')) [
  | inl on ↦
      let last : utf8_run s (b ∷ bytes) ≡ utf8_step s b'\n' =
        ap (utf8_run (utf8_step s b)) (line_of_feed b bytes on line)
        ∙ ap (utf8_step s) (ground (arith, on)) in
      last ∙ line_feed s (λ e. valid (last ∙ e))
  | inr off ↦ line_ends (utf8_step s b) bytes (behind_byte-IsLine b bytes off line) valid
]

-- A line at the beginning of a text is UTF-8 by itself, and so is the rest.
pub line_apart :
    (raw rest : List ℕ)
    → IsLine raw
    → utf8_run start (raw ++ rest) ≡ start
    → (utf8_run start raw ≡ start) × (utf8_run start rest ≡ start)
line_apart raw rest line h =
    let ended = line_ends start raw line (valid_prefix start raw rest h) in
    (ended, ap (λ s. utf8_run s rest) (sym ended) ∙ sym (utf8_run-append start raw rest) ∙ h)
