-- ===== src/Tailer/Resume.antt =====
-- src/input/tailer.rs: a reader that goes on behind the lines that were taken of an earlier one.
use mathlib.Core.Path.{subst}
use wazuh_ocsf_etl.Base.{
  ℕ, ◌+◌, ◌≤◌, List, [], ◌∷◌, ◌++◌, Bool, ◌≡◌, refl, sym, ap, ◌∙◌, All, All-append, length,
  length-append, map, arith, Bool-cases, inl, inr,
}
use wazuh_ocsf_etl.Tailer.{File, Reader, send, line_text}
use wazuh_ocsf_etl.Tailer.Utf8.{start, utf8_run, utf8_run-append}
use wazuh_ocsf_etl.Tailer.Lines.{concat, IsLine, lines_from, append_assoc, line_apart}
use wazuh_ocsf_etl.Tailer.Follow.{
  Follows, Change, grown, polled, IsText, follow, followed_from, follow-Follows, opened-Follows,
}

-- The offset of the last of some lines
abbrev pub last_offset : {A : Type 0} → ℕ → List (ℕ × A) → ℕ
last_offset n [] = n
last_offset n ((offset, text) ∷ rest) = last_offset offset rest

pub last_offset-map :
    {A B : Type 0} (f : A → B) (n : ℕ) (l : List (ℕ × A))
    → last_offset n (map (λ e. (e.0, f e.1)) l) ≡ last_offset n l
last_offset-map f n [] = refl
last_offset-map f n ((offset, text) ∷ l) = last_offset-map f offset l

-- Lines up to the last one that was taken, and those behind it
pub record IsTaken (is_blank : List ℕ → Bool) (n : ℕ) (raws : List (List ℕ))
    (taken : List (ℕ × List ℕ)) : Type 0 where
  pub before : List (List ℕ)
  pub after : List (List ℕ)
  pub parts : raws ≡ before ++ after
  pub exact : lines_from is_blank n before ≡ taken
  pub ends : last_offset n taken ≡ n + length (concat before)

cons_parts : {A : Type 0} (x y : A) (xs ys : List A) → x ∷ xs ≡ y ∷ ys → (x ≡ y) × (xs ≡ ys)
cons_parts x y xs ys h = (cc, cc)

pub lines_from-IsTaken :
    (is_blank : List ℕ → Bool) (n : ℕ) (raws : List (List ℕ)) (taken untaken : List (ℕ × List ℕ))
    → lines_from is_blank n raws ≡ taken ++ untaken
    → IsTaken is_blank n raws taken
lines_from-IsTaken is_blank n raws [] untaken h = record {
  before = [];
  after = raws;
  parts = refl;
  exact = refl;
  ends = omega arith;
}
lines_from-IsTaken is_blank n [] (t ∷ taken) untaken h = cc
lines_from-IsTaken is_blank n (raw ∷ raws) ((o, text) ∷ taken) untaken h =
    let next = n + length raw in
    elim (Bool-cases (is_blank (line_text raw))) [
      | inl blank ↦
          let k =
            lines_from-IsTaken is_blank next raws ((o, text) ∷ taken) untaken (simp blank at h) in
          record {
            before = raw ∷ k.before;
            after = k.after;
            parts = ap (λ l. raw ∷ l) k.parts;
            exact = simp blank k.exact;
            ends = omega (arith, k.ends, length-append raw (concat k.before));
          }
      | inr shown ↦
          let (here, later) =
            cons_parts (next, line_text raw) (o, text) (lines_from is_blank next raws)
              (taken ++ untaken) (simp shown at h) in
          let k = lines_from-IsTaken is_blank next raws taken untaken later in
          record {
            before = raw ∷ k.before;
            after = k.after;
            parts = ap (λ l. raw ∷ l) k.parts;
            exact = simp shown (cc (here, k.exact));
            ends =
                ap (λ m. last_offset m taken) (sym (ap (λ (e : ℕ × List ℕ). e.0) here))
                ∙ omega (arith, k.ends, length-append raw (concat k.before));
          }
    ]

All_parts : {A : Type 0} (P : A → Type 0) (xs ys : List A) → All P (xs ++ ys) → All P xs × All P ys
All_parts P [] ys h = (tt, h)
All_parts P (x ∷ xs) ys (p, h) = let (left, right) = All_parts P xs ys h in ((p, left), right)

concat-lists : (xs ys : List (List ℕ)) → concat (xs ++ ys) ≡ concat xs ++ concat ys
concat-lists [] ys = refl
concat-lists (x ∷ xs) ys =
    ap (λ l. x ++ l) (concat-lists xs ys) ∙ sym (append_assoc x (concat xs) (concat ys))

lines_from-lists :
    (is_blank : List ℕ → Bool) (n : ℕ) (xs ys : List (List ℕ))
    → lines_from is_blank n (xs ++ ys)
      ≡ lines_from is_blank n xs ++ lines_from is_blank (n + length (concat xs)) ys
lines_from-lists is_blank n [] ys = ap (λ m. lines_from is_blank m ys) (omega arith)
lines_from-lists is_blank n (x ∷ xs) ys =
    let here = send is_blank (n + length x) (line_text x) in
    let move : n + length x + length (concat xs) ≡ n + length (x ++ concat xs) =
      omega (arith, length-append x (concat xs)) in
    ap (λ l. here ++ l)
      (lines_from-lists is_blank (n + length x) xs ys
        ∙ ap (λ m. lines_from is_blank (n + length x) xs ++ lines_from is_blank m ys) move)
    ∙ sym (append_assoc here _ _)

-- Behind whole lines of a text there is a text.
concat_apart :
    (raws : List (List ℕ)) (rest : List ℕ)
    → All IsLine raws
    → utf8_run start (concat raws ++ rest) ≡ start
    → utf8_run start rest ≡ start
concat_apart [] rest lines h = h
concat_apart (raw ∷ raws) rest (line, lines) h =
    concat_apart raws rest lines
      (line_apart raw (concat raws ++ rest) line
        (ap (utf8_run start) (sym (append_assoc raw (concat raws) rest)) ∙ h)).1

pub follow_encoded :
    (is_blank : List ℕ → Bool) (changes : List Change) (now : File × Reader)
    → All IsText changes
    → utf8_run start now.0.content ≡ start
    → utf8_run start (follow is_blank changes now).0.content ≡ start
unfolding follow
follow_encoded is_blank [] now _ h = h
follow_encoded is_blank (grown bytes ∷ changes) (file, r) (valid, rest) h =
    follow_encoded is_blank changes _ rest
      (utf8_run-append start file.content bytes ∙ ap (λ s. utf8_run s bytes) h ∙ valid)
follow_encoded is_blank (polled reopens ∷ changes) (file, r) (_, rest) h =
    follow_encoded is_blank changes _ rest h

-- All complete lines of a file up to the offset of a reader have been sent, the blank ones left out, by an
-- earlier reader or by this one.
pub record SentOnce (is_blank : List ℕ → Bool) (earlier : List (ℕ × List ℕ)) (now : File × Reader)
    : Type 0 where
  pub raws : List (List ℕ)
  pub rest : List ℕ
  pub whole : now.0.content ≡ concat raws ++ rest
  pub whole_lines : All IsLine raws
  pub offset : now.1.tailer.offset ≡ length (concat raws)
  pub sent : earlier ++ now.1.sent ≡ lines_from is_blank 0 raws

module _ (is_blank : List ℕ → Bool) where
  -- What a reader has sent once it goes on behind lines that were taken
  resumed-SentOnce :
      (before : List (List ℕ)) (taken : List (ℕ × List ℕ)) (now : File × Reader)
      → All IsLine before
      → lines_from is_blank 0 before ≡ taken
      → Follows is_blank (concat before) now.0 now.1
      → SentOnce is_blank taken now
  resumed-SentOnce before taken now lines exact g =
      let whole = concat-lists before g.raws in
      record {
        raws = before ++ g.raws;
        rest = g.rest;
        whole = g.whole ∙ ap (λ l. l ++ g.rest) (sym whole);
        whole_lines = All-append IsLine before g.raws lines g.whole_lines;
        offset = g.offset ∙ ap length (sym whole);
        sent =
            ap (λ l. taken ++ l) g.sent
            ∙ ap (λ l. l ++ lines_from is_blank (length (concat before)) g.raws) (sym exact)
            ∙ ap (λ m. lines_from is_blank 0 before ++ lines_from is_blank m g.raws) (omega arith)
            ∙ sym (lines_from-lists is_blank 0 before g.raws);
      }

  module _ (file : File) (r : Reader) (f : Follows is_blank [] file r) (taken : List (ℕ × List ℕ))
      (k : IsTaken is_blank 0 f.raws taken) where
    split : file.content ≡ concat k.before ++ (concat k.after ++ f.rest)
    split =
        f.whole
        ∙ ap (λ l. concat l ++ f.rest) k.parts
        ∙ ap (λ l. l ++ f.rest) (concat-lists k.before k.after)
        ∙ append_assoc (concat k.before) (concat k.after) f.rest

    before_lines : All IsLine k.before
    before_lines = (All_parts IsLine k.before k.after (subst (All IsLine) k.parts f.whole_lines)).0

    pub taken_in_range : last_offset 0 taken ≤ length file.content
    taken_in_range =
        omega (
          arith,
          k.ends,
          ap length split,
          length-append (concat k.before) (concat k.after ++ f.rest),
        )

    module _ (more : List ℕ) (changes : List Change) (encoded : utf8_run start file.content ≡ start)
        (more_encoded : utf8_run start more ≡ start) (valid : All IsText changes) where
      behind : utf8_run start ((concat k.after ++ f.rest) ++ more) ≡ start
      behind =
          utf8_run-append start (concat k.after ++ f.rest) more
          ∙ ap (λ s. utf8_run s more)
              (concat_apart k.before (concat k.after ++ f.rest) before_lines
                (ap (utf8_run start) (sym split) ∙ encoded))
          ∙ more_encoded

      pub second_session : SentOnce is_blank taken (
          followed_from is_blank
            (last_offset 0 taken)
            (record file { content = file.content ++ more })
            changes)
      second_session =
          let again : File = record file { content = file.content ++ more } in
          subst (λ n. SentOnce is_blank taken (followed_from is_blank n again changes))
            (omega (arith, k.ends))
            (resumed-SentOnce k.before taken _ before_lines k.exact (
              follow-Follows is_blank (concat k.before) changes _ valid (
                opened-Follows is_blank (concat k.before) ((concat k.after ++ f.rest) ++ more) again
                  (ap (λ l. l ++ more) split
                    ∙ append_assoc (concat k.before) (concat k.after ++ f.rest) more)
                  behind)))
