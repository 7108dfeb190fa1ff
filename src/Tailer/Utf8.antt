-- ===== src/Tailer/Utf8.antt =====
-- `String::from_utf8`, by which the reader takes its lines: the well-formed byte sequences of the Unicode
-- standard.
use wazuh_ocsf_etl.Base.{
  ℕ, List, [], ◌∷◌, ◌++◌, Bool, true, false, ◌&&◌, if◌then◌else◌, leb, eqb, ◌≡◌, ◌≢◌, ◌≤◌, refl,
  sym, ap, ◌∙◌, arith,
}

-- Between characters, or with so many continuation bytes to come; behind E0, ED, F0 and F4 the next one has a
-- smaller range.
pub data Utf8 : Type 0 where
  start one two three after_e0 after_ed after_f0 after_f4 invalid : Utf8

abbrev pub between : ℕ → ℕ → ℕ → Bool
between low high b = leb low b && leb b high

abbrev when : Bool → Utf8 → Utf8
when ok s = if ok then s else invalid

abbrev first_byte : ℕ → Utf8
first_byte b =
    if leb b 0x7f
    then start
    else if between 0xc2 0xdf b
    then one
    else if eqb b 0xe0
    then after_e0
    else if eqb b 0xed
    then after_ed
    else if between 0xe1 0xef b
    then two
    else if eqb b 0xf0
    then after_f0
    else if eqb b 0xf4
    then after_f4
    else when (between 0xf1 0xf3 b) three

unfoldable pub utf8_step : Utf8 → ℕ → Utf8
utf8_step start b = first_byte b
utf8_step one b = when (between 0x80 0xbf b) start
utf8_step two b = when (between 0x80 0xbf b) one
utf8_step three b = when (between 0x80 0xbf b) two
utf8_step after_e0 b = when (between 0xa0 0xbf b) one
utf8_step after_ed b = when (between 0x80 0x9f b) one
utf8_step after_f0 b = when (between 0x90 0xbf b) two
utf8_step after_f4 b = when (between 0x80 0x8f b) two
utf8_step invalid b = invalid

unfoldable pub utf8_run : Utf8 → List ℕ → Utf8
utf8_run s [] = s
utf8_run s (b ∷ bytes) = utf8_run (utf8_step s b) bytes

abbrev pub is_start : Utf8 → Bool
is_start start = true
is_start _ = false

unfoldable pub is_utf8 : List ℕ → Bool
unfolding utf8_run
is_utf8 bytes = is_start (utf8_run start bytes)

pub utf8_run-append :
    (s : Utf8) (xs ys : List ℕ) → utf8_run s (xs ++ ys) ≡ utf8_run (utf8_run s xs) ys
unfolding utf8_run
utf8_run-append s [] ys = refl
utf8_run-append s (x ∷ xs) ys = utf8_run-append (utf8_step s x) xs ys

utf8_run_invalid : (bytes : List ℕ) → utf8_run invalid bytes ≡ invalid
unfolding utf8_run utf8_step
utf8_run_invalid [] = refl
utf8_run_invalid (b ∷ bytes) = utf8_run_invalid bytes

start_is_valid : start ≢ invalid
start_is_valid = λ p. cc

-- Bytes that begin a valid sequence
pub valid_prefix :
    (s : Utf8) (xs ys : List ℕ) → utf8_run s (xs ++ ys) ≡ start → utf8_run s xs ≢ invalid
valid_prefix s xs ys h e =
    start_is_valid
      (sym h ∙ utf8_run-append s xs ys ∙ ap (λ t. utf8_run t ys) e ∙ utf8_run_invalid ys)

-- A line feed stands between characters only.
pub line_feed : (s : Utf8) → utf8_step s b'\n' ≢ invalid → utf8_step s b'\n' ≡ start
unfolding utf8_step
line_feed start h = refl
line_feed one h = absurd (h refl)
line_feed two h = absurd (h refl)
line_feed three h = absurd (h refl)
line_feed after_e0 h = absurd (h refl)
line_feed after_ed h = absurd (h refl)
line_feed after_f0 h = absurd (h refl)
line_feed after_f4 h = absurd (h refl)
line_feed invalid h = absurd (h refl)

pub is_utf8_of_start : (bytes : List ℕ) → utf8_run start bytes ≡ start → is_utf8 bytes ≡ true
unfolding is_utf8
is_utf8_of_start bytes h = ap is_start h

-- A byte that goes on with a character begins none.
begins_none :
    (low high b : ℕ) (s : Utf8)
    → 0x80 ≤ low
    → high ≤ 0xbf
    → when (between low high b) s ≢ invalid
    → first_byte b ≡ invalid
begins_none low high b s l h valid = ground arith

continuation :
    (s : Utf8) (b : ℕ) → s ≢ start → utf8_step s b ≢ invalid → utf8_step start b ≡ invalid
unfolding utf8_step
continuation start b inside valid = absurd (inside refl)
continuation one b inside valid = begins_none 0x80 0xbf b start (omega arith) (omega arith) valid
continuation two b inside valid = begins_none 0x80 0xbf b one (omega arith) (omega arith) valid
continuation three b inside valid = begins_none 0x80 0xbf b two (omega arith) (omega arith) valid
continuation after_e0 b inside valid = begins_none 0xa0 0xbf b one (omega arith) (omega arith) valid
continuation after_ed b inside valid = begins_none 0x80 0x9f b one (omega arith) (omega arith) valid
continuation after_f0 b inside valid = begins_none 0x90 0xbf b two (omega arith) (omega arith) valid
continuation after_f4 b inside valid = begins_none 0x80 0x8f b two (omega arith) (omega arith) valid
continuation invalid b inside valid = absurd (valid refl)

not_start : (s : Utf8) → s ≢ start → is_start s ≡ false
not_start start h = absurd (h refl)
not_start one h = refl
not_start two h = refl
not_start three h = refl
not_start after_e0 h = refl
not_start after_ed h = refl
not_start after_f0 h = refl
not_start after_f4 h = refl
not_start invalid h = refl

pub is_utf8_inside : (bytes : List ℕ) → utf8_run start bytes ≢ start → is_utf8 bytes ≡ false
unfolding is_utf8
is_utf8_inside bytes h = not_start (utf8_run start bytes) h

-- Behind a cut inside a character there is no UTF-8.
pub cut_rest :
    (s : Utf8) (bytes : List ℕ) → s ≢ start → utf8_run s bytes ≡ start → is_utf8 bytes ≡ false
unfolding utf8_run
cut_rest s [] inside h = absurd (inside h)
cut_rest s (b ∷ bytes) inside h =
    let valid : utf8_step s b ≢ invalid =
      λ e. start_is_valid (sym h ∙ ap (λ t. utf8_run t bytes) e ∙ utf8_run_invalid bytes) in
    is_utf8_inside (b ∷ bytes) (λ e.
      start_is_valid (
        sym e
        ∙ ap (λ t. utf8_run t bytes) (continuation s b inside valid)
        ∙ utf8_run_invalid bytes))
