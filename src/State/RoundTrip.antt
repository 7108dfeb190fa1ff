-- ===== src/State/RoundTrip.antt =====
-- Reading back the state that was written.
use Prim.Native.String
use Prim.Native.String.{[], ◌∷◌, char_at}
use Prim.Native.Nat.{◌≤◌}
use text.Mathlib.TextLemmas.{nil-append, cons-append, append_assoc}
use wazuh_ocsf_etl.Base.{
  ℕ, String, Char, code, [], ◌∷◌, none, some, Bool, true, not, ◌&&◌, ◌≡◌, refl, eqb, is_digit,
  split, to_decimal, arith, AllChars, AllChars-weaken, to_decimal-AllChars, trim_of_digits,
  parse_uint-to_decimal,
}
use wazuh_ocsf_etl.Json.Lookup.{u64_max}
use wazuh_ocsf_etl.State.Text.{
  TailState, strip_prefix, strip_cr, without_last_empty, lines, number, read_lines, load, render,
}

number-to_decimal : (n : ℕ) → n ≤ u64_max → number (to_decimal n) ≡ n
unfolding number
number-to_decimal n h =
    rw (trim_of_digits _ (to_decimal-AllChars n), parse_uint-to_decimal u64_max n h)

-- No line break, and no carriage return.
abbrev is_plain : Char → Bool
is_plain c = not (eqb (code c) 10) && not (eqb (code c) 13)

is_plain_of_digit : (c : Char) → is_digit c ≡ true → is_plain c ≡ true
is_plain_of_digit c h = ground arith

split_line :
    (s t : String) → AllChars is_plain s → split 10 (String.◌++◌ s ("\n" ∷ t)) ≡ s ∷ split 10 t
unfolding split
split_line [] t h = rw nil-append
split_line (c ∷ s) t h = rw cons-append (ground (arith, split_line s t))

strip_cr_of_plain : (s : String) → AllChars is_plain s → strip_cr s ≡ s
unfolding strip_cr
strip_cr_of_plain [] h = refl
strip_cr_of_plain (c ∷ s) h = ground (arith, strip_cr_of_plain s)

strip_prefix-append : (p s : String) → strip_prefix p (String.◌++◌ p s) ≡ some s
unfolding strip_prefix
strip_prefix-append [] s = rw nil-append
strip_prefix-append (c ∷ p) s = rw cons-append (ground (arith, strip_prefix-append p s))

split-nil : split 10 "" ≡ "" ∷ []
unfolding split
split-nil = refl

lines_of_two :
    (s t : String)
    → AllChars is_plain s
    → AllChars is_plain t
    → lines (String.◌++◌ s ("\n" ∷ String.◌++◌ t "\n")) ≡ s ∷ t ∷ []
unfolding lines without_last_empty
lines_of_two s t h k =
    rw
      (split_line s _ h, split_line t [] k, split-nil, strip_cr_of_plain s h, strip_cr_of_plain t k)

inode_line : (n : ℕ) → AllChars is_plain (String.◌++◌ "inode=" (to_decimal n))
inode_line n =
    let d = AllChars-weaken is_digit is_plain _ is_plain_of_digit (to_decimal-AllChars n) in
    rw (cons-append, cons-append, cons-append, cons-append, cons-append, cons-append, nil-append)
      (refl, (refl, (refl, (refl, (refl, (refl, d))))))

offset_line : (n : ℕ) → AllChars is_plain (String.◌++◌ "offset=" (to_decimal n))
offset_line n =
    let d = AllChars-weaken is_digit is_plain _ is_plain_of_digit (to_decimal-AllChars n) in
    rw
      (
        cons-append, cons-append, cons-append, cons-append, cons-append, cons-append, cons-append,
        nil-append,
      )
      (refl, (refl, (refl, (refl, (refl, (refl, (refl, d)))))))

lines-render :
    (s : TailState)
    → lines (render s)
      ≡ String.◌++◌ "inode=" (to_decimal s.inode) ∷ String.◌++◌ "offset=" (to_decimal s.offset) ∷ []
unfolding render
lines-render s =
    let a = to_decimal s.inode in
    let b = to_decimal s.offset in
    rw
      (
        cons-append "\n" "offset=" (String.◌++◌ b "\n"),
        ← append_assoc "offset=" b "\n",
        ← append_assoc "inode=" a _,
      )
      (lines_of_two _ _ (inode_line s.inode) (offset_line s.offset))

other_prefix : (s : String) → strip_prefix "offset=" (String.◌++◌ "inode=" s) ≡ none
unfolding strip_prefix
other_prefix s = rw cons-append

inode_prefix : (s : String) → strip_prefix "inode=" (String.◌++◌ "offset=" s) ≡ none
unfolding strip_prefix
inode_prefix s = rw cons-append

-- The state that is saved is the state that is loaded, for every inode and offset of 64 bits.
pub load-render :
    (s : TailState) → s.inode ≤ u64_max → s.offset ≤ u64_max → load (some (render s)) ≡ s
unfolding load read_lines
load-render s h k =
    rw
      (
        lines-render s,
        other_prefix,
        strip_prefix-append "inode=" (to_decimal s.inode),
        strip_prefix-append "offset=" (to_decimal s.offset),
        inode_prefix,
        number-to_decimal s.inode h,
        number-to_decimal s.offset k,
      )
      refl
