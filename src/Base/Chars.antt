-- ===== src/Base/Chars.antt =====
-- Laws of the text functions: what holds of every character, lower case, trimming.
use Prim.Native.Nat.{ℕ, zero, suc, ◌-◌, ◌<◌}
use Prim.Native.Char.{Char, code}
use Prim.Native.String
use Prim.Native.String.{String, [], ◌∷◌, char_at}
use mathlib.Core.Path.{◌≡◌, refl}
use mathlib.Core.Bool.{Bool, true, false, ◌&&◌, ◌||◌, not}
use mathlib.Core.Option.{some}
use text.Mathlib.TextLemmas.{nil-append, cons-append}
use native.Mathlib.Omega.{arith}
use wazuh_ocsf_etl.Base.Tests.{eqb}
use wazuh_ocsf_etl.Base.Text.{
  is_lower, is_digit, is_word, lower_char, to_ascii_lowercase, trim_start_matches, trim_end_matches,
  trim_matches, split_once,
}

-- A test that every character passes.
abbrev pub AllChars : (Char → Bool) → String → Type 0
AllChars p [] = Unit
AllChars p (c ∷ s) = (p c ≡ true) × AllChars p s

-- `[a-z0-9_]`
abbrev pub is_lower_word : Char → Bool
is_lower_word c = is_lower c || is_digit c || eqb (code c) b'_'

-- The test passes at every number under the bound.
unfoldable pub passes_under : (ℕ → Bool) → ℕ → Bool
passes_under test zero = true
passes_under test (suc bound) = passes_under test bound && test bound

pub passes_under_at :
    (test : ℕ → Bool) (bound i : ℕ) → i < bound → passes_under test bound ≡ true → test i ≡ true
unfolding passes_under
passes_under_at test zero i less passed = absurd (omega arith)
passes_under_at test (suc bound) i less passed = ground (arith, passes_under_at test bound i)

alphabet_table : passes_under (λ k. is_lower (char_at "abcdefghijklmnopqrstuvwxyz" k)) 26 ≡ true
unfolding passes_under
alphabet_table = refl

letter_is_lower : (k : ℕ) → k < 26 → is_lower (char_at "abcdefghijklmnopqrstuvwxyz" k) ≡ true
letter_is_lower k h = passes_under_at _ 26 k h alphabet_table

pub lower_char-word : (c : Char) → is_word c ≡ true → is_lower_word (lower_char c) ≡ true
lower_char-word c h = ground (arith, letter_is_lower (code c - b'A'))

pub lower_char_of_lower_word : (c : Char) → is_lower_word c ≡ true → lower_char c ≡ c
lower_char_of_lower_word c h = ground arith

pub to_ascii_lowercase-AllChars :
    (s : String) → AllChars is_word s → AllChars is_lower_word (to_ascii_lowercase s)
unfolding to_ascii_lowercase
to_ascii_lowercase-AllChars [] h = tt
to_ascii_lowercase-AllChars (c ∷ s) (p, h) = (lower_char-word c p, to_ascii_lowercase-AllChars s h)

pub to_ascii_lowercase_of_lower : (s : String) → AllChars is_lower_word s → to_ascii_lowercase s ≡ s
unfolding to_ascii_lowercase
to_ascii_lowercase_of_lower [] h = refl
to_ascii_lowercase_of_lower (c ∷ s) (p, h) =
    cc (lower_char_of_lower_word c p, to_ascii_lowercase_of_lower s h)

module _ (p : Char → Bool) where
  pub trim_start_matches-AllChars :
      (q : Char → Bool) (s : String) → AllChars q s → AllChars q (trim_start_matches p s)
  unfolding trim_start_matches
  trim_start_matches-AllChars q [] h = tt
  trim_start_matches-AllChars q (c ∷ s) h = ground (arith, trim_start_matches-AllChars q s)

  pub trim_end_matches-AllChars :
      (q : Char → Bool) (s : String) → AllChars q s → AllChars q (trim_end_matches p s)
  unfolding trim_end_matches
  trim_end_matches-AllChars q [] h = tt
  trim_end_matches-AllChars q (c ∷ s) h = ground (arith, trim_end_matches-AllChars q s)

  trim_end_matches_idem :
      (s : String) → trim_end_matches p (trim_end_matches p s) ≡ trim_end_matches p s
  unfolding trim_end_matches
  trim_end_matches_idem [] = refl
  trim_end_matches_idem (c ∷ s) = ground (arith, trim_end_matches_idem s)

  pub trim_matches-AllChars :
      (q : Char → Bool) (s : String) → AllChars q s → AllChars q (trim_matches p s)
  unfolding trim_matches
  trim_matches-AllChars q s h = trim_end_matches-AllChars q _ (trim_start_matches-AllChars q s h)

  abbrev StartsClean : String → Type 0
  StartsClean [] = Unit
  StartsClean (c ∷ s) = p c ≡ false

  trim_start_matches-StartsClean : (s : String) → StartsClean (trim_start_matches p s)
  unfolding trim_start_matches
  trim_start_matches-StartsClean [] = tt
  trim_start_matches-StartsClean (c ∷ s) = ground (arith, trim_start_matches-StartsClean s)

  trim_end_matches-StartsClean : (s : String) → StartsClean s → StartsClean (trim_end_matches p s)
  unfolding trim_end_matches
  trim_end_matches-StartsClean [] h = tt
  trim_end_matches-StartsClean (c ∷ s) h = ground arith

  trim_start_matches_of_StartsClean : (s : String) → StartsClean s → trim_start_matches p s ≡ s
  unfolding trim_start_matches
  trim_start_matches_of_StartsClean [] h = refl
  trim_start_matches_of_StartsClean (c ∷ s) h = ground arith

  -- Trimming twice is trimming once: no matching character is left at either end.
  pub trim_matches_idem : (s : String) → trim_matches p (trim_matches p s) ≡ trim_matches p s
  unfolding trim_matches
  trim_matches_idem s =
      let clean = trim_end_matches-StartsClean _ (trim_start_matches-StartsClean s) in
      rw (trim_start_matches_of_StartsClean _ clean) (trim_end_matches_idem _)

-- The first separator is the one behind a text that holds none.
pub split_once_at :
    (sep : Char) (s t : String)
    → AllChars (λ d. not (eqb (code d) (code sep))) s
    → split_once (code sep) (String.◌++◌ s (sep ∷ t)) ≡ some (s, t)
unfolding split_once
split_once_at sep [] t h = rw nil-append (ground arith)
split_once_at sep (d ∷ s) t (p, h) = rw cons-append (ground (arith, split_once_at sep s t h))
