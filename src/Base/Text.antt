-- ===== src/Base/Text.antt =====
-- What the program uses of `str`: tests, lower case, trimming, splitting, and numbers in decimal.
use Prim.Native.Nat.{◌≤◌, ℕ, zero, suc, ◌+◌, ◌-◌, ◌*◌, ◌/◌, ◌%◌}
use Prim.Native.Char.{Char, code}
use Prim.Native.String
use Prim.Native.String.{String, [], ◌∷◌, char_at}
use mathlib.Core.Bool.{Bool, true, false, ◌&&◌, ◌||◌}
use mathlib.Core.List.{List, [], ◌∷◌}
use mathlib.Core.Option.{Option, none, some}
use text.Mathlib.Text.{◌==◌, starts_with}
use native.Mathlib.Omega.{arith}
use wazuh_ocsf_etl.Base.Tests.{leb, eqb, if◌then◌else◌}

abbrev pub is_empty : String → Bool
is_empty [] = true
is_empty (c ∷ s) = false

unfoldable pub contains_str : String → String → Bool
contains_str [] t = starts_with [] t
contains_str (c ∷ s) t = starts_with (c ∷ s) t || contains_str s t

unfoldable pub ends_with : String → String → Bool
ends_with [] t = is_empty t
ends_with (c ∷ s) t = (c ∷ s) == t || ends_with s t

abbrev pub is_upper : Char → Bool
is_upper c = leb b'A' (code c) && leb (code c) b'Z'

abbrev pub is_lower : Char → Bool
is_lower c = leb b'a' (code c) && leb (code c) b'z'

abbrev pub is_digit : Char → Bool
is_digit c = leb b'0' (code c) && leb (code c) b'9'

-- `c.is_ascii_alphanumeric() || c == '_'`, and the class `[a-zA-Z0-9_]`
abbrev pub is_word : Char → Bool
is_word c = is_upper c || is_lower c || is_digit c || eqb (code c) b'_'

abbrev pub lower_char : Char → Char
lower_char c = if is_upper c then char_at "abcdefghijklmnopqrstuvwxyz" (code c - b'A') else c

unfoldable pub to_ascii_lowercase : String → String
to_ascii_lowercase [] = []
to_ascii_lowercase (c ∷ s) = lower_char c ∷ to_ascii_lowercase s

abbrev pub upper_char : Char → Char
upper_char c = if is_lower c then char_at "ABCDEFGHIJKLMNOPQRSTUVWXYZ" (code c - b'a') else c

unfoldable pub to_ascii_uppercase : String → String
to_ascii_uppercase [] = []
to_ascii_uppercase (c ∷ s) = upper_char c ∷ to_ascii_uppercase s

-- `char::is_whitespace`: the White_Space property of Unicode
unfoldable pub is_whitespace : Char → Bool
is_whitespace c =
    let n = code c in
    (leb 9 n && leb n 13)
    || eqb n 32
    || eqb n 0x85
    || eqb n 0xa0
    || eqb n 0x1680
    || (leb 0x2000 n && leb n 0x200a)
    || eqb n 0x2028
    || eqb n 0x2029
    || eqb n 0x202f
    || eqb n 0x205f
    || eqb n 0x3000

module _ (p : Char → Bool) where
  unfoldable pub trim_start_matches : String → String
  trim_start_matches [] = []
  trim_start_matches (c ∷ s) = let rest = trim_start_matches s in if p c then rest else c ∷ s

  unfoldable pub trim_end_matches : String → String
  trim_end_matches [] = []
  trim_end_matches (c ∷ s) =
      let rest = trim_end_matches s in if p c && is_empty rest then [] else c ∷ rest

  unfoldable pub trim_matches : String → String
  unfolding trim_start_matches trim_end_matches
  trim_matches s = trim_end_matches (trim_start_matches s)

unfoldable pub trim : String → String
unfolding trim_matches is_whitespace
trim s = trim_matches is_whitespace s

abbrev pub push_head : Char → List String → List String
push_head c [] = (c ∷ []) ∷ []
push_head c (w ∷ ws) = (c ∷ w) ∷ ws

-- `s.split(sep)` for one character, given by its number
unfoldable pub split : ℕ → String → List String
split sep [] = [] ∷ []
split sep (c ∷ s) =
    let rest = split sep s in if eqb (code c) sep then [] ∷ rest else push_head c rest

abbrev pub decimal : String → ℕ → Option ℕ
decimal [] n = some n
decimal (c ∷ s) n =
    let rest = decimal s (n * 10 + (code c - b'0')) in if is_digit c then rest else none

abbrev pub at_most : ℕ → Option ℕ → Option ℕ
at_most most none = none
at_most most (some n) = if leb n most then some n else none

-- the text behind one leading '+'
abbrev pub unsigned : String → String
unsigned [] = []
unsigned (c ∷ s) = if eqb (code c) b'+' then s else c ∷ s

abbrev pub digits_only : String → Option ℕ
digits_only [] = none
digits_only (c ∷ s) = decimal (c ∷ s) 0

-- `s.parse::<uN>().ok()` with the type's greatest value `most`
unfoldable pub parse_uint : ℕ → String → Option ℕ
parse_uint most s = at_most most (digits_only (unsigned s))

-- The number, if there is one, is not above `most`.
abbrev pub AtMost : ℕ → Option ℕ → Type 0
AtMost most none = Unit
AtMost most (some n) = n ≤ most

at_most-AtMost : (most : ℕ) (o : Option ℕ) → AtMost most (at_most most o)
at_most-AtMost most none = tt
at_most-AtMost most (some n) = ground arith

pub parse_uint-AtMost : (most : ℕ) (s : String) → AtMost most (parse_uint most s)
unfolding parse_uint
parse_uint-AtMost most s = at_most-AtMost most (digits_only (unsigned s))

-- One decimal digit.
abbrev pub digit_char : ℕ → Char
digit_char d = char_at "0123456789" d

-- The digits of `n` in front of `out`; `n` rounds are enough, since each divides by ten.
unfoldable pub emit : ℕ → ℕ → String → String
emit zero n out = out
emit (suc rounds) n out = elim (eqb n 0) [
  | true ↦ out
  | false ↦ emit rounds (n / 10) (digit_char (n % 10) ∷ out)
]

-- `n.to_string()`
unfoldable pub to_decimal : ℕ → String
unfolding emit
to_decimal n = if eqb n 0 then "0" else emit n n ""

-- `s.split_once(sep)` for one character, given by its number
unfoldable pub split_once : ℕ → String → Option (String × String)
split_once sep [] = none
split_once sep (c ∷ s) =
    let rest = split_once sep s in
    if eqb (code c) sep
    then some ([], s)
    else elim rest [ none ↦ none | some (a, b) ↦ some (c ∷ a, b) ]

-- `slice.join(sep)`
unfoldable pub join : String → List String → String
join sep [] = ""
join sep (x ∷ xs) =
    let rest = join sep xs in elim xs [ [] ↦ x | _ ∷ _ ↦ String.◌++◌ x (String.◌++◌ sep rest) ]
