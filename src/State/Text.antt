-- ===== src/State/Text.antt =====
-- src/input/state.rs: what is written to the state file and what is read back.
use Prim.Native.String
use Prim.Native.String.{[], ◌∷◌}
use wazuh_ocsf_etl.Base.{
  ℕ, String, code, List, [], ◌∷◌, Option, none, some, if◌then◌else◌, ◌&&◌, eqb, is_empty, split,
  trim, parse_uint, to_decimal,
}
use wazuh_ocsf_etl.Json.Lookup.{u64_max}

pub record TailState : Type 0 where
  pub inode : ℕ
  pub offset : ℕ

-- `TailState::default()`
abbrev pub default_state : TailState
default_state = record { inode = 0; offset = 0 }

unfoldable pub strip_prefix : String → String → Option String
strip_prefix [] s = some s
strip_prefix (c ∷ p) [] = none
strip_prefix (c ∷ p) (d ∷ s) =
    let rest = strip_prefix p s in if eqb (code c) (code d) then rest else none

-- `lines()` ends a line at each '\n' and leaves a trailing empty line out; a '\r' in front of the '\n'
-- goes too.
unfoldable pub strip_cr : String → String
strip_cr [] = []
strip_cr (c ∷ s) = let rest = strip_cr s in if eqb (code c) 13 && is_empty s then [] else c ∷ rest

unfoldable pub without_last_empty : List String → List String
without_last_empty [] = []
without_last_empty (w ∷ []) = if is_empty w then [] else w ∷ []
without_last_empty (w ∷ (x ∷ ws)) = strip_cr w ∷ without_last_empty (x ∷ ws)

unfoldable pub lines : String → List String
lines text = without_last_empty (split 10 text)

abbrev pub or_zero : Option ℕ → ℕ
or_zero none = 0
or_zero (some n) = n

-- `v.trim().parse().unwrap_or(0)`
unfoldable pub number : String → ℕ
number v = or_zero (parse_uint u64_max (trim v))

abbrev set_inode : Option String → TailState → TailState
set_inode none s = s
set_inode (some v) s = record s { inode = number v }

abbrev set_offset : Option String → TailState → TailState
set_offset none s = s
set_offset (some v) s = record s { offset = number v }

-- One round of the loop of `load`.
abbrev pub read_line : TailState → String → TailState
read_line s line =
    set_offset (strip_prefix "offset=" line) (set_inode (strip_prefix "inode=" line) s)

unfoldable pub read_lines : TailState → List String → TailState
read_lines s [] = s
read_lines s (line ∷ rest) = read_lines (read_line s line) rest

-- `load`, from the file's text, or from none where it cannot be read
unfoldable pub load : Option String → TailState
load none = default_state
load (some text) = read_lines default_state (lines text)

-- `format!("inode={}\noffset={}\n", s.inode, s.offset)`
unfoldable pub render : TailState → String
render s = String.◌++◌ "inode=" (
    String.◌++◌ (to_decimal s.inode)
      (String.◌++◌ "\noffset=" (String.◌++◌ (to_decimal s.offset) "\n")))
