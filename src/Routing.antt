-- ===== src/Routing.antt =====
-- src/pipeline/transform.rs: names of tables, from the agent or a special location.
pub mod Laws
use Prim.Native.String
use Prim.Native.String.{[], ◌∷◌}
use wazuh_ocsf_etl.Base.{
  ℕ, zero, suc, String, Char, List, Bool, true, false, not, ◌&&◌, if◌then◌else◌, eqb, code, is_word,
  is_empty, contains, to_ascii_lowercase, trim_matches,
}

-- `SANITIZE_RE.replace_all(raw, "_")` with `[^a-zA-Z0-9_]+`: each run of other characters becomes
-- one underscore. `inside` says that the run has its underscore already.
unfoldable pub replace_runs : Bool → String → String
replace_runs inside [] = []
replace_runs inside (c ∷ s) =
    let kept = c ∷ replace_runs false s in
    let more = replace_runs true s in
    if is_word c then kept else if inside then more else "_" ∷ more

abbrev pub is_underscore : Char → Bool
is_underscore c = eqb (code c) b'_'

-- What the expression leaves is ASCII, where `to_lowercase` is the ASCII one.
unfoldable pub sanitize_name : String → String
unfolding replace_runs
sanitize_name raw = trim_matches is_underscore (to_ascii_lowercase (replace_runs false raw))

-- `chars().take(n).collect()`
unfoldable pub take_chars : ℕ → String → String
take_chars zero s = []
take_chars (suc n) [] = []
take_chars (suc n) (c ∷ s) = c ∷ take_chars n s

abbrev or_unknown : String → String
or_unknown n = if is_empty n then "unknown_agent" else n

unfoldable pub segment : String → String → List String → String
segment agent_name location special_locs =
    if not (is_empty location) && contains special_locs location
    then sanitize_name location
    else or_unknown (sanitize_name agent_name)

unfoldable pub table_part : String → String
table_part seg = take_chars 200 (String.◌++◌ "ocsf_" seg)

unfoldable pub routing_table : String → String → String → List String → String
routing_table db agent_name location special_locs =
    String.◌++◌ db (String.◌++◌ "." (table_part (segment agent_name location special_locs)))
