-- ===== src/Routing/Laws.antt =====
-- The names that routing gives.
use Prim.Native.String
use Prim.Native.String.{[], ◌∷◌, count}
use text.Mathlib.TextLemmas.{cons-append, nil-append, length-nil, length-cons}
use native.Mathlib.Nat.{zero-add}
use text.Mathlib.TextPositions.{starts_with-append}
use Prim.Native.Nat.{◌+◌}
use wazuh_ocsf_etl.Base.{
  not, ◌&&◌, some, code, eqb, split_once, split_once_at, contains, ℕ, zero, suc, ◌≤◌, String, List,
  Bool, true, false, ◌≡◌, refl, ap, arith, Char, is_word, AllChars, is_lower_word,
  to_ascii_lowercase-AllChars, to_ascii_lowercase_of_lower, trim_start_matches-AllChars,
  trim_end_matches-AllChars, trim_matches_idem, trim_matches, if-both, is_empty, starts_with,
}
use wazuh_ocsf_etl.Routing.{
  replace_runs, sanitize_name, is_underscore, take_chars, segment, table_part, routing_table,
}

replace_runs-AllChars : (inside : Bool) (s : String) → AllChars is_word (replace_runs inside s)
unfolding replace_runs
replace_runs-AllChars inside [] = tt
replace_runs-AllChars inside (c ∷ s) =
    ground (arith, replace_runs-AllChars false s, replace_runs-AllChars true s)

replace_runs_of_word : (s : String) → AllChars is_word s → replace_runs false s ≡ s
unfolding replace_runs
replace_runs_of_word [] h = refl
replace_runs_of_word (c ∷ s) h = ground (arith, replace_runs_of_word s)

is_word_of_lower_word : (c : Char) → is_lower_word c ≡ true → is_word c ≡ true
is_word_of_lower_word c h = ground arith

AllChars-is_word : (s : String) → AllChars is_lower_word s → AllChars is_word s
AllChars-is_word [] h = tt
AllChars-is_word (c ∷ s) (p, h) = (is_word_of_lower_word c p, AllChars-is_word s h)

pub sanitize_name-AllChars : (raw : String) → AllChars is_lower_word (sanitize_name raw)
unfolding sanitize_name trim_matches
sanitize_name-AllChars raw = trim_end_matches-AllChars _ _ _ (
    trim_start_matches-AllChars _ _ _
      (to_ascii_lowercase-AllChars _ (replace_runs-AllChars false raw)))

-- Sanitising a name a second time changes nothing.
pub sanitize_name_idem : (raw : String) → sanitize_name (sanitize_name raw) ≡ sanitize_name raw
sanitize_name_idem raw =
    let low = sanitize_name-AllChars raw in
    unfold sanitize_name in
    rw (replace_runs_of_word _ (AllChars-is_word _ low), to_ascii_lowercase_of_lower _ low)
      (trim_matches_idem is_underscore _)

take_chars-AllChars :
    (p : Char → Bool) (n : ℕ) (s : String) → AllChars p s → AllChars p (take_chars n s)
unfolding take_chars
take_chars-AllChars p zero s h = tt
take_chars-AllChars p (suc n) [] h = tt
take_chars-AllChars p (suc n) (c ∷ s) (q, h) = (q, take_chars-AllChars p n s h)

count-take_chars : (n : ℕ) (s : String) → count (take_chars n s) ≤ n
unfolding take_chars
count-take_chars zero s = rw length-nil (omega arith)
count-take_chars (suc n) [] = rw length-nil (omega arith)
count-take_chars (suc n) (c ∷ s) = rw length-cons (omega (arith, count-take_chars n s))

unknown_agent-AllChars : AllChars is_lower_word "unknown_agent"
unknown_agent-AllChars = ground arith

segment-AllChars :
    (agent location : String) (special : List String)
    → AllChars is_lower_word (segment agent location special)
unfolding segment
segment-AllChars agent location special =
    let a = sanitize_name-AllChars agent in
    let l = sanitize_name-AllChars location in
    let u = unknown_agent-AllChars in
    if-both (AllChars is_lower_word) (not (is_empty location) && contains special location) l
      (if-both (AllChars is_lower_word) (is_empty (sanitize_name agent)) u a)

take_chars-append :
    (p s : String) (n : ℕ)
    → take_chars (count p + n) (String.◌++◌ p s) ≡ String.◌++◌ p (take_chars n s)
unfolding take_chars
take_chars-append [] s n = rw (nil-append, nil-append, length-nil, zero-add)
take_chars-append (c ∷ p) s n =
    let e : suc (count p) + n ≡ suc (count p + n) = omega arith in
    rw (cons-append, cons-append, length-cons, e) (ap (λ r. c ∷ r) (take_chars-append p s n))

-- The part of a table's name behind the database.
pub record IsTableName (t : String) : Type 0 where
  pub chars : AllChars is_lower_word t
  pub prefixed : starts_with t "ocsf_" ≡ true
  pub short : count t ≤ 200

table_part-prefix : (seg : String) → table_part seg ≡ String.◌++◌ "ocsf_" (take_chars 195 seg)
unfolding table_part
table_part-prefix seg = take_chars-append "ocsf_" seg 195

ocsf-AllChars :
    (s : String) → AllChars is_lower_word s → AllChars is_lower_word (String.◌++◌ "ocsf_" s)
ocsf-AllChars s h =
    rw (cons-append, cons-append, cons-append, cons-append, cons-append, nil-append)
      (refl, (refl, (refl, (refl, (refl, h)))))

table_part-IsTableName : (seg : String) → AllChars is_lower_word seg → IsTableName (table_part seg)
table_part-IsTableName seg h = record {
  chars = rw table_part-prefix (ocsf-AllChars _ (take_chars-AllChars _ 195 seg h));
  prefixed = rw table_part-prefix (starts_with-append "ocsf_" _);
  short = unfold table_part in count-take_chars 200 _;
}

-- Whatever the agent and the location are called, the table is the database, a dot, and a name of
-- at most 200 characters, all in [a-z0-9_], that begins with "ocsf_"; and for a database with no dot
-- in its name, splitting at the first dot, as the statements for columns do, gives the two back.
pub routing_table-IsTableName :
    (db agent location : String) (special : List String)
    → AllChars (λ d. not (eqb (code d) b'.')) db
    → (t : String) × IsTableName t
      × (routing_table db agent location special ≡ String.◌++◌ db (String.◌++◌ "." t))
      × (split_once b'.' (routing_table db agent location special) ≡ some (db, t))
unfolding routing_table
routing_table-IsTableName db agent location special plain = (
  table_part (segment agent location special),
  table_part-IsTableName _ (segment-AllChars agent location special),
  refl,
  rw (cons-append, nil-append) (split_once_at "." db _ plain),
)
