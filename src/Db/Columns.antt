-- ===== src/Db/Columns.antt =====
-- src/output/db.rs: `ensure_custom_columns` and `ensure_table`. The statements are kept as data, by the
-- names that the source puts into their text; the server is the record `ClickHouse`.
use Prim.Native.String.{[], ◌∷◌}
use wazuh_ocsf_etl.Base.{
  ℕ, String, Char, List, [], ◌∷◌, Bool, true, false, Option, none, some, if◌then◌else◌, is_word,
  is_empty, split_once, is_nil,
}

pub data Statement : Type 0 where
  create_database : String → Statement
  create_table : String → String → Option ℕ → Statement
  add_column : String → String → String → Statement
  add_custom_column : String → String → String → Statement

-- What the `clickhouse` client does, over the state `W` of everything outside the program: a statement,
-- and the three calls of an insertion, each with its success.
pub record ClickHouse (W R : Type 0) : Type 0 where
  pub execute : Statement → W → Bool × W
  pub open_insert : String → W → Bool × W
  pub write : String → R → W → Bool × W
  pub end_insert : String → W → Bool × W

-- One character of `safe`
abbrev pub safe_char : Char → Char
safe_char c = if is_word c then c else "_"

-- The identifier that a column gets: anything but letters, digits and '_' is replaced by '_'.
unfoldable pub safe_column : String → String
safe_column [] = []
safe_column (c ∷ col) = safe_char c ∷ safe_column col

abbrev pub split_or : String → Option (String × String) → String → String × String
split_or table none db = (db, table)
split_or table (some pair) db = pair

-- The columns that `ensure_table` adds to tables of earlier versions
abbrev pub migrated_columns : List String
migrated_columns =
    "wazuh_rule_level" ∷ "wazuh_fired_times" ∷ "pci_dss" ∷ "gdpr" ∷ "hipaa" ∷ "nist_800_53"
    ∷ "cve_id" ∷ "cvss_score" ∷ []

abbrev migrations : String → String → List String → List Statement
migrations db tbl [] = []
migrations db tbl (col ∷ cols) = add_column db tbl col ∷ migrations db tbl cols

abbrev pub table_statements : String → Option ℕ → String × String → List Statement
table_statements db ttl_days (db_part, tbl_part) =
    create_database db
    ∷ create_table db_part tbl_part ttl_days
    ∷ migrations db_part tbl_part migrated_columns

module _ {W R : Type 0} (server : ClickHouse W R) where
  -- Statements in turn, up to the first that fails (`?`).
  unfoldable pub execute_all : List Statement → W → Bool × W
  execute_all [] w = (true, w)
  execute_all (s ∷ rest) w =
      let (done, w') = server.execute s w in
      elim done [ true ↦ execute_all rest w' | false ↦ (false, w') ]

  unfoldable pub ensure_table : String → String → Option ℕ → W → Bool × W
  unfolding execute_all
  ensure_table db table ttl_days w =
      execute_all (table_statements db ttl_days (split_or table (split_once b'.' table) db)) w

  -- The loop over the columns; a failure does not stop it, and an empty identifier is skipped.
  unfoldable pub add_columns : String → String → List String → W → List String × W
  add_columns db tbl [] w = ([], w)
  add_columns db tbl (col ∷ cols) w =
      let (done, w') = server.execute (add_custom_column db tbl (safe_column col)) w in
      let (applied, w'') = add_columns db tbl cols w' in
      let tried : List String × W = (if done then col ∷ applied else applied, w'') in
      let skipped = add_columns db tbl cols w in
      if is_empty (safe_column col) then skipped else tried

  abbrev pub add_columns_to : Option (String × String) → List String → W → List String × W
  add_columns_to none columns w = ([], w)
  add_columns_to (some (db_part, tbl_part)) columns w = add_columns db_part tbl_part columns w

  -- The columns that were applied
  unfoldable pub ensure_custom_columns : String → List String → W → List String × W
  unfolding add_columns
  ensure_custom_columns table columns w =
      if is_nil columns then ([], w) else add_columns_to (split_once b'.' table) columns w
