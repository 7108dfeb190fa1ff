-- ===== src/Db/Table/Fits.antt =====
-- src/output/db.rs and src/pipeline/record.rs: rows against the columns of their table. The client sends them
-- as RowBinary, without names or types, and its check against the table is switched off.
use wazuh_ocsf_etl.Base.{
  String, List, [], ◌∷◌, Bool, true, false, not, ◌&&◌, ◌||◌, Option, some, ◌≡◌, refl, ◌==◌, map,
  contains, All,
}
use wazuh_ocsf_etl.Record.{OcsfRecord}
use wazuh_ocsf_etl.Db.Columns.{migrated_columns}
use wazuh_ocsf_etl.Db.Table.{
  Column, table_columns, migration_columns, table_indexes, table_order, table_clock,
}
use wazuh_ocsf_etl.Db.Table.Row.{Cell, u8, u16, u32, u64, f32, text, row_cells}

-- What RowBinary has for a value: a number of so many bits, a Float32, or a text with its length
pub data Wire : Type 0 where
  bits8 bits16 bits32 bits64 float32 bytes : Wire

abbrev pub wire_of : {F32 : Type 0} → Cell F32 → Wire
wire_of (u8 n) = bits8
wire_of (u16 n) = bits16
wire_of (u32 n) = bits32
wire_of (u64 n) = bits64
wire_of (f32 x) = float32
wire_of (text s) = bytes

-- How the server documents that it reads RowBinary for a type
pub record IsRowBinary (reads : String → Option Wire) : Type 0 where
  pub date_time : reads "DateTime" ≡ some bits32
  pub uint8 : reads "UInt8" ≡ some bits8
  pub uint16 : reads "UInt16" ≡ some bits16
  pub uint32 : reads "UInt32" ≡ some bits32
  pub uint64 : reads "UInt64" ≡ some bits64
  pub float : reads "Float32" ≡ some float32
  pub string : reads "String" ≡ some bytes
  pub low_cardinality : reads "LowCardinality(String)" ≡ some bytes

abbrev pub column_names : List String
column_names = map (λ (c : Column). c.name) table_columns

abbrev pub distinct : List String → Bool
distinct [] = true
distinct (name ∷ names) = not (contains names name) && distinct names

abbrev pub has_column : Column → List Column → Bool
has_column c [] = false
has_column c (d ∷ columns) =
    (c.name == d.name && c.type_name == d.type_name) || has_column c columns

-- The values as they are sent, and as the table reads them
abbrev pub sent : {F32 : Type 0} → List (String × Cell F32) → List (String × Option Wire)
sent [] = []
sent ((name, cell) ∷ cells) = (name, some (wire_of cell)) ∷ sent cells

abbrev pub read_by : (String → Option Wire) → List Column → List (String × Option Wire)
read_by reads [] = []
read_by reads (c ∷ columns) = (c.name, reads c.type_name) ∷ read_by reads columns

abbrev pub among : List String → List String → Bool
among names [] = true
among names (x ∷ xs) = contains names x && among names xs

-- For every record, the values that are sent are those that the columns of its table read, one for each
-- column, in order, under the same name and with the same width, if the types are read as the server
-- documents it. No name stands twice, the columns that are added to older tables are those of the migrations
-- and have the names and types of the table, and the indexes, the order and the partitions are by columns of the table.
pub row_cells_fit_table :
    {F32 : Type 0} (reads : String → Option Wire) (rec : OcsfRecord F32)
    → IsRowBinary reads
    → (sent (row_cells rec) ≡ read_by reads table_columns)
      × (distinct column_names ≡ true)
      × All (λ (m : Column × String). has_column m.0 table_columns ≡ true) migration_columns
      × (map (λ (m : Column × String). m.0.name) migration_columns ≡ migrated_columns)
      × (among column_names (map (λ (i : String × String). i.0) table_indexes) ≡ true)
      × (among column_names (table_clock ∷ table_order) ≡ true)
unfolding row_cells contains
row_cells_fit_table reads rec h = (
  rw (h.date_time, h.uint8, h.uint16, h.uint32, h.uint64, h.float, h.string, h.low_cardinality)
      refl,
  refl,
  (refl, (refl, (refl, (refl, (refl, (refl, (refl, (refl, tt)))))))),
  refl,
  refl,
  refl,
)
