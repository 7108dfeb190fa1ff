-- ===== src/Unmapped/Files.antt =====
-- src/util/unmapped.rs: the files of the report. A session archives the report of the last one and then
-- writes its own again and again.
use wazuh_ocsf_etl.Base.{
  String, List, [], ◌∷◌, Bool, true, Option, none, some, ◌≡◌, refl, ap, ◌∙◌, ◌==◌, eq_refl, inl,
  inr, if◌then◌else◌, Bool-cases,
}
use Prim.Native.String.{compare}
use text.Mathlib.Text.{is_le}
use wazuh_ocsf_etl.Json.{Value, str, arr, obj, no_fields, field}
use wazuh_ocsf_etl.Transform.Columns.{insert}
use wazuh_ocsf_etl.Transform.Input.{items_of}
use wazuh_ocsf_etl.Unmapped.Tracker.{Tracker}
use wazuh_ocsf_etl.Unmapped.Report.{report}

-- The directory of the report, by the kinds of names in it, which are taken to differ: the report, its
-- temporary file, and the archives under the texts of their times.
pub record Folder : Type 0 where
  pub current : Option String
  pub temporary : Option String
  pub archives : List (String × String)

abbrev moved : String → Option String → Folder → Folder
moved time none f = f
moved time (some text) f = record f { current = none; archives = insert time text f.archives }

-- The Boolean says whether the renaming succeeds.
unfoldable pub archive_unmapped_report : String → Bool → Folder → Folder
archive_unmapped_report time renames f = if renames then moved time f.current f else f

unfoldable pub document : List String → Value
document names = obj (
    field "note"
      (str
        "Fields from data.* that are not yet mapped to an OCSF typed column. Add entries to config/field_mappings.toml to promote them.")
      (field "fields" (arr (items_of names)) no_fields))

-- What becomes of a write: it fails, and leaves some text or none in the temporary file, or the renaming
-- fails, and the temporary file can be removed or cannot, or all succeeds.
pub data Outcome : Type 0 where
  not_written : Option String → Outcome
  not_renamed : Bool → Outcome
  renamed : Outcome

unfoldable pub put : Outcome → String → Folder → Folder
put (not_written left) text f = record f { temporary = left }
put (not_renamed removes) text f = record f { temporary = if removes then none else some text }
put renamed text f = record f { current = some text; temporary = none }

-- `to_string_pretty` is a parameter.
module _ (pretty : Value → String) where
  abbrev pub text_of_report : List String → String
  text_of_report names = pretty (document names)

  abbrev put_report : Outcome → Option (List String) → Folder → Folder
  put_report outcome none f = f
  put_report outcome (some names) f = put outcome (text_of_report names) f

  unfoldable pub write_unmapped_report : Outcome → Tracker → Folder → Folder
  unfolding put
  write_unmapped_report outcome tracker f = put_report outcome (report tracker) f

  unfoldable pub write_reports : List (Outcome × Tracker) → Folder → Folder
  write_reports [] f = f
  write_reports ((outcome, tracker) ∷ writes) f =
      write_reports writes (write_unmapped_report outcome tracker f)

  -- A report that some tracker gives
  pub record IsReport (text : String) : Type 0 where
    pub tracker : Tracker
    pub names : List String
    pub reported : report tracker ≡ some names
    pub written : text ≡ text_of_report names

  abbrev pub IsWhole : Option String → Type 0
  IsWhole none = Unit
  IsWhole (some text) = IsReport text

  record Keeps (f g : Folder) : Type 0 where
    whole : IsWhole g.current
    archived : g.archives ≡ f.archives

  put_report-Keeps :
      (outcome : Outcome) (tracker : Tracker) (o : Option (List String)) (f : Folder)
      → report tracker ≡ o
      → IsWhole f.current
      → Keeps f (put_report outcome o f)
  unfolding put
  put_report-Keeps outcome tracker none f e h = record { whole = h; archived = refl }
  put_report-Keeps (not_written left) tracker (some names) f e h = record {
    whole = h;
    archived = refl;
  }
  put_report-Keeps (not_renamed removes) tracker (some names) f e h = record {
    whole = h;
    archived = refl;
  }
  put_report-Keeps renamed tracker (some names) f e h = record {
    whole = record { tracker = tracker; names = names; reported = e; written = refl };
    archived = refl;
  }

  write_reports-Keeps :
      (writes : List (Outcome × Tracker)) (f : Folder)
      → IsWhole f.current
      → Keeps f (write_reports writes f)
  unfolding write_reports write_unmapped_report
  write_reports-Keeps [] f h = record { whole = h; archived = refl }
  write_reports-Keeps ((outcome, tracker) ∷ writes) f h =
      let one = put_report-Keeps outcome tracker (report tracker) f refl h in
      let rest = write_reports-Keeps writes (write_unmapped_report outcome tracker f) one.whole in
      record { whole = rest.whole; archived = rest.archived ∙ one.archived }

abbrev found : String → List (String × String) → Option String
found time [] = none
found time ((at, text) ∷ archives) = if at == time then some text else found time archives

abbrev pub archived_at : String → Folder → Option String
archived_at time f = found time f.archives

found-insert :
    (time text : String) (archives : List (String × String))
    → found time (insert time text archives) ≡ some text
unfolding insert
found-insert time text [] = rw (eq_refl time) refl
found-insert time text ((at, old) ∷ archives) = elim (Bool-cases (at == time)) [
  | inl same ↦ rw same (rw (eq_refl time) refl)
  | inr other ↦ elim (Bool-cases (is_le (compare time at))) [
    | inl before ↦ rw (other, before) (rw (eq_refl time) refl)
    | inr behind ↦ rw (other, behind) (rw other (found-insert time text archives))
  ]
]

-- A session that archives the report of the last one, which succeeds, and then writes any number of times,
-- whatever fails: the old report is in the archive, and what stands at its name is none or the whole report
-- of some tracker.
pub session_keeps_reports :
    (pretty : Value → String) (time old : String) (writes : List (Outcome × Tracker)) (f : Folder)
    → f.current ≡ some old
    → let g = write_reports pretty writes (archive_unmapped_report time true f) in
      (archived_at time g ≡ some old) × IsWhole pretty g.current
unfolding archive_unmapped_report
session_keeps_reports pretty time old writes f h =
    let g = moved time (some old) f in
    let kept = write_reports-Keeps pretty writes g tt in
    rw h (ap (found time) kept.archived ∙ found-insert time old f.archives, kept.whole)
