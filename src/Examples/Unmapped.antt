-- ===== src/Examples/Unmapped.antt =====
-- Tests and instances for the tracker of unmapped fields and its report.
use wazuh_ocsf_etl.Base.{
  arith, false, ◌<◌, ◌^◌, starts_with, contains, ◌+◌, ◌≡◌, refl, String, List, none, [], ◌∷◌, Bool,
  some, count, map, contains, true,
}
use wazuh_ocsf_etl.Config.{CustomMappings}
use wazuh_ocsf_etl.Json.Flatten.{flatten_to_paths, join_path}
use wazuh_ocsf_etl.Unmapped.Known.{is_known}
use wazuh_ocsf_etl.Unmapped.Tracker.{FieldInfo, Tracker, track_unmapped_fields}
use wazuh_ocsf_etl.Unmapped.Counts.{counted, occurrences, counted-track_unmapped_fields}
use wazuh_ocsf_etl.Unmapped.Report.{
  Descending, greatest, report, sort_fields, place, report_is_sorted,
}
use wazuh_ocsf_etl.Unmapped.Files.{
  Folder, archive_unmapped_report, Outcome, not_written, not_renamed, renamed, write_reports,
  IsWhole, archived_at, session_keeps_reports,
}
use wazuh_ocsf_etl.Examples.Data.{data_val}

abbrev custom : CustomMappings
custom = record {
  ocsf_version = "1.7.0";
  field_map = ("net.dst", "dst_ip") ∷ [];
  ocsf_renames = [];
}

abbrev site : String × FieldInfo
site = ("site", record { count = 2; example = "hq" })

abbrev rack : String × FieldInfo
rack = ("rack", record { count = 5; example = "" })

abbrev tracker : Tracker
tracker = site ∷ []

report_runs : report (site ∷ rack ∷ []) ≡ some ("rack" ∷ "site" ∷ [])
unfolding report sort_fields place
report_runs = refl

site_fits : occurrences "site" (flatten_to_paths data_val "") + counted "site" tracker < 2 ^ 64
unfolding flatten_to_paths join_path
site_fits = omega arith

counted-track_unmapped_fields_example :
    let after = counted "site" (track_unmapped_fields data_val custom tracker) in
    let is_key = contains ("net.dst" ∷ []) "site" in
    let is_parameter = starts_with "site" "aws.requestParameters." in
    let is_response = starts_with "site" "aws.responseElements." in
    (is_known "site" ≡ true → after ≡ 2)
    × (is_key ≡ true → after ≡ 2)
    × (is_parameter ≡ true → after ≡ 2)
    × (is_response ≡ true → after ≡ 2)
    × (is_known "site" ≡ false
        → is_key ≡ false
        → is_parameter ≡ false
        → is_response ≡ false
        → after ≡ occurrences "site" (flatten_to_paths data_val "") + 2)
counted-track_unmapped_fields_example =
    counted-track_unmapped_fields data_val custom "site" tracker site_fits

report_is_sorted_example :
    (sorted : Tracker) × (report (site ∷ rack ∷ []) ≡ some (map (λ f. f.0) sorted))
    × Descending (greatest (site ∷ rack ∷ [])) sorted
    × ((test : String × FieldInfo → Bool) → count test sorted ≡ count test (site ∷ rack ∷ []))
report_is_sorted_example = report_is_sorted site (rack ∷ [])

abbrev folder : Folder
folder = record { current = some "{}"; temporary = none; archives = [] }

abbrev writes : List (Outcome × Tracker)
writes =
    (renamed, site ∷ rack ∷ [])
    ∷ (not_renamed true, site ∷ [])
    ∷ (not_written (some "{"), rack ∷ [])
    ∷ (renamed, [])
    ∷ []

session_keeps_reports_example :
    let g =
      write_reports (λ v. "{ }") writes (archive_unmapped_report "20260101T000000Z" true folder) in
    (archived_at "20260101T000000Z" g ≡ some "{}") × IsWhole (λ v. "{ }") g.current
session_keeps_reports_example =
    session_keeps_reports (λ v. "{ }") "20260101T000000Z" "{}" writes folder refl
