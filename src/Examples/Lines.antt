-- ===== src/Examples/Lines.antt =====
-- Tests and instances for whole lines, from `transform` to the loop.
use wazuh_ocsf_etl.Base.{
  ℕ, suc, ◌≡◌, ◌↔◌, refl, String, List, [], ◌∷◌, true, false, not, Option, none, some, AllChars,
  eqb, code, trim, is_empty, ◌%◌, if◌then◌else◌, contains, All,
}
use wazuh_ocsf_etl.Config.{CustomMappings}
use wazuh_ocsf_etl.Json.{Fields, Number, str, num, arr, obj, no_fields, field, no_items, item, get}
use wazuh_ocsf_etl.Json.Lookup.{get_data_field}
use wazuh_ocsf_etl.Json.Flatten.{flatten_to_paths}
use wazuh_ocsf_etl.Json.RoundTrip.{is_plain, get_data_field-flatten_to_paths}
use wazuh_ocsf_etl.Record.{OcsfRecord}
use wazuh_ocsf_etl.Db.Columns.{ClickHouse}
use wazuh_ocsf_etl.Transform.Extract.{extract_columns}
use wazuh_ocsf_etl.Transform.OverlayLaws.{Extends}
use wazuh_ocsf_etl.Transform.Native.Laws.{unnamed}
use wazuh_ocsf_etl.Transform.Input.{Outside, read_event, data_of}
use wazuh_ocsf_etl.Transform.Convert.{Globals, columns_of, parse_line, convert, transform}
use wazuh_ocsf_etl.Transform.Finish.{finish, finish_record, to_record}
use wazuh_ocsf_etl.Transform.Guarantees.{
  columns_of-Extends, IsFiled, transform-IsFiled, IsNoEvent, transform-none_iff,
}
use wazuh_ocsf_etl.Pipeline.Loop.{Service, Look, Event, line, closed, tick, reload, run}
use wazuh_ocsf_etl.Pipeline.Queues.{replay, IsMap}
use wazuh_ocsf_etl.Pipeline.Queues.Refine.{history, taken_by, run_refines}
use wazuh_ocsf_etl.Pipeline.Stored.{HoldsRows, IsStored, line_to_row, run-IsStored}

abbrev level_10 : Number
level_10 = record { as_u64 = some 10; to_string = "10" }

abbrev guardduty : Fields
guardduty = field "source" (str "guardduty") (
    field "severity" (str "8.5")
      (field "title" (str "Port probe") (field "accountId" (str "123456789012") no_fields)))

abbrev pub alert : Fields
alert = field "timestamp" (str "2023-11-14T22:13:20Z") (
    field "agent" (obj (field "name" (str "Web 01") no_fields)) (
      field "rule"
        (obj (
          field "level" (num level_10)
            (field "groups" (arr (item (str "amazon-guardduty") no_items)) no_fields)))
        (field "data" (obj (field "aws" (obj guardduty) no_fields)) no_fields)))

abbrev event : Fields
event = field "aws" (obj guardduty) (field "level" (num level_10) no_fields)

event-is_plain : is_plain (obj event) ≡ true
unfolding get
event-is_plain = refl

get_data_field-flatten_to_paths_example :
    All (λ e. get_data_field (obj event) e.0 ≡ e.1) (flatten_to_paths (obj event) "")
get_data_field-flatten_to_paths_example = get_data_field-flatten_to_paths event event-is_plain

-- Every text but the empty one is read as the alert, and every number is 8.5.
abbrev pub outside : Outside ℕ
outside = record {
  from_str = λ s. some (obj alert);
  to_json = λ v. "{}";
  parse_time = λ s. some (1700000000, s);
  now = (1, "");
  zero = 0;
  parse_f32 = λ s. 85;
  tenths = λ x. x;
}

abbrev custom : CustomMappings
custom = record {
  ocsf_version = "1.7.0";
  field_map = ("aws.title", "department") ∷ [];
  ocsf_renames = [];
}

abbrev pub globals : Globals
globals = record { tracker = []; validate = true; violation_count = 3 }

columns_of-Extends_example :
    Extends (unnamed (extract_columns (data_of alert))) (columns_of (λ v. "{}") custom alert)
columns_of-Extends_example = columns_of-Extends (λ v. "{}") custom alert

abbrev row : String × OcsfRecord ℕ
row = convert outside "wazuh_ocsf" [] custom "{}" alert

transform_runs : (transform outside "wazuh_ocsf" [] custom "{}" globals).0 ≡ some (row.0, row.1)
unfolding transform parse_line trim
transform_runs = refl

pub database-AllChars : AllChars (λ d. not (eqb (code d) b'.')) "wazuh_ocsf"
database-AllChars =
    (refl, (refl, (refl, (refl, (refl, (refl, (refl, (refl, (refl, (refl, tt))))))))))

transform-IsFiled_example : IsFiled outside "wazuh_ocsf" [] custom "{}" row.0 row.1
transform-IsFiled_example =
    transform-IsFiled outside "wazuh_ocsf" [] custom "{}" globals row.0 row.1 database-AllChars
      transform_runs

transform-none_iff_example :
    (((transform outside "wazuh_ocsf" [] custom " " globals).0 ≡ none) ↔ IsNoEvent outside " ")
    × (IsNoEvent outside " " → (transform outside "wazuh_ocsf" [] custom " " globals).1 ≡ globals)
transform-none_iff_example = transform-none_iff outside "wazuh_ocsf" [] custom " " globals

row_is_timed : row.1.time ≡ 1700000000
unfolding convert finish finish_record to_record read_event
row_is_timed = refl

-- A server that counts its calls and fails at every second one
abbrev pub server : {R : Type 0} → ClickHouse ℕ R
server = record {
  execute = λ s w. (eqb (w % 2) 0, suc w);
  open_insert = λ table w. (eqb (w % 2) 0, suc w);
  write = λ table row w. (eqb (w % 2) 0, suc w);
  end_insert = λ table w. (eqb (w % 2) 0, suc w);
}

abbrev pub service : {R : Type 0} → List (String × List R) → Service ℕ R
service batches = record {
  batches = batches;
  known_tables = [];
  known_custom_cols = [];
  current_offset = 400;
  mappings = custom;
  saved = record { inode = 7; offset = 100 };
  world = 0;
  log = [];
  shutting_down = false;
  running = true;
}

abbrev pub look : Look
look = record { alerts_inode = 7; save_ok = true }

abbrev events : List Event
events =
    line 500 "{}" look
    ∷ tick look
    ∷ reload custom
    ∷ line 600 " " look
    ∷ line 700 "{}" look
    ∷ closed look
    ∷ []

run-IsStored_example : HoldsRows (IsStored "wazuh_ocsf") (
    run server "wazuh_ocsf" none
      (line_to_row outside "wazuh_ocsf" [] false globals)
      2
      events
      (service []))
run-IsStored_example =
    run-IsStored outside "wazuh_ocsf" [] server none false globals 2 events (service [])
      database-AllChars refl refl

-- A line is a row of its own text.
abbrev pub to_row : CustomMappings → String → Option (String × String)
to_row m raw = if is_empty (trim raw) then none else some ("wazuh_ocsf.web", raw)

abbrev batches : List (String × List String)
batches = ("wazuh_ocsf.web", "a" ∷ []) ∷ ("wazuh_ocsf.idle", []) ∷ []

batches-IsMap : IsMap batches
unfolding contains
batches-IsMap = (refl, (refl, tt))

run_refines_example :
    history (run server "wazuh_ocsf" none to_row 2 events (service batches))
    ≡ replay
        (taken_by server "wazuh_ocsf" none to_row 2 events (service batches))
        (history (service batches))
run_refines_example =
    run_refines server "wazuh_ocsf" none to_row 2 events (service batches) batches-IsMap
