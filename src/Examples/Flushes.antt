-- ===== src/Examples/Flushes.antt =====
-- Tests and instances for the flushes, the columns, the start and the event loop.
use wazuh_ocsf_etl.Base.{
  ℕ, suc, ◌≡◌, refl, String, List, [], ◌∷◌, ◌++◌, Bool, true, false, Option, none, some, arith, All,
  eqb,
}
use wazuh_ocsf_etl.Config.{CustomMappings}
use wazuh_ocsf_etl.State.Text.{TailState}
use wazuh_ocsf_etl.Db.Columns.{ClickHouse}
use wazuh_ocsf_etl.Db.Flush.{BatchMap, Entry}
use wazuh_ocsf_etl.Pipeline.Startup.{AlertsFile}
use wazuh_ocsf_etl.Pipeline.Loop.{
  Service, Look, Event, line, closed, tick, shutdown, do_flush, new_columns, run,
}
use wazuh_ocsf_etl.Pipeline.Custom.{first_flush_registers_all}
use wazuh_ocsf_etl.Pipeline.Buckets.{IsRoomy, run-IsRoomy}
use wazuh_ocsf_etl.Pipeline.Offsets.{RefusesRows, IsDropped, refused_rows_are_lost}

-- A server that counts its calls and accepts them all
abbrev server : ClickHouse ℕ ℕ
server = record {
  execute = λ s w. (true, suc w);
  open_insert = λ table w. (true, suc w);
  write = λ table row w. (true, suc w);
  end_insert = λ table w. (true, suc w);
}

-- One that opens no insertion
abbrev full_server : ClickHouse ℕ ℕ
full_server = record {
  execute = λ s w. (true, suc w);
  open_insert = λ table w. (false, suc w);
  write = λ table row w. (true, suc w);
  end_insert = λ table w. (true, suc w);
}

abbrev mappings : CustomMappings
mappings = record {
  ocsf_version = "1.7.0";
  field_map = ("srcip", "src_ip") ∷ ("data.dept", "department") ∷ [];
  ocsf_renames = [];
}

abbrev batches : BatchMap ℕ
batches = ("wazuh_ocsf.web", 11 ∷ 12 ∷ []) ∷ ("wazuh_ocsf.idle", []) ∷ []

abbrev service : Service ℕ ℕ
service = record {
  batches = batches;
  known_tables = [];
  known_custom_cols = [];
  current_offset = 400;
  mappings = mappings;
  saved = record { inode = 7; offset = 100 };
  world = 0;
  log = [];
  shutting_down = false;
  running = true;
}

abbrev look : Look
look = record { alerts_inode = 7; save_ok = true }

-- Every line becomes one row, with the number of mappings as its value.
abbrev to_row : CustomMappings → String → Option (String × ℕ)
to_row m raw = some ("wazuh_ocsf.web", 5)

abbrev is_five : ℕ → Bool
is_five n = eqb n 5

abbrev events : List Event
events =
    line 500 "{}" look
    ∷ tick look
    ∷ shutdown
    ∷ line 600 "{}" look
    ∷ closed look
    ∷ line 700 "{}" look
    ∷ []

flush_runs : (do_flush server "wazuh_ocsf" none look service).saved.offset ≡ 400
unfolding do_flush
flush_runs = refl

abbrev position : TailState
position = record { inode = 7; offset = 100 }

abbrev same_file : AlertsFile
same_file = record { size = 250; inode = 7 }

abbrev new_file : AlertsFile
new_file = record { size = 30; inode = 8 }

abbrev tables : List String
tables = "wazuh_ocsf.web" ∷ []

first_flush_registers_all_example :
    let s' = do_flush full_server "wazuh_ocsf" none look service in
    new_columns s'.mappings s'.known_custom_cols ≡ []
first_flush_registers_all_example =
    first_flush_registers_all full_server "wazuh_ocsf" none look service refl

full_server_refuses : RefusesRows full_server
full_server_refuses table w = refl

refused_rows_are_lost_example :
    let s' = do_flush full_server "wazuh_ocsf" none look service in
    (s'.batches ≡ [])
    × (s'.saved.offset ≡ 400)
    × ((log : List (Entry ℕ)) × (s'.log ≡ [] ++ log) × All IsDropped log)
refused_rows_are_lost_example =
    refused_rows_are_lost full_server full_server_refuses "wazuh_ocsf" none look service refl

batches-IsRoomy : IsRoomy 3 batches
batches-IsRoomy = (omega arith, (omega arith, tt))

run-IsRoomy_example : IsRoomy 3 (run server "wazuh_ocsf" none to_row 3 events service).batches
run-IsRoomy_example = run-IsRoomy server "wazuh_ocsf" none to_row 3 events service batches-IsRoomy
