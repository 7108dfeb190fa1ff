-- ===== src/Examples/Servers.antt =====
-- Instances for a server that does what it documents.
use wazuh_ocsf_etl.Base.{
  ℕ, String, List, [], ◌∷◌, ◌++◌, true, false, Option, none, some, ◌⊎◌, inl, inr, ◌≡◌, refl, ap,
  All, contains, split_once,
}
use wazuh_ocsf_etl.Config.{CustomMappings}
use wazuh_ocsf_etl.Db.Columns.{
  ClickHouse, Statement, add_columns, ensure_custom_columns, safe_column,
}
use wazuh_ocsf_etl.Db.Conserve.{all_filed}
use wazuh_ocsf_etl.Db.Flush.{BatchMap, flush_all, pending_work}
use wazuh_ocsf_etl.Db.Delivery.{IsHonest, Delivers, IsMade}
use wazuh_ocsf_etl.Db.Success.{IsUp, IsFlushed, flush_all-Delivers}
use wazuh_ocsf_etl.Db.Added.{IsAdded}
use wazuh_ocsf_etl.State.Text.{default_state}
use wazuh_ocsf_etl.Pipeline.Loop.{
  Service, Look, Event, line, closed, tick, run, register_columns, registered, failed_columns,
}
use wazuh_ocsf_etl.Pipeline.Custom.{register_columns_sound}
use wazuh_ocsf_etl.Pipeline.Delivery.{IsServed, run-IsServed}

-- What the server has: the statements that it has carried out, the insertion under way, and the insertions that
-- are stored.
record Outside : Type 0 where
  statements : List Statement
  insertion : String × List ℕ
  stored : List (String × List ℕ)

abbrev Among : {A : Type 0} → A → List A → Type 0
Among x [] = ⊥
Among x (y ∷ ys) = (y ≡ x) ⊎ Among x ys

abbrev server : ClickHouse Outside ℕ
server = record {
  execute = λ s w. (true, record w { statements = s ∷ w.statements });
  open_insert = λ table w. (true, record w { insertion = (table, []) });
  write = λ table row w. (true, record w { insertion = (table, w.insertion.1 ++ row ∷ []) });
  end_insert = λ table w. (true, record w { stored = (table, w.insertion.1) ∷ w.stored });
}

abbrev Has : Outside → Statement → Type 0
Has w s = Among s w.statements

abbrev Open : Outside → String → List ℕ → Type 0
Open w table rows = w.insertion ≡ (table, rows)

abbrev Stored : Outside → String → List ℕ → Type 0
Stored w table rows = Among (table, rows) w.stored

server-IsHonest : IsHonest server Has Open Stored
server-IsHonest = record {
  executed = λ s w h. inl refl;
  opened = λ table w h. refl;
  written = λ table rows row w o h. ap (λ (i : String × List ℕ). (table, i.1 ++ row ∷ [])) o;
  ended = λ table rows w o h. inl (ap (λ (i : String × List ℕ). (table, i.1)) o);
  has_kept = λ s. record {
    by_execute = λ t w h. inr h;
    by_open = λ table w h. h;
    by_write = λ table row w h. h;
    by_end = λ table w h. h;
  };
  stored_kept = λ table rows. record {
    by_execute = λ t w h. h;
    by_open = λ t w h. h;
    by_write = λ t row w h. h;
    by_end = λ t w h. inr h;
  };
}

abbrev outside : Outside
outside = record { statements = []; insertion = ("", []); stored = [] }

abbrev batches : BatchMap ℕ
batches = ("wazuh_ocsf.web", 11 ∷ 12 ∷ []) ∷ ("wazuh_ocsf.idle", []) ∷ []

none-IsMade :
    (t : String)
    → contains [] t ≡ true
    → IsMade server Has Open Stored server-IsHonest "wazuh_ocsf" none outside t
unfolding contains
none-IsMade t h = cc

flush_all-Delivers_example :
    let f = (flush_all server "wazuh_ocsf" none batches [] [] outside).1 in
    Delivers server Has Open Stored server-IsHonest "wazuh_ocsf" none f
    × (all_filed f.log ≡ pending_work batches)
    × (IsUp server → All IsFlushed f.log)
flush_all-Delivers_example =
    flush_all-Delivers server Has Open Stored "wazuh_ocsf" none [] batches [] outside
      server-IsHonest none-IsMade

abbrev cols : List String
cols = "department" ∷ []

abbrev tables : List String
tables = "wazuh_ocsf.web" ∷ []

department_is_registered :
    contains (register_columns server cols [] tables outside).0 "department" ≡ true
unfolding register_columns failed_columns registered ensure_custom_columns add_columns safe_column
    split_once contains
department_is_registered = refl

register_columns_sound_example :
    (contains [] "department" ≡ true)
    ⊎ ((contains cols "department" ≡ true)
        × All
            (IsAdded server Has Open Stored server-IsHonest
              (register_columns server cols [] tables outside).1
              "department")
            tables)
register_columns_sound_example =
    register_columns_sound server Has Open Stored server-IsHonest cols [] tables outside
      "department" department_is_registered

abbrev service : Service Outside ℕ
service = record {
  batches = [];
  known_tables = [];
  known_custom_cols = [];
  current_offset = 0;
  mappings = record { ocsf_version = "1.7.0"; field_map = []; ocsf_renames = [] };
  saved = default_state;
  world = outside;
  log = [];
  shutting_down = false;
  running = true;
}

abbrev look : Look
look = record { alerts_inode = 9; save_ok = true }

abbrev to_row : CustomMappings → String → Option (String × ℕ)
to_row m raw = some ("wazuh_ocsf.web", 5)

abbrev events : List Event
events = line 3 "hi" look ∷ tick look ∷ line 6 "ho" look ∷ closed look ∷ []

service-IsServed : IsServed server Has Open Stored server-IsHonest "wazuh_ocsf" none service
service-IsServed = record { delivered = tt; made = none-IsMade }

run-IsServed_example :
    IsServed server Has Open Stored server-IsHonest "wazuh_ocsf" none
      (run server "wazuh_ocsf" none to_row 2 events service)
run-IsServed_example =
    run-IsServed server Has Open Stored server-IsHonest "wazuh_ocsf" none to_row 2 events service
      service-IsServed
