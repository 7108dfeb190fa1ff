-- ===== src/Examples/Inputs.antt =====
-- Tests and instances for the socket, the mappings and their watcher.
use wazuh_ocsf_etl.Base.{
  split, ℕ, String, List, [], ◌∷◌, ◌++◌, true, false, Option, none, some, ◌≡◌, refl, All, map,
  arith, trim, eqb, ◌==◌, if◌then◌else◌,
}
use wazuh_ocsf_etl.Config.{CustomMappings, parse_special_locations}
use wazuh_ocsf_etl.Config.Load.{MappingsToml, initial_mappings, Watcher, watch}
use wazuh_ocsf_etl.Config.Load.Laws.{watch-IsCurrent}
use wazuh_ocsf_etl.Config.Settings.{from_env}
use wazuh_ocsf_etl.Record.{OcsfRecord}
use wazuh_ocsf_etl.Transform.Convert.{parse_line, convert, transform}
use wazuh_ocsf_etl.Transform.Versions.{transform_without_meta}
use wazuh_ocsf_etl.ZeroMq.{
  connecting, Subscriber, Happening, attempt, timed_out, broken, message, payload, react, receive,
  subscribe,
}
use wazuh_ocsf_etl.ZeroMq.Laws.{subscribe_after_failures}
use wazuh_ocsf_etl.Pipeline.Loop.{Service, Event, line, closed, tick, run, step}
use wazuh_ocsf_etl.Pipeline.Startup.{start_state, reader_offset}
use wazuh_ocsf_etl.Pipeline.Socket.{HasNoOffset, socket_session_forgets_position}
use wazuh_ocsf_etl.Examples.Lines.{
  alert, outside, globals, database-AllChars, server, service, look, to_row,
}

abbrev subscriber : Subscriber
subscriber = record { phase = connecting; sent = [] }

-- A topic, a frame that is text, and one that is not
abbrev frames : List (Option String)
frames = some "ossec.alerts" ∷ some " {} " ∷ none ∷ []

abbrev happenings : List Happening
happenings =
    attempt false true
    ∷ attempt true true
    ∷ message frames true
    ∷ message (some "  " ∷ []) true
    ∷ timed_out
    ∷ message frames true
    ∷ attempt true true
    ∷ message frames true
    ∷ message frames false
    ∷ message frames true
    ∷ []

subscribe_runs : (subscribe happenings subscriber).sent ≡ (0, "{}") ∷ (0, "{}") ∷ []
unfolding subscribe payload trim react receive
subscribe_runs = refl

abbrev failures : List Happening
failures = attempt true false ∷ timed_out ∷ broken ∷ []

payload_runs : payload frames ≡ "{}"
unfolding payload trim
payload_runs = refl

subscribe_after_failures_example :
    (subscribe (failures ++ attempt true true ∷ message frames true ∷ []) subscriber).sent
    ≡ [] ++ (0, payload frames) ∷ []
subscribe_after_failures_example =
    subscribe_after_failures failures frames subscriber (refl, (refl, (refl, tt))) refl
      (rw payload_runs refl)

abbrev socket_events : List Event
socket_events =
    map (λ l. line l.0 l.1 look) (subscribe happenings subscriber).sent ++ tick look ∷ []

socket_events-HasNoOffset : All HasNoOffset socket_events
socket_events-HasNoOffset = rw subscribe_runs (refl, (refl, (tt, tt)))

abbrev position : Service ℕ String
position = record (service []) { current_offset = 0 }

socket_session_forgets_position_example :
    let s' =
      step server "wazuh_ocsf" none to_row 2
        (closed look)
        (run server "wazuh_ocsf" none to_row 2 socket_events position) in
    reader_offset (start_state s'.saved (record { size = 900; inode = 7 }) true) 7 ≡ 0
socket_session_forgets_position_example =
    socket_session_forgets_position server "wazuh_ocsf" none to_row 2 socket_events look position
      (record { size = 900; inode = 7 }) true socket_events-HasNoOffset refl refl (omega arith) refl

-- The parser of a document with field mappings alone
abbrev toml : MappingsToml
toml = record {
  meta = none;
  field_mappings = some (("aws.title", "department") ∷ []);
  ocsf_field_renames = none;
}

abbrev from_toml : String → Option MappingsToml
from_toml text = if text == "" then none else some toml

abbrev mappings : CustomMappings
mappings = initial_mappings from_toml (some "[field_mappings]")

abbrev unversioned : String × OcsfRecord ℕ
unversioned = convert outside "wazuh_ocsf" [] mappings "{}" alert

unversioned_runs :
    (transform outside "wazuh_ocsf" [] mappings "{}" globals).0
    ≡ some (unversioned.0, unversioned.1)
unfolding transform parse_line trim
unversioned_runs = refl

transform_without_meta_example : unversioned.1.ocsf_version ≡ ""
transform_without_meta_example =
    transform_without_meta outside "wazuh_ocsf" [] from_toml "[field_mappings]" toml "{}" globals
      unversioned.0 unversioned.1 database-AllChars refl refl unversioned_runs

-- The file is there from the time 5 on, and broken at 6.
abbrev text_at : Option ℕ → Option String
text_at none = none
text_at (some t) = if eqb t 6 then some "" else some "[field_mappings]"

abbrev watcher : Watcher
watcher = record { last = none; mappings = mappings }

watch-IsCurrent_example :
    (watch from_toml
      (map (λ t. (t, text_at t)) ((none ∷ some 5 ∷ some 6 ∷ []) ++ some 8 ∷ []))
      watcher).mappings
    ≡ record { ocsf_version = ""; field_map = ("aws.title", "department") ∷ []; ocsf_renames = [] }
unfolding initial_mappings
watch-IsCurrent_example =
    watch-IsCurrent from_toml text_at (none ∷ some 5 ∷ some 6 ∷ []) (some 8) watcher
      (record {
        ocsf_version = "";
        field_map = ("aws.title", "department") ∷ [];
        ocsf_renames = [];
      })
      (λ m h. cc) refl

abbrev var : String → Option String
var name =
    if name == "BATCH_SIZE"
    then some " 99999999999999999999 "
    else if name == "SPECIAL_LOCATIONS"
    then some " a, ,b"
    else none

from_env_runs : (from_env var).special_locations ≡ "a" ∷ "b" ∷ []
unfolding from_env parse_special_locations split trim
from_env_runs = refl
