-- ===== src/Examples/Sessions.antt =====
-- Tests and instances for sessions that follow each other on one file, and for bytes that are no text.
use wazuh_ocsf_etl.Base.{
  ℕ, suc, ◌+◌, String, List, [], ◌∷◌, ◌++◌, true, false, Option, none, some, ◌≡◌, ◌≢◌, refl, is_nil,
  length, All, arith, ◌≤◌, ◌<◌,
}
use wazuh_ocsf_etl.Config.{CustomMappings}
use wazuh_ocsf_etl.Db.Columns.{ClickHouse}
use wazuh_ocsf_etl.Tailer.{
  File, Reader, reader_round, next_line, read_line, drop, line_text, trim_end, open_at,
  check_rotation,
}
use wazuh_ocsf_etl.Tailer.Utf8.{start, utf8_run, utf8_step, is_utf8}
use wazuh_ocsf_etl.Tailer.Lines.{IsLine}
use wazuh_ocsf_etl.Tailer.Follow.{Change, IsText, grown, polled, follow, followed, followed_from}
use wazuh_ocsf_etl.Tailer.Resume.{SentOnce}
use wazuh_ocsf_etl.Tailer.Faults.{bad_line_shifts_offsets, cut_character_is_lost}
use wazuh_ocsf_etl.Pipeline.Startup.{AlertsFile, start_state, reader_offset}
use wazuh_ocsf_etl.Pipeline.Loop.{Service, Look, Event, line, closed, tick, shutdown, step, run}
use wazuh_ocsf_etl.State.Text.{default_state}
use wazuh_ocsf_etl.Pipeline.Begin.{saved_at_start, start_service, second_start}
use wazuh_ocsf_etl.Pipeline.Saving.{Sees}
use wazuh_ocsf_etl.Pipeline.Recover.{IsRecovered, crash_loses_no_line}
use wazuh_ocsf_etl.Pipeline.Restart.{two_sessions_read_each_line_once}

-- "hi", a line feed, and the beginning of the next line
abbrev file : File
file = record { inode = 9; content = 104 ∷ 105 ∷ 10 ∷ 104 ∷ [] }

-- The rest of the second line is written between two looks of the reader.
abbrev first : List Change
first = polled true ∷ grown (111 ∷ 10 ∷ []) ∷ polled true ∷ []

-- The second session finds one line more.
abbrev second : List Change
second = polled true ∷ polled true ∷ []

abbrev more : List ℕ
more = 122 ∷ 10 ∷ []

abbrev again : File
again = record (followed is_nil file first).0 {
  content = (followed is_nil file first).0.content ++ more;
}

abbrev now : AlertsFile
now = record { size = length again.content; inode = again.inode }

-- The loop takes in the first of the two lines that were sent.
abbrev taken : List (ℕ × List ℕ)
taken = (3, 104 ∷ 105 ∷ []) ∷ []

abbrev untaken : List (ℕ × List ℕ)
untaken = (6, 104 ∷ 111 ∷ []) ∷ []

abbrev decode : List ℕ → String
decode bytes = "hi"

abbrev server : ClickHouse ℕ ℕ
server = record {
  execute = λ s w. (true, suc w);
  open_insert = λ table w. (true, suc w);
  write = λ table row w. (true, suc w);
  end_insert = λ table w. (true, suc w);
}

abbrev mappings : CustomMappings
mappings = record { ocsf_version = "1.7.0"; field_map = []; ocsf_renames = [] }

abbrev service : Service ℕ ℕ
service = record {
  batches = [];
  known_tables = [];
  known_custom_cols = [];
  current_offset = 0;
  mappings = mappings;
  saved = record { inode = 0; offset = 0 };
  world = 0;
  log = [];
  shutting_down = false;
  running = true;
}

abbrev look : Look
look = record { alerts_inode = 9; save_ok = true }

abbrev to_row : CustomMappings → String → Option (String × ℕ)
to_row m raw = some ("wazuh_ocsf.web", 5)

abbrev events : List Event
events = line 3 "hi" look ∷ tick look ∷ shutdown ∷ []

abbrev ended : Service ℕ ℕ
ended =
    step server "wazuh_ocsf" none to_row 2 (closed look)
      (run server "wazuh_ocsf" none to_row 2 events service)

file_is_text : utf8_run start file.content ≡ start
unfolding utf8_run utf8_step
file_is_text = refl

first-IsText : All IsText first
unfolding utf8_run utf8_step
first-IsText = (tt, (refl, (tt, tt)))

more_is_text : utf8_run start more ≡ start
unfolding utf8_run utf8_step
more_is_text = refl

second-IsText : All IsText second
second-IsText = (tt, (tt, tt))

first_sent : (followed is_nil file first).1.sent ≡ taken ++ untaken
unfolding follow reader_round next_line read_line drop line_text trim_end open_at check_rotation
    is_utf8 utf8_step
first_sent = refl

inode_is_known : now.inode ≢ 0
unfolding follow
inode_is_known = omega arith

inode_is_seen : look.alerts_inode ≡ now.inode
unfolding follow
inode_is_seen = refl

events-Sees : All (Sees now.inode) events
unfolding follow
events-Sees = (refl, (refl, (tt, tt)))

two_sessions_read_each_line_once_example :
    SentOnce is_nil taken (
      followed_from is_nil
        (reader_offset (start_state ended.saved now true) now.inode)
        again
        second)
two_sessions_read_each_line_once_example =
    two_sessions_read_each_line_once server "wazuh_ocsf" none to_row 2 is_nil decode file first
      second more taken untaken events look service true file_is_text first-IsText more_is_text
      second-IsText first_sent refl (refl, (refl, (refl, tt))) refl refl refl inode_is_seen
      inode_is_known

-- The file as the first start finds it
abbrev seen_first : AlertsFile
seen_first = record { size = 4; inode = 9 }

abbrev begun : Service ℕ ℕ
begun = start_service mappings default_state seen_first false true 0

inode_was_seen : now.inode ≡ seen_first.inode
unfolding follow
inode_was_seen = refl

has_grown : seen_first.size ≤ now.size
unfolding follow
has_grown = omega arith

-- The loop dies behind the flush of the first line.
crash_loses_no_line_example :
    let died = run server "wazuh_ocsf" none to_row 1 events begun in
    IsRecovered server "wazuh_ocsf" none to_row 1 is_nil decode begun events died.log (
      followed_from is_nil
        (reader_offset (start_state died.saved now false) now.inode)
        again
        second)
crash_loses_no_line_example =
    crash_loses_no_line server "wazuh_ocsf" none to_row 1 is_nil decode file first second more taken
      untaken events mappings seen_first true 0 file_is_text first-IsText more_is_text second-IsText
      first_sent refl (refl, (refl, (refl, tt))) events-Sees inode_is_known

second_start_example :
    let saved = saved_at_start default_state seen_first true true in
    let from = reader_offset (start_state saved now true) now.inode in
    (0 < seen_first.size → true ≡ true → from ≡ seen_first.size)
    × (seen_first.size ≡ 0 → from ≡ now.size)
second_start_example = second_start seen_first now true inode_was_seen (omega arith) has_grown

-- A byte that UTF-8 does not have, and a line feed
abbrev bad : List ℕ
bad = 255 ∷ 10 ∷ []

abbrev raw : List ℕ
raw = 104 ∷ 105 ∷ 10 ∷ []

abbrev part : List ℕ
part = 104 ∷ []

abbrev with_bad_line : File
with_bad_line = record { inode = 9; content = bad ++ (raw ++ part) }

abbrev at_start : Reader
at_start = record { tailer = record { inode = 9; offset = 0; position = 0 }; sent = [] }

bad-IsLine : IsLine bad
unfolding read_line
bad-IsLine = refl

bad_is_no_text : is_utf8 bad ≡ false
unfolding is_utf8 utf8_step
bad_is_no_text = refl

raw-IsLine : IsLine raw
unfolding read_line
raw-IsLine = refl

raw_is_text : is_utf8 raw ≡ true
unfolding is_utf8 utf8_step
raw_is_text = refl

raw_is_shown : is_nil (line_text raw) ≡ false
unfolding line_text
raw_is_shown = refl

part_is_no_line : read_line part ≡ none
unfolding read_line
part_is_no_line = refl

part_is_some_byte : part ≢ []
part_is_some_byte = λ e. cc

part_is_text : is_utf8 part ≡ true
unfolding is_utf8 utf8_step
part_is_text = refl

bad_line_shifts_offsets_example :
    let r =
      (follow is_nil (polled true ∷ polled true ∷ polled true ∷ []) (with_bad_line, at_start)).1 in
    (r.sent ≡ (3, line_text raw) ∷ []) × (r.tailer.position ≡ 3) × (r.tailer.position + 2 ≡ 5)
bad_line_shifts_offsets_example =
    bad_line_shifts_offsets is_nil true with_bad_line at_start [] bad raw part refl refl refl refl
      bad-IsLine bad_is_no_text raw-IsLine raw_is_text raw_is_shown part_is_no_line
      part_is_some_byte part_is_text

-- The first byte of an `é`, and the rest of its line
abbrev cut : List ℕ
cut = 0xc3 ∷ []

abbrev tail : List ℕ
tail = 0xa9 ∷ 10 ∷ []

abbrev with_cut : File
with_cut = record { inode = 9; content = cut }

cut_is_no_line : read_line cut ≡ none
unfolding read_line
cut_is_no_line = refl

cut_is_inside : utf8_run start cut ≢ start
unfolding utf8_run utf8_step
cut_is_inside = λ e. cc

tail-IsLine : IsLine tail
unfolding read_line
tail-IsLine = refl

whole_is_text : utf8_run start (cut ++ tail) ≡ start
unfolding utf8_run utf8_step
whole_is_text = refl

cut_character_is_lost_example :
    let after = follow is_nil (polled true ∷ grown tail ∷ polled true ∷ []) (with_cut, at_start) in
    IsLine (cut ++ tail)
    × (is_utf8 (cut ++ tail) ≡ true)
    × (after.0.content ≡ cut ++ tail)
    × (after.1.tailer.position ≡ length after.0.content)
    × (after.1.sent ≡ [])
cut_character_is_lost_example =
    cut_character_is_lost is_nil true with_cut at_start [] cut tail refl refl cut_is_no_line
      cut_is_inside tail-IsLine whole_is_text
