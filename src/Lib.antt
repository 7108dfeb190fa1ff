-- ===== src/Lib.antt =====
-- A model of the pipeline that reads Wazuh alerts, turns each into an OCSF record, and writes the
-- records to ClickHouse.
--
-- The program. A reader task (src/input/tailer.rs, or src/input/zmq.rs) sends the lines of the alerts
-- file with the offset behind each through a channel. The loop of src/main.rs takes them, calls
-- `transform` (src/pipeline/transform.rs) on each, collects the rows by table, and calls `do_flush` if
-- a bucket is full, at a tick of the timer, or when the channel is closed. `do_flush` makes the columns
-- of custom mappings (src/config.rs, src/output/db.rs), writes all rows with `flush_all`, and saves the
-- position (src/input/state.rs), from which the next start goes on. A watcher in src/main.rs replaces
-- the mappings when their file changes, and the fields of events that no column takes are counted and
-- reported (src/util/unmapped.rs).
--
-- The files.
--   Base          lists, tests on numbers, and what the program uses of `str`.
--   Json          src/util/json.rs: the scans and walks. `Value` has the constructors of serde_json's
--                 type; a number is kept by its `as_u64` and its text, and a map by its entries.
--   FieldPaths    src/pipeline/field_paths.rs: the candidate paths of each column.
--   Classify      src/pipeline/classify.rs: one definition of Classify/Guards for each condition of the
--                 cascade in `classify_event`, and `map_severity`.
--   Config        src/config.rs: the parsers of settings, and the targets of custom columns. Settings has
--                 all settings, Load the mappings of field_mappings.toml and, from src/main.rs, their
--                 watcher; Checks has what `main` makes of the settings at its start.
--   Record        src/pipeline/record.rs.
--   Validator     src/pipeline/validator.rs: the violations as data, in the order of the checks.
--   Routing       `sanitize_name` and `routing_table` of src/pipeline/transform.rs.
--   Transform     `transform` by its stages. Columns has the local variables behind the columns; Extract
--                 fills them from the candidate paths; Native has the blocks for single log sources as
--                 lists of steps on the columns, with the severities of the cloud sources; Overlay lays
--                 the custom mappings over the columns; Input reads the event from its JSON; Activity,
--                 Status and Finish go from there to the record and its table. Convert puts the stages
--                 together to `transform`. Guarantees is about the whole of it, Versions about the
--                 version in its rows.
--   Tailer        src/input/tailer.rs: lines, rotation, and one round of the reader, over bytes, with what
--                 the system may do to its calls. Utf8 has the test of a line; Follow is about a reader
--                 of a file that grows, Resume about one that goes on behind another, and Faults about
--                 lines that are not UTF-8.
--   Unmapped      src/util/unmapped.rs: the known paths, the tracker behind the lock, and the report with
--                 its names in order, and its files.
--   ZeroMq        src/input/zmq.rs: the subscriber, as a function of what happens to its socket.
--   State         src/input/state.rs: the text of the state file, and saving as calls of the file system,
--                 which may stop before, in or behind each.
--   Db            src/output/db.rs: the statements as data, the insertion, and `flush_all`. The log has
--                 one entry for each table that a flush meets, with its rows and what became of them.
--                 Keeps, Delivery, Success and Added are about servers that do what they answer. Table
--                 has the columns of the table definition, and sets them against the fields of the
--                 row (src/pipeline/record.rs).
--   Pipeline      src/main.rs: the start position (Startup, Begin), `do_flush`, and the loop as a function
--                 of the events that happen to it (a line, the closed channel, a tick, a signal, a
--                 reload). Queues specifies the loop by one queue for each table; Stored runs it with
--                 `transform`, and Socket with the lines of ZeroMq. Restart and Recover let a session
--                 follow another on one file, after an ordinary end or a crash, with Saving and Crash
--                 on the steps that save the position.
--   Examples      tests, and each theorem at a concrete input.
--
-- Parameters. The ClickHouse server is a record of four calls over a state `W` of everything outside;
-- nothing is assumed of its answers unless a theorem says so. The loop has the rows and `transform` as
-- parameters, so what holds of it holds of any transformation; Stored takes `transform` for it. What
-- serde_json, chrono, the clock and the type f32 do for `transform` is a record of functions, of which
-- nothing is assumed. The reader's test for blank lines is a parameter, too, and so is how the server
-- reads the type of a column in the format RowBinary, of which its documentation is assumed.
-- Theorems on what reaches the server assume `IsHonest` (Db/Delivery): a call that succeeds has its
-- documented effect, and no call takes it away. The state file is taken to differ from its temporary file.
-- Maps with hashing are lists of their entries in the order of an iteration.
--
-- Bounds and fuel. Numbers are natural; the widths of the source's types are stated where a value is
-- parsed or cast. `to_decimal` divides by ten at most as often as its number says, which is enough
-- since each division makes the number smaller. All other recursion is on the structure.
--
-- Not modelled: the sockets themselves, pauses, logging, the codecs and settings of the table definition,
-- the setup in `main` of the client, the channel and the timers, and the tests and scripts of the
-- repository. The parser of TOML is a parameter, with the sections that it finds as its result, and the
-- files of the report are told apart by their kinds.
pub mod Base
pub mod Json
pub mod FieldPaths
pub mod Classify
pub mod Config
pub mod Record
pub mod Validator
pub mod Routing
pub mod Transform
pub mod State
pub mod Tailer
pub mod ZeroMq
pub mod Unmapped
pub mod Db
pub mod Pipeline
mod Examples
