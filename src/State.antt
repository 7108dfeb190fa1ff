-- ===== src/State.antt =====
-- src/input/state.rs: the state file, its text and its atomic replacement.
pub mod Text
pub mod RoundTrip
pub mod Crash
