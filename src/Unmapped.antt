-- ===== src/Unmapped.antt =====
-- src/util/unmapped.rs: the fields of events that no column takes.
pub mod Known
pub mod Tracker
pub mod Counts
pub mod Report
pub mod Files
