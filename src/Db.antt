-- ===== src/Db.antt =====
-- src/output/db.rs: tables, columns and batches, over a ClickHouse server that is a parameter.
pub mod Table
pub mod Columns
pub mod Flush
pub mod Conserve
pub mod Keeps
pub mod Delivery
pub mod Success
pub mod Added
