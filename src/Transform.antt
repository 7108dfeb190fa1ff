-- ===== src/Transform.antt =====
-- src/pipeline/transform.rs, by its stages: the overlay of custom mappings, and the end of `transform`
-- with activity, status, severity and the record.
pub mod Columns
pub mod Extract
pub mod Native
pub mod Input
pub mod Convert
pub mod Severities
pub mod Versions
pub mod Guarantees
pub mod Overlay
pub mod Activity
pub mod Status
pub mod Finish
pub mod Schema
pub mod OverlayLaws
pub mod Extensions
