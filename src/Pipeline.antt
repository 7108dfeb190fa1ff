-- ===== src/Pipeline.antt =====
-- src/main.rs: start position, flushes and the event loop.
pub mod Startup
pub mod Loop
pub mod Begin
pub mod Conserve
pub mod Custom
pub mod Offsets
pub mod Buckets
pub mod Queues
pub mod Socket
pub mod Restart
pub mod Saving
pub mod Crash
pub mod Recover
pub mod Rotated
pub mod Delivery
pub mod Stored
