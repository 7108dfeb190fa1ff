-- ===== src/FieldPaths.antt =====
-- src/pipeline/field_paths.rs: for each typed column, the paths under `data` that are tried in order.
mod Network
mod Identity
mod Web
mod Endpoint
mod Outcome
pub use Network.*
pub use Identity.*
pub use Web.*
pub use Endpoint.*
pub use Outcome.*
