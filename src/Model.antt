-- ===== src/Model.antt =====
-- The data that the components exchange: internal/common/model.
-- A uuid is held by its canonical text, so `uuid.UUID.String()` is the identity; a Go pointer that
-- may be nil is an `Option`.
mod Db
mod Messages
mod Inputs
pub use Db.*
pub use Messages.*
pub use Inputs.*
