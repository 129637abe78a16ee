-- ===== src/Private.antt =====
-- The private API that creates and cancels runs: internal/api/controllers/private.
pub mod Inputs
pub mod Runs
pub mod Validation
pub mod Statuses
