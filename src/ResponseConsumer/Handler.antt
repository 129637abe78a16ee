-- ===== src/ResponseConsumer/Handler.antt =====
-- The handler of internal/response-consumer/handler.go, and what it keeps.
pub mod Messages
pub mod Writing
pub mod Transactions
pub mod Runs
pub mod Runner
pub mod Satellite
pub mod Hosts
