-- ===== src/ResponseConsumer.antt =====
-- The consumer of the run updates: internal/response-consumer.
pub mod Status
pub mod RunHosts
pub mod Handler
