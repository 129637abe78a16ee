-- ===== src/Connections.antt =====
-- The connections of recipients and hosts: internal/api/connectors/inventory, and the controllers
-- recipientStatus.go and highlevelConnectionStatus.go of internal/api/controllers/private.
pub mod Inventory
pub mod Recipients
pub mod Status
