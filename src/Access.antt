-- ===== src/Access.antt =====
-- Who may call the public API: internal/api/middleware, internal/api/rbac, internal/common/kessel and
-- internal/common/unleash/features.
pub mod Identity
pub mod Modes
pub mod Permissions
pub mod Kessel
pub mod Workspace
pub mod Psk
pub mod Enforcement
