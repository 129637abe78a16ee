-- ===== src/Access/Workspace.antt =====
-- The default workspace of an org, looked up over HTTP with retries: internal/common/kessel/rbac.go
-- and token.go.
pub mod Client
pub mod Tokens
pub mod Lookup
pub mod Limits
pub mod Retries
pub mod Success
