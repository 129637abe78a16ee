-- ===== src/Public.antt =====
-- The public API: internal/api/controllers/public.
pub mod Pages
pub mod Fields
pub mod Listing
pub mod Hosts
