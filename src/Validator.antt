-- ===== src/Validator.antt =====
-- The validator of uploaded archives: internal/validator/handler.go.
pub mod Content
pub mod Steps
