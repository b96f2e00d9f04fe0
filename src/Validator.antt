-- ===== src/Validator.antt =====
-- internal/validator: the repair of failing tests.
pub mod Fixer
