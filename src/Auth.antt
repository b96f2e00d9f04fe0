-- ===== src/Auth.antt =====
-- Authentication: internal/auth.
pub mod Sessions
pub mod States
