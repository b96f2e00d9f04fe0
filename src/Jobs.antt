-- ===== src/Jobs.antt =====
-- Asynchronous jobs: internal/jobs. The definitions stand in the child modules.
pub mod Types
pub mod Payloads
pub mod Store
pub mod Queries
pub mod Repository
pub mod Subjects
pub mod Pipeline
