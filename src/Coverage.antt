-- ===== src/Coverage.antt =====
-- internal/codecov: coverage reports, and the gaps that they show.
pub mod Collector
pub mod Gaps
pub mod Analyzer
