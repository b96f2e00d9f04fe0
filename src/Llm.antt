-- ===== src/Llm.antt =====
-- Language models: internal/llm.
pub mod Cache
pub mod Usage
pub mod Router
