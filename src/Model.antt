-- ===== src/Model.antt =====
-- pkg/model: the model of a code base, and the planner of its tests.
pub mod Types
pub mod Builder
pub mod Adapter
pub mod Planner
