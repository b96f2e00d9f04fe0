-- ===== src/Worker.antt =====
-- internal/worker: the loop of one worker, and the pool that starts the workers.
pub mod Base
pub mod Pool
pub mod Ingestion
pub mod Planning
pub mod Closing
pub mod Ancestry
pub mod Paths
pub mod Generation
pub mod Validation
pub mod Mutation
pub mod Integration
pub mod Modeling
pub mod Handlers
mod Tests
