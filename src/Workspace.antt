-- ===== src/Workspace.antt =====
-- internal/workspace: the state of a workspace, and the runner that generates tests for its targets.
pub mod Targets
pub mod Generate
pub mod Runner
