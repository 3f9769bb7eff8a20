-- ===== src/Workspaces.antt =====
-- backend/lexmind/workspace: the aggregate, the lock and the manager.
pub mod Workspace
pub mod Lock
pub mod Manager
