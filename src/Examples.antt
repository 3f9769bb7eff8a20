-- ===== src/Examples.antt =====
-- The theorems at concrete inputs.
pub mod Memory
pub mod Jobs
mod Commands
mod Tasks
mod Imports
mod Events
mod Artifacts
mod Graph
mod Workspaces
mod Pipeline
mod Execution
mod Storage
mod Ingestion
mod Watcher
