-- ===== src/JobStore.antt =====
-- The requester's job store (pkg/jobstore).
pub mod Types
pub mod InMemory
pub mod Executions
pub mod Queries
pub mod InProgress
pub mod Stop
pub mod Merge
pub mod Ids
pub mod History
pub mod Invariant
pub mod Runs
pub mod Terminal
pub mod Conditions
pub mod Filling
mod Examples
