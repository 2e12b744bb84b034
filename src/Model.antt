-- ===== src/Model.antt =====
-- The data that every part of the program exchanges (pkg/model).
pub mod ExecutionState
pub mod JobState
pub mod Job
pub mod ResourceUsage
