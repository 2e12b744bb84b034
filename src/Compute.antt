-- ===== src/Compute.antt =====
-- The compute node: its store of executions, its endpoint and executor, its capacity and its queue
-- (pkg/compute).
pub mod State
pub mod Store
pub mod Executor
pub mod Endpoint
pub mod Bidder
pub mod Stages
pub mod Capacity
pub mod Buffer
pub mod Strategies
