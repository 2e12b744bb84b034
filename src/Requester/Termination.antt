-- ===== src/Requester/Termination.antt =====
-- Why the transition of a job ends (pkg/requester/scheduler_state.go): each round that repeats it
-- leaves fewer executions with a proposed result.
pub mod Shrinks
pub mod Calls
pub mod Verdicts
pub mod Names
pub mod Rounds
pub mod Views
pub mod Pending
pub mod Fuel
