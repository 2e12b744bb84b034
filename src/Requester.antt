-- ===== src/Requester.antt =====
-- The requester node's endpoint, queue, node selector and scheduler, over the job store
-- (pkg/requester: endpoint.go, queue.go, node_selector.go, scheduler.go, scheduler_state.go).
pub mod World
pub mod Messages
pub mod Bids
pub mod Completion
pub mod Selection
pub mod Ranking
pub mod Stopping
pub mod Retries
pub mod Results
pub mod Transition
pub mod Callbacks
pub mod Jobs
pub mod Endpoint
pub mod Protocol
pub mod Termination
mod Examples
mod Scenario
mod Witnesses
