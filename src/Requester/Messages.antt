-- ===== src/Requester/Messages.antt =====
-- The scheduler's state as its operations see it: the job store, and what it has sent
-- (pkg/requester/scheduler.go).
use bacalhau.Base.{ℕ, String, Bool, List, [], ◌∷◌, ◌++◌}
use bacalhau.Base.Result.{ok, err}
use bacalhau.Model.ExecutionState.{ExecutionId}
use bacalhau.Model.Job.{Job}
use bacalhau.Requester.World.{NodeRank}
use bacalhau.JobStore.Types.{UpdateExecutionRequest}
use bacalhau.JobStore.InMemory.{JobStore}
use bacalhau.JobStore.Executions.{Merge, update_execution}

-- The events that the scheduler and the queue emit.
pub data Event : Type 0 where
  job_created : String → Event
  job_canceled : String → Event
  job_stopped : String → String → Bool → Event
  bid_received : ExecutionId → Event
  run_complete : ExecutionId → Event
  publish_complete : ExecutionId → Event
  compute_failure : ExecutionId → String → Event

-- The requests to compute nodes, and the events. A request is sent by a goroutine of its own, whose
-- failure, if any, comes back as a failure of the execution. One goroutine asks a started job's nodes
-- for bids.
pub data Notice : Type 0 where
  asks_for_bid : ExecutionId → Notice
  accepts : ExecutionId → Notice
  rejects : ExecutionId → Notice
  accepts_result : ExecutionId → Notice
  rejects_result : ExecutionId → Notice
  cancels : ExecutionId → String → Notice
  emits : Event → Notice
  starts_asking : Job → List NodeRank → Notice

-- The job store and the notices sent so far.
pub record Board : Type 0 where
  pub store : JobStore
  pub notices : List Notice

abbrev pub send : Board → Notice → Board
send b n = record b { notices = b.notices ++ n ∷ [] }

abbrev pub with_store : Board → JobStore → Board
with_store b d = record b { store = d }

-- An update of an execution, and a notice of it if the store grants it.
unfoldable pub update_and_notify : Merge → Board → UpdateExecutionRequest → ℕ → Notice → Board
update_and_notify merge b r now n = elim (update_execution merge b.store r now) [
  | err _ ↦ b
  | ok d ↦ send (with_store b d) n
]
