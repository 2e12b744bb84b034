-- ===== src/Requester/World.antt =====
-- What the scheduler is configured with, and what it reads from outside while it works
-- (pkg/requester: types.go, scheduler.go; pkg/verifier/types.go).
use bacalhau.Base.{ℕ, ◌+◌, ◌*◌, String, Bool, Option, List}
use bacalhau.Base.Result.{Result}
use bacalhau.Model.ExecutionState.{ExecutionState, ExecutionId}
use bacalhau.Model.Job.{Job, Deal}
use bacalhau.JobStore.Types.{Error}
use bacalhau.JobStore.Executions.{Merge}

-- Go's `int`, a rank.
pub data ℤ : Type 0 where
  pos : ℕ → ℤ
  negsuc : ℕ → ℤ

-- Of a node's description, its peer ID.
pub record NodeInfo : Type 0 where
  pub peer_id : String

pub record NodeRank : Type 0 where
  pub node_info : NodeInfo
  pub rank : ℤ

pub record VerifierRequest : Type 0 where
  pub job_id : String
  pub deal : Deal
  pub executions : List ExecutionState

pub record VerifierResult : Type 0 where
  pub execution_id : ExecutionId
  pub verified : Bool

-- The errors of the scheduler; `outside` is one that a discoverer, a ranker, a strategy, a transformer
-- or a verifier returned.
pub data SchedulerError : Type 0 where
  stored : Error → SchedulerError
  not_enough_nodes : ℕ → ℕ → SchedulerError
  job_already_terminal : String → SchedulerError
  unknown_client : SchedulerError
  outside : String → SchedulerError

-- What the scheduler meets at one instant: the time, a fresh UUID, whether an append to a slice takes
-- a new array, the retry strategy, the discovery
-- and the ranking of nodes, and the verifier of the job (whose look-up may fail, too).
pub record Instant : Type 0 where
  pub now : ℕ
  pub uuid : String
  pub reallocates : Bool
  pub should_retry : String → Bool
  pub find_nodes : Job → Result String (List NodeInfo)
  pub rank_nodes : Job → List NodeInfo → Result String (List NodeRank)
  pub verify : String → VerifierRequest → Result String (List VerifierResult)

-- The instants in which an operation reads something. Two operations in a row share them out.
abbrev pub World : Type 0
World = ℕ → Instant

abbrev pub early : World → World
early w n = w (2 * n)

abbrev pub late : World → World
late w n = w (2 * n + 1)

-- The readings of the clock.
abbrev pub clock : World → ℕ → ℕ
clock w n = (w n).now

-- `BaseScheduler`: its factor, and the outside functions it works with. `join` is the text of two
-- errors that `multierr.Append` joins, `text` is `Error()`, `sort` is Go's `sort.Slice` by rank.
pub record Scheduler : Type 0 where
  pub over_ask_for_bids_factor : ℕ
  pub merge : Merge
  pub join : Option SchedulerError → String → String
  pub text : SchedulerError → String
  pub sort : List NodeRank → List NodeRank
