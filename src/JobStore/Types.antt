-- ===== src/JobStore/Types.antt =====
-- Update requests, their conditions and the store's errors (pkg/jobstore/types.go, errors.go).
use bacalhau.Base.{ℕ, String, Bool, false, ◌&&◌, ◌||◌, not, List, [], ◌∷◌, ◌==◌, if◌then◌else◌}
use bacalhau.Base.Result.{Result, ok, err}
use bacalhau.Model.ExecutionState
use bacalhau.Model.ExecutionState.{ExecutionStateType, ExecutionState, ExecutionId}
use bacalhau.Model.JobState
use bacalhau.Model.JobState.{JobStateType, JobState}

-- `no_such_job` is `bacerrors.JobNotFound`; `merge_failed` is an error of the merge library.
pub data Error : Type 0 where
  no_such_job : String → Error
  job_not_found : String → Error
  job_already_exists : String → Error
  invalid_job_state : String → JobStateType → JobStateType → Error
  invalid_job_version : String → ℕ → ℕ → Error
  job_already_terminal : String → JobStateType → JobStateType → Error
  execution_not_found : ExecutionId → Error
  execution_already_exists : ExecutionId → Error
  invalid_execution_state : ExecutionId → ExecutionStateType → ExecutionStateType → Error
  invalid_execution_version : ExecutionId → ℕ → ℕ → Error
  execution_already_terminal : ExecutionId → ExecutionStateType → ExecutionStateType → Error
  merge_failed : String → Error

pub record UpdateJobCondition : Type 0 where
  pub expected_state : JobStateType
  pub unexpected_states : List JobStateType
  pub expected_version : ℕ

pub record UpdateJobStateRequest : Type 0 where
  pub job_id : String
  pub condition : UpdateJobCondition
  pub new_state : JobStateType
  pub comment : String

pub record UpdateExecutionCondition : Type 0 where
  pub expected_state : ExecutionStateType
  pub expected_version : ℕ
  pub unexpected_states : List ExecutionStateType

pub record UpdateExecutionRequest : Type 0 where
  pub execution_id : ExecutionId
  pub condition : UpdateExecutionCondition
  pub new_values : ExecutionState
  pub comment : String

-- The loop over `UnexpectedStates` of a job.
unfoldable pub job_state_among : List JobStateType → JobStateType → Bool
job_state_among [] s = false
job_state_among (x ∷ xs) s = JobState.same x s || job_state_among xs s

-- `UpdateJobCondition.Validate`
unfoldable pub validate_job : UpdateJobCondition → JobState → Result Error (Unit {0})
unfolding job_state_among
validate_job c s =
    if not (JobState.same c.expected_state JobStateType.new)
      && not (JobState.same c.expected_state s.state)
    then err (invalid_job_state s.job_id s.state c.expected_state)
    else if not (c.expected_version == 0) && not (c.expected_version == s.version)
    then err (invalid_job_version s.job_id s.version c.expected_version)
    else if job_state_among c.unexpected_states s.state
    then err (invalid_job_state s.job_id s.state JobStateType.new)
    else ok tt

-- The loop over `UnexpectedStates` of an execution.
unfoldable pub execution_state_among : List ExecutionStateType → ExecutionStateType → Bool
execution_state_among [] s = false
execution_state_among (x ∷ xs) s = ExecutionState.same x s || execution_state_among xs s

-- `UpdateExecutionCondition.Validate`
unfoldable pub validate_execution :
    UpdateExecutionCondition → ExecutionState → Result Error (Unit {0})
unfolding execution_state_among
validate_execution c e =
    if not (ExecutionState.same c.expected_state ExecutionStateType.new)
      && not (ExecutionState.same c.expected_state e.state)
    then err (invalid_execution_state (ExecutionState.id e) e.state c.expected_state)
    else if not (c.expected_version == 0) && not (c.expected_version == e.version)
    then err (invalid_execution_version (ExecutionState.id e) e.version c.expected_version)
    else if execution_state_among c.unexpected_states e.state
    then err (invalid_execution_state (ExecutionState.id e) e.state ExecutionStateType.new)
    else ok tt
