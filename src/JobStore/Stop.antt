-- ===== src/JobStore/Stop.antt =====
-- Stopping a job with all its executions (pkg/jobstore/utils.go).
pub mod Middle
pub mod Effect
use bacalhau.Base.{suc, ℕ, String, Bool, false, List, [], ◌∷◌, none, if◌then◌else◌}
use bacalhau.Base.Result.{Result, ok, err}
use bacalhau.Model.ExecutionState
use bacalhau.Model.ExecutionState.{
  ExecutionStateType, ExecutionState, VerificationResult, failed, completed, canceled,
}
use bacalhau.Model.JobState.{JobStateType}
use bacalhau.JobStore.Types.{Error, UpdateJobStateRequest, UpdateExecutionRequest}
use bacalhau.JobStore.InMemory.{JobStore, update_job_state}
use bacalhau.JobStore.Executions.{Merge, update_execution}
use bacalhau.JobStore.Queries.{get_job_state}

-- The zero value of `ExecutionState`, with a state and a status.
unfoldable pub only_state : ExecutionStateType → String → ExecutionState
only_state s status = record {
  job_id = "";
  node_id = "";
  compute_reference = "";
  state = s;
  accepted_ask_for_bid = false;
  status = status;
  verification_proposal = [];
  verification_result = record { complete = false; result = false };
  published_result = "";
  run_output = none;
  version = 0;
  create_time = 0;
  update_time = 0;
}

-- The update of the job that `StopJob` asks for.
unfoldable pub stop_request : String → String → Bool → UpdateJobStateRequest
stop_request job_id reason user_requested = record {
  job_id = job_id;
  condition = record {
    expected_state = JobStateType.new;
    unexpected_states =
        JobStateType.completed
        ∷ (if user_requested then JobStateType.error else JobStateType.cancelled)
        ∷ [];
    expected_version = 0;
  };
  new_state = if user_requested then JobStateType.cancelled else JobStateType.error;
  comment = reason;
}

-- The update of one execution that `StopJob` asks for.
unfoldable pub cancel_request : ExecutionState → String → UpdateExecutionRequest
unfolding only_state
cancel_request e reason = record {
  execution_id = ExecutionState.id e;
  condition = record {
    expected_state = ExecutionStateType.new;
    expected_version = 0;
    unexpected_states = failed ∷ completed ∷ [];
  };
  new_values = only_state canceled reason;
  comment = "";
}

-- The loop of `StopJob`. An update that fails is logged, and the loop goes on. `clock n` is the time
-- of the n-th execution's turn.
unfoldable pub cancel_all :
    Merge → JobStore → List ExecutionState → String → (ℕ → ℕ) → JobStore × List ExecutionState
unfolding cancel_request ExecutionState.is_terminal
cancel_all merge d [] reason clock = (d, [])
cancel_all merge d (e ∷ es) reason clock =
    if ExecutionState.is_terminal e.state
    then cancel_all merge d es reason (λ n. clock (suc n))
    else elim (update_execution merge d (cancel_request e reason) (clock 0)) [
      | err _ ↦ cancel_all merge d es reason (λ n. clock (suc n))
      | ok d' ↦
          let (d'', rest) = cancel_all merge d' es reason (λ n. clock (suc n)) in (d'', e ∷ rest)
    ]

-- `StopJob`. What was written before an error stays written, so the store comes back beside it.
unfoldable pub stop_job :
    Merge
    → JobStore
    → String
    → String
    → Bool
    → (ℕ → ℕ)
    → JobStore × Result Error (List ExecutionState)
unfolding stop_request cancel_all
stop_job merge d job_id reason user_requested clock =
    elim (update_job_state d (stop_request job_id reason user_requested) (clock 0)) [
      | err e ↦ (d, err e)
      | ok d' ↦ elim (get_job_state d' job_id) [
        | err e ↦ (d', err e)
        | ok s ↦
            let (d'', cancelled) = cancel_all merge d' s.executions reason (λ n. clock (suc n)) in
            (d'', ok cancelled)
      ]
    ]
