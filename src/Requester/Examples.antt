-- ===== src/Requester/Examples.antt =====
-- Checks of the scheduler on a concrete job.
use bacalhau.Base.{◌+◌, ◌-◌, ◌≤◌, ◌≡◌, refl, String, true, false, List, [], ◌∷◌, none, some}
use bacalhau.Base.Map
use bacalhau.Base.Result.{ok}
use bacalhau.Model.ExecutionState
use bacalhau.Model.ExecutionState.{ExecutionState, ExecutionStateType}
use bacalhau.Model.JobState
use bacalhau.Model.JobState.{JobState, JobStateType}
use bacalhau.Model.Job.{Job, get_confidence}
use bacalhau.JobStore.InMemory.{JobStore}
use bacalhau.JobStore.Executions.{Merge}
use bacalhau.Requester.Bids.{
  check_for_pending_bids, check_for_pending_bids_bound, accepted, active_executions,
}
use bacalhau.Requester.Messages.{Board}
use bacalhau.Requester.Completion.{
  check_for_completed_executions, check_for_completed_executions_lem, completed_state,
}

abbrev pub job : Job
job = record {
  api_version = "V1beta2";
  metadata = record {
    id = "job";
    created_at = 1;
    client_id = "client";
    requester = record { requester_node_id = "requester"; requester_public_key = [] };
  };
  spec = record {
    verifier = "Noop";
    timeout = 0;
    inputs = [];
    annotations = [];
    deal = record { concurrency = 1; confidence = 2; min_bids = 1 };
  };
}

abbrev on_node : String → ExecutionStateType → ExecutionState
on_node node state = record {
  job_id = "job";
  node_id = node;
  compute_reference = "e";
  state = state;
  accepted_ask_for_bid = true;
  status = "";
  verification_proposal = [];
  verification_result = record { complete = false; result = false };
  published_result = "";
  run_output = none;
  version = 2;
  create_time = 1;
  update_time = 2;
}

abbrev with_executions : List ExecutionState → JobState
with_executions es = record {
  job_id = "job";
  executions = es;
  state = JobStateType.in_progress;
  version = 2;
  create_time = 1;
  update_time = 2;
  timeout_at = 0;
}

abbrev pub holding : JobState → JobStore
holding s = record {
  jobs = ("job", job) ∷ [];
  states = ("job", s) ∷ [];
  history = [];
  inprogress = ("job", tt) ∷ [];
}

-- Two nodes bid for the one place.
abbrev two_bids : JobState
two_bids = with_executions (
    on_node "a" ExecutionStateType.ask_for_bid_accepted
    ∷ on_node "b" ExecutionStateType.ask_for_bid_accepted
    ∷ [])

-- A merge that keeps the identity of the old value and the state of the new one.
abbrev keep : Merge
keep dst src = ok (record src { state = dst.state; version = dst.version })

abbrev board : Board
board = record { store = holding two_bids; notices = [] }

check_for_pending_bids_bound_example :
    accepted (check_for_pending_bids keep board job two_bids (λ n. 3 + n)).notices ≤ 0 + (1 - 0)
unfolding accepted active_executions ExecutionState.is_active
check_for_pending_bids_bound_example =
    check_for_pending_bids_bound keep board job two_bids (λ n. 3 + n)

-- One execution of two is completed, the other has failed.
abbrev pub half_done : JobState
half_done =
    with_executions
      (on_node "a" ExecutionStateType.completed ∷ on_node "b" ExecutionStateType.failed ∷ [])

check_for_completed_executions_lem_example :
    Map.get (check_for_completed_executions (holding half_done) job half_done 7).states "job"
    ≡ some (completed_state half_done 2 7)
unfolding get_confidence Map.get JobState.is_terminal
check_for_completed_executions_lem_example =
    check_for_completed_executions_lem (holding half_done) job half_done 7 refl refl
