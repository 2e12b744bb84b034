-- ===== src/JobStore/Examples.antt =====
-- Tests of the job store, and its theorems at concrete inputs.
use mathlib.Core.List.{Memᴰ}
use bacalhau.Base.{
  ◌+◌, ◌≡◌, ◌↔◌, refl, String, true, false, List, [], ◌∷◌, none, some, arith, inl, inr, All,
}
use bacalhau.Base.Map
use bacalhau.Base.Result.{ok, err}
use bacalhau.Model.ExecutionState
use bacalhau.Model.ExecutionState.{ExecutionState, ExecutionStateType, ExecutionId}
use bacalhau.Model.JobState
use bacalhau.Model.JobState.{JobState, JobStateType}
use bacalhau.Model.Job.{Job}
use bacalhau.JobStore.Types.{
  Error, UpdateJobStateRequest, UpdateExecutionRequest, validate_job, job_state_among,
}
use bacalhau.JobStore.InMemory.{
  JobStore, new_job_store, create_job, update_job_state, updated_state,
}
use bacalhau.JobStore.Executions.{create_execution, update_execution}
use bacalhau.JobStore.Filling.{fill, fill-Fills}
use bacalhau.JobStore.Invariant.{IsConsistent}
use bacalhau.JobStore.Invariant.Updates.{KeepsId}
use bacalhau.JobStore.Runs.{
  Call, creates_job, updates_job, creates_execution, updates_execution, run, IsAdmissible,
  run-IsConsistent,
}
use bacalhau.JobStore.Terminal.{Shows, terminal_final}
use bacalhau.JobStore.Conditions.{
  Admits, validate_job_iff, update_execution-Effect, stale_update_refused, Effect,
}
use bacalhau.JobStore.Queries.{job_with_info, get_in_progress_jobs}
use bacalhau.JobStore.InProgress.{Unfinished, get_in_progress_jobs_exact}
use bacalhau.JobStore.Stop.{stop_job}
use bacalhau.JobStore.Stop.Effect.{stop_job_effect, stop_job_refused, live, Holds, AllTerminal}

abbrev job_one : Job
job_one = record {
  api_version = "V1beta1";
  metadata = record {
    id = "job-0001";
    created_at = 1;
    client_id = "client";
    requester = record { requester_node_id = "node"; requester_public_key = [] };
  };
  spec = record {
    verifier = "Noop";
    timeout = 60;
    inputs = [];
    annotations = [];
    deal = record { concurrency = 1; confidence = 0; min_bids = 0 };
  };
}

-- An execution on a node, asked for a bid.
abbrev asked : ExecutionState
asked = record {
  job_id = "job-0001";
  node_id = "node-a";
  compute_reference = "e-1";
  state = ExecutionStateType.ask_for_bid;
  accepted_ask_for_bid = false;
  status = "";
  verification_proposal = [];
  verification_result = record { complete = false; result = false };
  published_result = "";
  run_output = none;
  version = 0;
  create_time = 0;
  update_time = 0;
}

abbrev blank : ExecutionStateType → ExecutionState
blank s = record asked { job_id = ""; node_id = ""; compute_reference = ""; state = s }

-- The node accepts: an update that expects the first version.
abbrev accepts : UpdateExecutionRequest
accepts = record {
  execution_id = record { job_id = "job-0001"; node_id = "node-a"; execution_id = "e-1" };
  condition = record {
    expected_state = ExecutionStateType.ask_for_bid;
    expected_version = 1;
    unexpected_states = [];
  };
  new_values = blank ExecutionStateType.ask_for_bid_accepted;
  comment = "";
}

accepts-KeepsId : KeepsId accepts
accepts-KeepsId = record { job_id = inl refl; node_id = inl refl; execution_id = inl refl }

abbrev finishes : UpdateJobStateRequest
finishes = record {
  job_id = "job-0001";
  condition = record {
    expected_state = JobStateType.new;
    unexpected_states = [];
    expected_version = 0;
  };
  new_state = JobStateType.completed;
  comment = "";
}

abbrev calls : List Call
calls = creates_job job_one 5 6 ∷ creates_execution asked 7 ∷ []

abbrev history : List Call
history =
    creates_job job_one 5 6
    ∷ creates_execution asked 7
    ∷ updates_execution accepts 9
    ∷ updates_job finishes 10
    ∷ updates_job finishes 11
    ∷ []

history-IsAdmissible : All IsAdmissible history
history-IsAdmissible = (tt, (tt, (accepts-KeepsId, (tt, (tt, tt)))))

stored : JobStore
stored = run fill new_job_store calls

stored-IsConsistent : IsConsistent stored
unfolding stored
stored-IsConsistent = run-IsConsistent fill fill-Fills calls (tt, (tt, tt))

run-IsConsistent_example : IsConsistent (run fill new_job_store history)
run-IsConsistent_example = run-IsConsistent fill fill-Fills history history-IsAdmissible

-- The calls reach the state that they should: the job is complete at its second version, and the
-- second completion is refused.
finished : JobStore
finished = run fill new_job_store history

finished-IsConsistent : IsConsistent finished
unfolding finished
finished-IsConsistent = run-IsConsistent fill fill-Fills history history-IsAdmissible

finished-Shows : Shows finished.states "job-0001" JobStateType.completed 2
unfolding finished run create_job update_job_state create_execution update_execution fill
    new_job_store Map.put Map.get Map.get_or ExecutionState.same ExecutionState.id validate_job
finished-Shows = (_, refl, refl, refl)

terminal_final_example :
    Shows (run fill finished history).states "job-0001" JobStateType.completed 2
unfolding JobState.is_terminal
terminal_final_example =
    terminal_final fill fill-Fills finished history "job-0001" JobStateType.completed 2
      finished-IsConsistent history-IsAdmissible refl finished-Shows

after_accept : JobStore
unfolding run create_job create_execution update_execution fill
after_accept =
    run fill new_job_store
      (creates_job job_one 5 6 ∷ creates_execution asked 7 ∷ updates_execution accepts 9 ∷ [])

accept_granted : update_execution fill stored accepts 9 ≡ ok after_accept
unfolding stored after_accept run create_job update_job_state create_execution update_execution fill
    new_job_store Map.put Map.get Map.get_or ExecutionState.same ExecutionState.id
accept_granted = refl

update_execution-Effect_example : Effect stored after_accept accepts 9
update_execution-Effect_example =
    update_execution-Effect fill fill-Fills stored after_accept accepts 9 accepts-KeepsId
      accept_granted refl refl refl

stale_update_refused_example : (e : Error) × (update_execution fill after_accept accepts 12 ≡ err e)
stale_update_refused_example =
    stale_update_refused fill fill-Fills stored after_accept accepts 9 accepts-KeepsId
      accept_granted refl (omega arith) (omega arith) accepts 12 refl refl

abbrev started : JobState
started = record {
  job_id = "job-0001";
  executions = record asked { version = 1; create_time = 7; update_time = 7 } ∷ [];
  state = JobStateType.new;
  version = 1;
  create_time = 5;
  update_time = 6;
  timeout_at = 0;
}

stored-started : Map.get stored.states "job-0001" ≡ some started
unfolding stored run create_job create_execution new_job_store Map.put Map.get Map.get_or
stored-started = refl

validate_job_iff_example :
    (validate_job finishes.condition started ≡ ok tt) ↔ Admits finishes.condition started
validate_job_iff_example = validate_job_iff finishes.condition started

finishes_admitted : validate_job finishes.condition started ≡ ok tt
unfolding job_state_among
finishes_admitted = validate_job_iff_example.1 (inl refl, inl refl, tt)

stop_job_effect_example :
    let (d', r) = stop_job fill stored "job-0001" "why" true (λ n. n + 20) in
    (r ≡ ok (live started.executions))
    × ((fs : List ExecutionState) × Holds d' "job-0001"
          (updated_state started JobStateType.cancelled 20)
          fs
        × AllTerminal fs)
unfolding JobState.is_terminal
stop_job_effect_example =
    stop_job_effect fill fill-Fills stored stored-IsConsistent "job-0001" "why" true (λ n. n + 20)
      started stored-started refl

stop_job_refused_example :
    (e : Error) × (stop_job fill finished "job-0001" "why" false (λ n. n) ≡ (finished, err e))
unfolding JobState.is_terminal finished-Shows
stop_job_refused_example =
    stop_job_refused fill fill-Fills finished finished-IsConsistent "job-0001" "why" false (λ n. n)
      (inr (finished-Shows.0, finished-Shows.1, refl))

get_in_progress_jobs_exact_example :
    Memᴰ (job_with_info stored "job-0001") (get_in_progress_jobs stored)
    ↔ ((id : String) × Unfinished stored (job_with_info stored "job-0001") id)
get_in_progress_jobs_exact_example =
    get_in_progress_jobs_exact stored stored-IsConsistent (job_with_info stored "job-0001")
