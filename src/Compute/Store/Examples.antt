-- ===== src/Compute/Store/Examples.antt =====
-- Runs of the compute node's store on concrete executions.
use bacalhau.Base.{ℕ, ◌≡◌, refl, String, List, [], ◌∷◌, ◌++◌, some, All, arith}
use bacalhau.Base.Map
use bacalhau.Base.Result.{ok, err}
use bacalhau.Model.Job.{Job}
use bacalhau.Model.ResourceUsage.{ResourceUsageData}
use bacalhau.Compute.State.{
  Execution, ExecutionState, UpdateExecutionStateRequest, Error, new_execution, is_terminal,
  is_active,
}
use bacalhau.Compute.Store.{
  Store, new_store, update_execution_state, get_executions, get_active_execution,
}
use bacalhau.Compute.Store.Invariant.{IsConsistent, settle}
use bacalhau.Compute.Store.Runs.{
  Call, creates, updates, deletes, run, run_new-IsConsistent, terminal_execution_kept,
  stale_version_refused,
}
use bacalhau.Compute.Store.Queries.{get_executions_exact, IsHeld}
use bacalhau.Compute.Store.Active.{get_active_execution_last, actives, last_or}
use bacalhau.Compute.Store.Lists.{count}

abbrev job : Job
job = record {
  api_version = "V1beta2";
  metadata = record {
    id = "job";
    created_at = 1;
    client_id = "client";
    requester = record { requester_node_id = "requester"; requester_public_key = [] };
  };
  spec = record {
    verifier = "Noop";
    timeout = 0;
    inputs = [];
    annotations = [];
    deal = record { concurrency = 1; confidence = 0; min_bids = 0 };
  };
}

abbrev usage : ResourceUsageData
usage = record { cpu = 1; memory = 2; disk = 0; gpu = 0 }

abbrev zero_execution : Execution
zero_execution = record (new_execution "" job "" usage 0 0) {
  state = ExecutionState.undefined;
  version = 0;
}

abbrev change : String → ExecutionState → ℕ → UpdateExecutionStateRequest
change id state version = record {
  execution_id = id;
  new_state = state;
  expected_state = ExecutionState.undefined;
  expected_version = version;
  comment = "";
}

-- Two executions of one job; the first is updated last.
abbrev calls : List Call
calls =
    creates (new_execution "a" job "requester" usage 1 1)
    ∷ creates (new_execution "b" job "requester" usage 2 2)
    ∷ updates (change "a" ExecutionState.bid_accepted 1) 9
    ∷ []

abbrev stored : Store
stored = run new_store calls

abbrev first : Execution
first = record (new_execution "a" job "requester" usage 1 9) {
  state = ExecutionState.bid_accepted;
  version = 2;
  create_time = 1;
}

abbrev second : Execution
second = new_execution "b" job "requester" usage 2 2

get_executions-stored : get_executions stored zero_execution "job" ≡ ok (first ∷ second ∷ [])
unfolding get_executions run Map.get new_store new_execution Map.put
get_executions-stored = refl

-- The execution with the latest update is not the one that is returned.
get_active_execution_last_example :
    get_active_execution stored zero_execution "job" ≡ ok (last_or first (second ∷ []))
unfolding actives is_active new_execution
get_active_execution_last_example =
    get_active_execution_last stored zero_execution "job" (first ∷ second ∷ []) first (second ∷ [])
      get_executions-stored (omega arith) refl (omega arith)

run_new-IsConsistent_example : IsConsistent stored
run_new-IsConsistent_example = run_new-IsConsistent calls

get_executions_exact_example :
    All (IsHeld stored "job") (first ∷ second ∷ []) × (count "a" ("a" ∷ "b" ∷ []) ≡ 1)
unfolding new_execution run new_store Map.get Map.put
get_executions_exact_example =
    get_executions_exact stored zero_execution "job" (first ∷ second ∷ []) "a"
      (run_new-IsConsistent calls) get_executions-stored

-- The first execution is cancelled, and a late update and a deletion of the other follow.
abbrev ended : Store
ended = run new_store (calls ++ updates (change "a" ExecutionState.cancelled 0) 10 ∷ [])

abbrev cancelled : Execution
cancelled = record first { state = ExecutionState.cancelled; version = 3; update_time = 10 }

abbrev late : List Call
late = updates (change "a" ExecutionState.running 0) 11 ∷ deletes "b" ∷ []

ended_cancelled : Map.get ended.executions "a" ≡ some cancelled
unfolding run new_store Map.get Map.put new_execution
ended_cancelled = refl

terminal_execution_kept_example : Map.get (run ended late).executions "a" ≡ some cancelled
unfolding is_terminal
terminal_execution_kept_example =
    terminal_execution_kept ended late "a" cancelled
      (run_new-IsConsistent (calls ++ updates (change "a" ExecutionState.cancelled 0) 10 ∷ []))
      (tt, (refl, tt)) ended_cancelled refl

-- Two updates that expect the second version race.
abbrev won : Store
won = settle stored (update_execution_state stored (change "a" ExecutionState.running 2) 10)

won_granted : update_execution_state stored (change "a" ExecutionState.running 2) 10 ≡ ok won
unfolding run new_store Map.get Map.put new_execution update_execution_state
won_granted = refl

stale_version_refused_example :
    (x : Error) × (update_execution_state won (change "a" ExecutionState.failed 2) 11 ≡ err x)
stale_version_refused_example =
    stale_version_refused stored won (change "a" ExecutionState.running 2)
      (change "a" ExecutionState.failed 2) 10 11 (run_new-IsConsistent calls) won_granted
      (λ h. omega (arith, h)) refl refl
