-- ===== src/Compute/Stages/Examples.antt =====
-- A run of a compute node: a bid, an execution, its verification and its publication.
use bacalhau.Base.{ℕ, ◌≡◌, refl, String, List, [], ◌∷◌, none, some, true, false}
use bacalhau.Base.Map
use bacalhau.Base.Result.{ok}
use bacalhau.Model.Job.{Job}
use bacalhau.Model.ResourceUsage.{ResourceUsageData}
use bacalhau.Compute.State.{
  Execution, ExecutionState, ExecutionHistory, Error, new_execution, undefined, created,
  bid_accepted, running, waiting_verification, result_accepted, publishing, completed,
}
use bacalhau.Compute.Store.{Store, new_store, create_execution, update_execution_state}
use bacalhau.Compute.Bidder.{run_bidding}
use bacalhau.Compute.Bidder.Decision.{decision, run_bidding_decides}
use bacalhau.Compute.Endpoint.{Executor}
use bacalhau.Compute.Bidder.{AskForBidRequest, BidStrategyResponse}
use bacalhau.Compute.Stages.{IsStaged, stages, reported}
use bacalhau.Compute.Stages.Requests.{IsDeferred}
use bacalhau.Compute.Stages.Steps.{
  Step, bids, accepts_bid, accepts_result, starts_run, finishes_run, starts_publish,
  finishes_publish, steps, new_node, steps-IsStaged, completed_in_order,
}

abbrev job : Job
job = record {
  api_version = "V1beta2";
  metadata = record {
    id = "job";
    created_at = 1;
    client_id = "client";
    requester = record { requester_node_id = "requester"; requester_public_key = [] };
  };
  spec = record {
    verifier = "Noop";
    timeout = 0;
    inputs = [];
    annotations = [];
    deal = record { concurrency = 1; confidence = 0; min_bids = 0 };
  };
}

abbrev usage : ResourceUsageData
usage = record { cpu = 1; memory = 2; disk = 0; gpu = 0 }

abbrev yes_bid : BidStrategyResponse
yes_bid = record { should_bid = true; should_wait = false; reason = "" }

abbrev ask : AskForBidRequest
ask = record { execution_id = "e"; job = job; source_peer_id = "requester" }

-- An executor that only queues.
abbrev queues : Executor
queues = record { run = λ n e. (n, none); publish = λ n e. (n, none); cancel = λ n e. (n, none) }

queues-IsDeferred : IsDeferred queues
queues-IsDeferred = record {
  run_store = λ n e. refl;
  publish_store = λ n e. refl;
  cancel_store = λ n e. refl;
}

abbrev task : Execution
task = new_execution "e" job "requester" usage 1 1

abbrev life : List Step
life =
    bids ask (record { semantic = ok yes_bid; usage = ok usage; resource = ok yes_bid }) 1 1
    ∷ accepts_bid "e" 2
    ∷ starts_run task 3
    ∷ finishes_run task (ok "proposal") 4
    ∷ accepts_result "e" 5
    ∷ starts_publish task 6
    ∷ finishes_publish task (ok "cid") none 7
    ∷ []

abbrev text : Error → String
text x = "store error"

steps-IsStaged_example : IsStaged (steps text queues new_node life).store
steps-IsStaged_example = steps-IsStaged text queues queues-IsDeferred life

abbrev done : Execution
done = record task { state = completed; version = 7; update_time = 7 }

abbrev entry : ExecutionState → ExecutionState → ℕ → ℕ → String → ExecutionHistory
entry previous state version time comment = record {
  execution_id = "e";
  previous_state = previous;
  new_state = state;
  new_version = version;
  comment = comment;
  time = time;
}

abbrev told : List ExecutionHistory
told =
    entry undefined created 1 1 "Execution created"
    ∷ entry created bid_accepted 2 2 ""
    ∷ entry bid_accepted running 3 3 ""
    ∷ entry running waiting_verification 4 4 ""
    ∷ entry waiting_verification result_accepted 5 5 ""
    ∷ entry result_accepted publishing 6 6 ""
    ∷ entry publishing completed 7 7 ""
    ∷ []

life_result : Map.get (steps text queues new_node life).store.executions "e" ≡ some done
unfolding steps Map.get update_execution_state create_execution new_store new_execution Map.put
life_result = refl

life_told : Map.get (steps text queues new_node life).store.history "e" ≡ some told
unfolding steps Map.get update_execution_state create_execution new_store new_execution Map.put
life_told = refl

completed_in_order_example : reported told ≡ stages completed
unfolding new_execution
completed_in_order_example =
    completed_in_order text queues queues-IsDeferred life "e" done told life_result life_told refl

-- The semantic strategy waits while the resource strategy declines: the execution is kept.
abbrev waits : BidStrategyResponse
waits = record { should_bid = false; should_wait = true; reason = "" }

abbrev declines : BidStrategyResponse
declines = record { should_bid = false; should_wait = false; reason = "busy" }

abbrev with_task : Store
with_task = record {
  executions = ("e", task) ∷ [];
  jobs = ("job", "e" ∷ []) ∷ [];
  history = ("e", entry undefined created 1 1 "Execution created" ∷ []) ∷ [];
}

task_created : create_execution new_store task ≡ ok with_task
unfolding create_execution new_store new_execution Map.get Map.put
task_created = refl

run_bidding_decides_example :
    run_bidding new_node ask
      (record { semantic = ok waits; usage = ok usage; resource = ok declines })
      1
      1
    ≡ decision new_node "e" with_task waits declines
run_bidding_decides_example =
    run_bidding_decides new_node ask usage 1 1 with_task task_created waits declines refl refl
