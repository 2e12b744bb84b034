-- ===== src/Requester/Callbacks.antt =====
-- The scheduler's answers to the compute nodes (pkg/requester/scheduler.go). A callback updates the
-- execution that it is about, and then transitions its job.
use bacalhau.Base.{ℕ, String, Bool, List, [], ◌∷◌, Option, some, if◌then◌else◌}
use bacalhau.Base.Result.{ok, err}
use bacalhau.Model.ExecutionState.{ExecutionState, ExecutionStateType, ExecutionId}
use bacalhau.JobStore.Types.{UpdateExecutionRequest}
use bacalhau.JobStore.Executions.{update_execution}
use bacalhau.JobStore.Stop.{only_state}
use bacalhau.Requester.World.{Scheduler, World, late}
use bacalhau.Requester.Messages.{
  Board, send, with_store, emits, bid_received, run_complete, publish_complete, compute_failure,
}
use bacalhau.Requester.Transition.{transition}

-- The answers of a compute node (pkg/compute/types.go), of their metadata the execution's ID.
pub record BidResult : Type 0 where
  pub execution_id : ExecutionId
  pub accepted : Bool
  pub reason : String

pub record RunResult : Type 0 where
  pub execution_id : ExecutionId
  pub result_proposal : List ℕ
  pub run_command_result : Option String

pub record PublishResult : Type 0 where
  pub execution_id : ExecutionId
  pub publish_result : String

pub record ComputeError : Type 0 where
  pub execution_id : ExecutionId
  pub err : String

-- An update of an execution that is expected in a state.
unfoldable pub expecting :
    ExecutionId → ExecutionStateType → ExecutionState → UpdateExecutionRequest
expecting i expected new_values = record {
  execution_id = i;
  condition = record { expected_state = expected; expected_version = 0; unexpected_states = [] };
  new_values = new_values;
  comment = "";
}

unfoldable pub bid_update : BidResult → UpdateExecutionRequest
unfolding expecting only_state
bid_update r =
    expecting r.execution_id ExecutionStateType.ask_for_bid
      (record (only_state
        (if r.accepted
          then ExecutionStateType.ask_for_bid_accepted
          else ExecutionStateType.ask_for_bid_rejected)
        r.reason) { accepted_ask_for_bid = r.accepted })

unfoldable pub run_update : RunResult → UpdateExecutionRequest
unfolding expecting only_state
run_update r =
    expecting r.execution_id ExecutionStateType.bid_accepted
      (record (only_state ExecutionStateType.result_proposed "") {
        verification_proposal = r.result_proposal;
        run_output = r.run_command_result;
      })

unfoldable pub publish_update : PublishResult → UpdateExecutionRequest
unfolding expecting only_state
publish_update r =
    expecting r.execution_id ExecutionStateType.result_accepted
      (record (only_state ExecutionStateType.completed "") { published_result = r.publish_result })

unfoldable pub failure_update : ExecutionId → String → UpdateExecutionRequest
unfolding only_state
failure_update i failure = record {
  execution_id = i;
  condition = record {
    expected_state = ExecutionStateType.new;
    expected_version = 0;
    unexpected_states = ExecutionStateType.completed ∷ ExecutionStateType.canceled ∷ [];
  };
  new_values = only_state ExecutionStateType.failed failure;
  comment = failure;
}

-- The event of a bid.
abbrev pub emit_bid : BidResult → Board → Board
emit_bid r c = if r.accepted then send c (emits (bid_received r.execution_id)) else c

-- What a callback reports.
pub data Report : Type 0 where
  of_bid : BidResult → Report
  of_run : RunResult → Report
  of_publish : PublishResult → Report
  of_failure : ExecutionId → String → Report

-- The first half of a callback, up to its transition. No lock holds the two halves together.
unfoldable pub update_and_emit :
    Scheduler → World → Board → UpdateExecutionRequest → (Board → Board) → Board
update_and_emit s w b r emit = elim (update_execution s.merge b.store r (w 0).now) [
  | err _ ↦ b
  | ok d ↦ emit (with_store b d)
]

unfoldable pub report : Scheduler → World → Board → Report → Board
unfolding update_and_emit bid_update run_update publish_update failure_update
report s w b (of_bid r) = update_and_emit s w b (bid_update r) (emit_bid r)
report s w b (of_run r) =
    update_and_emit s w (send b (emits (run_complete r.execution_id))) (run_update r) (λ c. c)
report s w b (of_publish r) =
    update_and_emit s w (send b (emits (publish_complete r.execution_id))) (publish_update r)
      (λ c. c)
report s w b (of_failure i failure) =
    update_and_emit s w b (failure_update i failure)
      (λ c. send c (emits (compute_failure i failure)))

module _ (fuel : ℕ) (s : Scheduler) where
  -- The transition that follows a granted update, behind the event that it emits.
  unfoldable pub update_then_transition :
      World → Board → UpdateExecutionRequest → (Board → Board) → Option Board
  unfolding transition
  update_then_transition w b r emit = elim (update_execution s.merge b.store r (w 0).now) [
    | err _ ↦ some b
    | ok d ↦ transition fuel s (late w) (emit (with_store b d)) r.execution_id.job_id
  ]

  unfoldable pub on_bid_complete : World → Board → BidResult → Option Board
  unfolding update_then_transition bid_update
  on_bid_complete w b r = update_then_transition w b (bid_update r) (emit_bid r)

  unfoldable pub on_run_complete : World → Board → RunResult → Option Board
  unfolding update_then_transition run_update
  on_run_complete w b r =
      update_then_transition w (send b (emits (run_complete r.execution_id))) (run_update r)
        (λ c. c)

  unfoldable pub on_publish_complete : World → Board → PublishResult → Option Board
  unfolding update_then_transition publish_update
  on_publish_complete w b r =
      update_then_transition w (send b (emits (publish_complete r.execution_id))) (publish_update r)
        (λ c. c)

  unfoldable pub handle_execution_failure : World → Board → ExecutionId → String → Option Board
  unfolding update_then_transition failure_update
  handle_execution_failure w b i failure =
      update_then_transition w b (failure_update i failure)
        (λ c. send c (emits (compute_failure i failure)))

  unfoldable pub on_compute_failure : World → Board → ComputeError → Option Board
  unfolding handle_execution_failure
  on_compute_failure w b r = handle_execution_failure w b r.execution_id r.err
