-- ===== src/Requester/Protocol/Requests.antt =====
-- The updates that the scheduler asks for keep to the lifecycle (pkg/requester/scheduler.go,
-- pkg/jobstore/utils.go).
use bacalhau.Base.{◌≡◌, refl, String, Bool, true, false, inl, inr, arith, Bool-cases}
use bacalhau.Base.Result.{ok}
use bacalhau.Model.ExecutionState
use bacalhau.Model.ExecutionState.{
  ExecutionState, ExecutionStateType, ExecutionId, same, is_terminal,
}
use bacalhau.JobStore.Types.{UpdateExecutionRequest, validate_execution}
use bacalhau.JobStore.Stop.{only_state, cancel_request}
use bacalhau.JobStore.Invariant.Updates.{KeepsId}
use bacalhau.Requester.Bids.{bid_request}
use bacalhau.Requester.Results.{verdict_request}
use bacalhau.Requester.Callbacks.{
  BidResult, RunResult, PublishResult, bid_update, run_update, publish_update, failure_update,
  expecting,
}
use bacalhau.Requester.Protocol.{follows, ends, Moves}

-- A condition with an expected state, which is not `new`, admits that state alone.
expected_alone :
    (r : UpdateExecutionRequest) (x : ExecutionState)
    → same r.condition.expected_state ExecutionStateType.new ≡ false
    → validate_execution r.condition x ≡ ok tt
    → x.state ≡ r.condition.expected_state
unfolding validate_execution
expected_alone r x named valid =
    ground (arith, ExecutionState.same_iff r.condition.expected_state x.state)

-- An update with an expected state moves on what it admits, if the new state follows on that one.
expected-Moves :
    (r : UpdateExecutionRequest)
    → same r.condition.expected_state ExecutionStateType.new ≡ false
    → follows r.condition.expected_state r.new_values.state ≡ true
    → Moves r
expected-Moves r named next x valid live = rw (expected_alone r x named valid) next

-- A failure or a cancellation moves on every live execution.
ends-Moves : (r : UpdateExecutionRequest) → ends r.new_values.state ≡ true → Moves r
unfolding follows is_terminal
ends-Moves r e x valid live = ground arith

pub bid_request-Moves :
    (e : ExecutionState) (s : ExecutionStateType)
    → e.state ≡ ExecutionStateType.ask_for_bid_accepted
    → follows ExecutionStateType.ask_for_bid_accepted s ≡ true
    → Moves (bid_request e s)
unfolding bid_request same only_state
bid_request-Moves e s here next = expected-Moves (bid_request e s) (rw here refl) (rw here next)

pub bid_request-KeepsId : (e : ExecutionState) (s : ExecutionStateType) → KeepsId (bid_request e s)
unfolding bid_request only_state
bid_request-KeepsId e s = record { job_id = inl refl; node_id = inl refl; execution_id = inl refl }

pub verdict_request-Moves :
    (i : ExecutionId) (s : ExecutionStateType) (passed : Bool)
    → follows ExecutionStateType.result_proposed s ≡ true
    → Moves (verdict_request i s passed)
unfolding verdict_request same only_state
verdict_request-Moves i s passed next = expected-Moves (verdict_request i s passed) refl next

pub verdict_request-KeepsId :
    (i : ExecutionId) (s : ExecutionStateType) (passed : Bool)
    → KeepsId (verdict_request i s passed)
unfolding verdict_request only_state
verdict_request-KeepsId i s passed = record {
  job_id = inl refl;
  node_id = inl refl;
  execution_id = inl refl;
}

pub bid_update-Moves : (r : BidResult) → Moves (bid_update r)
unfolding bid_update same follows expecting only_state
bid_update-Moves r =
    expected-Moves (bid_update r) refl
      (elim (Bool-cases r.accepted) [ inl yes_bid ↦ rw yes_bid refl | inr no_bid ↦ rw no_bid refl ])

pub bid_update-KeepsId : (r : BidResult) → KeepsId (bid_update r)
unfolding bid_update expecting only_state
bid_update-KeepsId r = record { job_id = inl refl; node_id = inl refl; execution_id = inl refl }

pub run_update-Moves : (r : RunResult) → Moves (run_update r)
unfolding run_update same follows expecting only_state
run_update-Moves r = expected-Moves (run_update r) refl refl

pub run_update-KeepsId : (r : RunResult) → KeepsId (run_update r)
unfolding run_update expecting only_state
run_update-KeepsId r = record { job_id = inl refl; node_id = inl refl; execution_id = inl refl }

pub publish_update-Moves : (r : PublishResult) → Moves (publish_update r)
unfolding publish_update same follows expecting only_state
publish_update-Moves r = expected-Moves (publish_update r) refl refl

pub publish_update-KeepsId : (r : PublishResult) → KeepsId (publish_update r)
unfolding publish_update expecting only_state
publish_update-KeepsId r = record { job_id = inl refl; node_id = inl refl; execution_id = inl refl }

pub failure_update-Moves : (i : ExecutionId) (m : String) → Moves (failure_update i m)
unfolding failure_update ends only_state
failure_update-Moves i m = ends-Moves (failure_update i m) refl

pub failure_update-KeepsId : (i : ExecutionId) (m : String) → KeepsId (failure_update i m)
unfolding failure_update only_state
failure_update-KeepsId i m = record {
  job_id = inl refl;
  node_id = inl refl;
  execution_id = inl refl;
}

pub cancel_request-Moves : (e : ExecutionState) (m : String) → Moves (cancel_request e m)
unfolding cancel_request ends only_state
cancel_request-Moves e m = ends-Moves (cancel_request e m) refl

pub cancel_request-KeepsId : (e : ExecutionState) (m : String) → KeepsId (cancel_request e m)
unfolding cancel_request only_state
cancel_request-KeepsId e m = record {
  job_id = inl refl;
  node_id = inl refl;
  execution_id = inl refl;
}
