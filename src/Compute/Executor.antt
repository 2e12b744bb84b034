-- ===== src/Compute/Executor.antt =====
-- The compute node's executor (pkg/compute/executor.go). A method is cut where it waits for a
-- verifier, a job executor or a publisher, so that calls of other goroutines may come in between;
-- what these return is an argument. The text of an error of the store is a parameter.
use bacalhau.Base.{ℕ, String, Bool, List, [], ◌∷◌, ◌++◌, Option, none, some}
use bacalhau.Base.Map
use bacalhau.Base.Map.{Map}
use bacalhau.Base.Result.{Result, ok, err}
use bacalhau.Compute.State.{Execution, ExecutionState, UpdateExecutionStateRequest, Error}
use bacalhau.Compute.Store.{Store, update_execution_state}

-- The calls of the requester's callback, in their order. Results are carried by name.
pub data Message : Type 0 where
  on_bid_complete : String → Bool → String → Message
  on_run_complete : String → String → Message
  on_publish_complete : String → String → Message
  on_cancel_complete : String → Message
  on_compute_failure : String → String → Message

-- The store, the executor's map of cancel functions, the executions whose cancel function was
-- called, and the callbacks made so far.
pub record Node : Type 0 where
  pub store : Store
  pub cancellers : Map (Unit {0})
  pub stopped : List String
  pub sent : List Message

unfoldable pub send : Node → Message → Node
send n m = record n { sent = n.sent ++ m ∷ [] }

-- An update request of the endpoint or the executor, which never expects a version.
unfoldable pub request :
    String → ExecutionState → ExecutionState → String → UpdateExecutionStateRequest
request id expected new_state comment = record {
  execution_id = id;
  new_state = new_state;
  expected_state = expected;
  expected_version = 0;
  comment = comment;
}

-- A deferred or explicit call of the cancel function, if it is still in the map.
unfoldable pub call_canceller : Node → String → Node
call_canceller n id = elim (Map.get n.cancellers id) [
  | none ↦ n
  | some _ ↦ record n { cancellers = Map.remove n.cancellers id; stopped = n.stopped ++ id ∷ [] }
]

module _ (text : Error → String) where
  -- `handleFailure`
  unfoldable pub handle_failure : Node → Execution → String → ℕ → Node
  unfolding send request
  handle_failure n e message now =
      elim (update_execution_state n.store
        (request e.id ExecutionState.undefined ExecutionState.failed message) now) [
          | err _ ↦ n
          | ok d ↦ send (record n { store = d }) (on_compute_failure e.id message)
        ]

  -- An update of the store whose error ends the method: the deferred `handleFailure` follows.
  unfoldable pub advance : Node → Execution → ExecutionState → ExecutionState → ℕ → Result Node Node
  unfolding handle_failure request
  advance n e expected new_state now =
      elim (update_execution_state n.store (request e.id expected new_state "") now) [
        | err x ↦ err (handle_failure n e (text x) now)
        | ok d ↦ ok (record n { store = d })
      ]

  -- The deferred call of the cancel function, where an error ends `Run`.
  unfoldable pub end_on_error : Execution → Result Node Node → Result Node Node
  unfolding call_canceller
  end_on_error e (err m) = err (call_canceller m e.id)
  end_on_error e (ok m) = ok m

  -- `Run` up to the work of the verifier and the job executor. On an error the deferred calls end it.
  unfoldable pub start_run : Node → Execution → ℕ → Result Node Node
  unfolding advance end_on_error
  start_run n e now = end_on_error e (
      advance (record n { cancellers = Map.put n.cancellers e.id tt }) e ExecutionState.bid_accepted
        ExecutionState.running now)

  -- The end of `Run`, behind the update of the state.
  unfoldable pub report_run : Execution → String → Result Node Node → Node
  unfolding call_canceller send
  report_run e proposal (err m) = call_canceller m e.id
  report_run e proposal (ok m) = call_canceller (send m (on_run_complete e.id proposal)) e.id

  -- `Run` from there on: the proposal, or the error of the step that failed.
  unfoldable pub finish_run : Node → Execution → Result String String → ℕ → Node
  unfolding advance call_canceller handle_failure report_run
  finish_run n e (err message) now = call_canceller (handle_failure n e message now) e.id
  finish_run n e (ok proposal) now =
      report_run e proposal
        (advance n e ExecutionState.running ExecutionState.waiting_verification now)

  -- `Publish` up to the work of the verifier and the publisher.
  unfoldable pub start_publish : Node → Execution → ℕ → Result Node Node
  unfolding advance
  start_publish n e now = advance n e ExecutionState.result_accepted ExecutionState.publishing now

  -- The end of `Publish`, behind the update of the state; `removed` is what the removal of the result
  -- folder returns, whose error is handled after the callback.
  unfoldable pub report_publish : Execution → String → Option String → ℕ → Result Node Node → Node
  unfolding handle_failure send
  report_publish e published removed now (err m) = m
  report_publish e published none now (ok m) = send m (on_publish_complete e.id published)
  report_publish e published (some message) now (ok m) =
      handle_failure (send m (on_publish_complete e.id published)) e message now

  -- `Publish` from there on: the published result, or the error of the step that failed.
  unfoldable pub finish_publish : Node → Execution → Result String String → Option String → ℕ → Node
  unfolding advance handle_failure report_publish
  finish_publish n e (err message) removed now = handle_failure n e message now
  finish_publish n e (ok published) removed now =
      report_publish e published removed now
        (advance n e ExecutionState.publishing ExecutionState.completed now)

-- `Cancel`, which never fails.
unfoldable pub cancel : Node → Execution → Node
unfolding call_canceller send
cancel n e = send (call_canceller n e.id) (on_cancel_complete e.id)
