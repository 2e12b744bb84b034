-- ===== src/Compute/Endpoint.antt =====
-- The compute node's endpoint (pkg/compute/endpoint.go). What it hands to its executor is a call of
-- the executor's interface, an argument here.
use bacalhau.Base.{ℕ, String, ◌<>◌, Option, none, some, Bool, if◌then◌else◌}
use bacalhau.Base.Result.{Result, ok, err, ◌>>=◌}
use bacalhau.Compute.State.{Execution, ExecutionState, Error, is_terminal, is_executing}
use bacalhau.Compute.Store.{update_execution_state, get_execution}
use bacalhau.Compute.Executor.{Node, request}

-- The `Executor` interface: the node after a call, and the error if it fails.
pub record Executor : Type 0 where
  pub run : Node → Execution → Node × Option String
  pub publish : Node → Execution → Node × Option String
  pub cancel : Node → Execution → Node × Option String

-- Why a request fails.
pub data Refusal : Type 0 where
  by_store : Error → Refusal
  by_executor : String → Refusal
  cannot_cancel : String → ExecutionState → Refusal

-- The node after a request, with the answer: the execution's metadata, or why the request fails.
abbrev pub Answer : Type 0
Answer = Node × Result Refusal Execution

-- An update of the state and the read of the execution behind it, as most handlers start.
unfoldable pub update_and_get :
    Node → String → ExecutionState → ExecutionState → String → ℕ → Answer
unfolding request get_execution
update_and_get n id expected new_state comment now =
    elim (update_execution_state n.store (request id expected new_state comment) now) [
      | err x ↦ (n, err (by_store x))
      | ok d ↦ elim (get_execution d id) [
        | err x ↦ (record n { store = d }, err (by_store x))
        | ok e ↦ (record n { store = d }, ok e)
      ]
    ]

-- The answer after a call of the executor.
unfoldable pub answered : Execution → Node × Option String → Answer
answered e (n, none) = (n, ok e)
answered e (n, some message) = (n, err (by_executor message))

-- A handler goes on if no error has ended it.
unfoldable pub then_call : Answer → (Node → Execution → Answer) → Answer
then_call (n, err r) go = (n, err r)
then_call (n, ok e) go = go n e

unfoldable pub bid_accepted : Executor → Node → String → ℕ → Answer
unfolding update_and_get answered then_call
bid_accepted x n id now =
    then_call (update_and_get n id ExecutionState.created ExecutionState.bid_accepted "" now)
      (λ m e. answered e (x.run m e))

unfoldable pub bid_rejected : Node → String → String → ℕ → Answer
unfolding update_and_get
bid_rejected n id reason now =
    update_and_get n id ExecutionState.created ExecutionState.cancelled
      ("bid rejected due to: " <> reason) now

unfoldable pub result_accepted : Executor → Node → String → ℕ → Answer
unfolding update_and_get answered then_call
result_accepted x n id now =
    then_call
      (update_and_get n id ExecutionState.waiting_verification ExecutionState.result_accepted ""
        now)
      (λ m e. answered e (x.publish m e))

unfoldable pub result_rejected : Node → String → String → ℕ → Answer
unfolding update_and_get
result_rejected n id reason now =
    update_and_get n id ExecutionState.waiting_verification ExecutionState.failed
      ("result rejected due to: " <> reason) now

-- The end of `CancelExecution`, behind the call of the executor.
unfoldable pub mark_cancelled : Node → Execution → String → String → ℕ → Answer
unfolding request
mark_cancelled n e id reason now =
    elim (update_execution_state n.store
      (request id ExecutionState.undefined ExecutionState.cancelled
        ("execution canceled due to: " <> reason))
      now) [ err x ↦ (n, err (by_store x)) | ok d ↦ (record n { store = d }, ok e) ]

unfoldable pub cancel_execution : Executor → Node → String → String → ℕ → Answer
unfolding get_execution is_terminal is_executing mark_cancelled answered then_call
cancel_execution x n id reason now = elim (get_execution n.store id) [
  | err r ↦ (n, err (by_store r))
  | ok e ↦
      if is_terminal e.state
      then (n, err (cannot_cancel e.id e.state))
      else if is_executing e.state
      then then_call (answered e (x.cancel n e)) (λ m f. mark_cancelled m f id reason now)
      else mark_cancelled n e id reason now
]

-- `ExecutionLogs`: whether the execution has ended, beside the log server's address.
unfoldable pub execution_logs : Node → String → String → Result Error (String × Bool)
unfolding get_execution is_terminal
execution_logs n address id =
    get_execution n.store id >>= λ (e : Execution). ok (address, is_terminal e.state)
