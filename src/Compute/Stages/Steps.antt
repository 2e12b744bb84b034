-- ===== src/Compute/Stages/Steps.antt =====
-- Interleavings of the compute node's requests and of the steps of its executor
-- (pkg/compute: endpoint.go, executor.go, bidder.go).
use bacalhau.Base.{ℕ, ◌≡◌, sym, ap, ◌∙◌, subst, String, List, [], ◌∷◌, Option, some, inl, inr}
use bacalhau.Base.Map
use bacalhau.Base.Result.{Result}
use bacalhau.Compute.State.{Execution, ExecutionState, ExecutionHistory, Error}
use bacalhau.Compute.Store.{new_store}
use bacalhau.Compute.Executor.{Node, start_run, finish_run, start_publish, finish_publish, cancel}
use bacalhau.Compute.Endpoint.{
  Executor, bid_accepted, bid_rejected, result_accepted, result_rejected, cancel_execution,
}
use bacalhau.Compute.Bidder.{AskForBidRequest, Advice, run_bidding}
use bacalhau.Compute.Stages.{IsStaged, stages, ends_early, reported, new_store-IsStaged}
use bacalhau.Compute.Stages.Nodes.{
  node, start_run-IsStaged, finish_run-IsStaged, start_publish-IsStaged, finish_publish-IsStaged,
  cancel-store,
}
use bacalhau.Compute.Stages.Requests.{
  IsDeferred, bid_accepted-IsStaged, bid_rejected-IsStaged, result_accepted-IsStaged,
  result_rejected-IsStaged, cancel_execution-IsStaged, run_bidding-IsStaged,
}

-- A request that the endpoint serves, or a part of a method of the executor. The executions that the
-- executor is handed are arbitrary.
pub data Step : Type 0 where
  bids : AskForBidRequest → Advice → ℕ → ℕ → Step
  accepts_bid : String → ℕ → Step
  rejects_bid : String → String → ℕ → Step
  accepts_result : String → ℕ → Step
  rejects_result : String → String → ℕ → Step
  cancels : String → String → ℕ → Step
  starts_run : Execution → ℕ → Step
  finishes_run : Execution → Result String String → ℕ → Step
  starts_publish : Execution → ℕ → Step
  finishes_publish : Execution → Result String String → Option String → ℕ → Step
  stops_run : Execution → Step

abbrev pub new_node : Node
new_node = record { store = new_store; cancellers = []; stopped = []; sent = [] }

module _ (text : Error → String) (x : Executor) where
  unfoldable pub step : Node → Step → Node
  unfolding run_bidding bid_accepted bid_rejected result_accepted result_rejected cancel_execution
      start_run finish_run start_publish finish_publish cancel
  step n (bids q a now later) = run_bidding n q a now later
  step n (accepts_bid id now) = (bid_accepted x n id now).0
  step n (rejects_bid id reason now) = (bid_rejected n id reason now).0
  step n (accepts_result id now) = (result_accepted x n id now).0
  step n (rejects_result id reason now) = (result_rejected n id reason now).0
  step n (cancels id reason now) = (cancel_execution x n id reason now).0
  step n (starts_run e now) = node (start_run text n e now)
  step n (finishes_run e outcome now) = finish_run text n e outcome now
  step n (starts_publish e now) = node (start_publish text n e now)
  step n (finishes_publish e outcome removed now) = finish_publish text n e outcome removed now
  step n (stops_run e) = cancel n e

  unfoldable pub steps : Node → List Step → Node
  unfolding step
  steps n [] = n
  steps n (s ∷ ss) = steps (step n s) ss

  module _ (deferred : IsDeferred x) where
    step-IsStaged : (n : Node) (s : Step) → IsStaged n.store → IsStaged (step n s).store
    unfolding step
    step-IsStaged n (bids q a now later) v = run_bidding-IsStaged n q a now later v
    step-IsStaged n (accepts_bid id now) v = bid_accepted-IsStaged x deferred n id now v
    step-IsStaged n (rejects_bid id reason now) v = bid_rejected-IsStaged n id reason now v
    step-IsStaged n (accepts_result id now) v = result_accepted-IsStaged x deferred n id now v
    step-IsStaged n (rejects_result id reason now) v = result_rejected-IsStaged n id reason now v
    step-IsStaged n (cancels id reason now) v =
        cancel_execution-IsStaged x deferred n id reason now v
    step-IsStaged n (starts_run e now) v = start_run-IsStaged text n e now v
    step-IsStaged n (finishes_run e outcome now) v = finish_run-IsStaged text n e outcome now v
    step-IsStaged n (starts_publish e now) v = start_publish-IsStaged text n e now v
    step-IsStaged n (finishes_publish e outcome removed now) v =
        finish_publish-IsStaged text n e outcome removed now v
    step-IsStaged n (stops_run e) v = subst IsStaged (sym (cancel-store n e)) v

    steps_from-IsStaged :
        (n : Node) (ss : List Step) → IsStaged n.store → IsStaged (steps n ss).store
    unfolding steps
    steps_from-IsStaged n [] v = v
    steps_from-IsStaged n (s ∷ ss) v = steps_from-IsStaged (step n s) ss (step-IsStaged n s v)

    -- In every interleaving of requests and executor steps on a new node, with an executor that queues
    -- what it is handed, the store stays consistent, and every execution goes through the stages in
    -- their order: created, bid accepted, running, waiting for verification, result accepted,
    -- publishing, completed, each once, where a failure or a cancellation may end them early.
    pub steps-IsStaged : (ss : List Step) → IsStaged (steps new_node ss).store
    steps-IsStaged ss = steps_from-IsStaged new_node ss new_store-IsStaged

    -- In every such interleaving, the history of an execution that is completed reports exactly the
    -- seven stages, each once and in their order.
    pub completed_in_order :
        (ss : List Step) (k : String) (e : Execution) (hs : List ExecutionHistory)
        → Map.get (steps new_node ss).store.executions k ≡ some e
        → Map.get (steps new_node ss).store.history k ≡ some hs
        → e.state ≡ ExecutionState.completed
        → reported hs ≡ stages ExecutionState.completed
    unfolding ends_early
    completed_in_order ss k e hs found told done =
        elim ((steps-IsStaged ss).staged k e hs found told) [
          | inl (on, all) ↦ all ∙ ap stages done
          | inr (early, _) ↦ absurd (cc (early, ap ends_early done))
        ]
