-- ===== src/Compute/Bidder.antt =====
-- The compute node's bidder (pkg/compute/bidder.go). What the bid strategies and the usage
-- calculator return is an argument.
pub mod Decision
use bacalhau.Base.{
  ℕ, String, Bool, true, false, ◌&&◌, ◌||◌, not, Option, none, some, if◌then◌else◌, ◌≡◌, ◌⊎◌,
}
use bacalhau.Base.Result.{Result, ok, err, ◌>>=◌}
use bacalhau.Model.Job.{Job}
use bacalhau.Model.Job
use bacalhau.Model.ResourceUsage.{ResourceUsageData}
use bacalhau.Compute.State.{Execution, new_execution}
use bacalhau.Compute.Store.{create_execution}
use bacalhau.Compute.Executor.{Node, send, on_bid_complete, on_compute_failure}

pub record BidStrategyResponse : Type 0 where
  pub should_bid : Bool
  pub should_wait : Bool
  pub reason : String

pub record AskForBidRequest : Type 0 where
  pub execution_id : String
  pub job : Job
  pub source_peer_id : String

-- What the semantic strategy, the calculator and the resource strategy return when they are asked.
pub record Advice : Type 0 where
  pub semantic : Result String BidStrategyResponse
  pub usage : Result String ResourceUsageData
  pub resource : Result String BidStrategyResponse

-- `doBidding`
unfoldable pub do_bidding : Advice → Result String (BidStrategyResponse × Option ResourceUsageData)
do_bidding a = a.semantic >>= λ (s : BidStrategyResponse).
    if not s.should_bid && not s.should_wait
    then ok (s, none)
    else a.usage >>= λ u. a.resource >>= λ (r : BidStrategyResponse). ok (
      record {
        should_bid = r.should_bid;
        should_wait = s.should_wait || r.should_wait;
        reason = "";
      },
      some u,
    )

-- `RunBidding` behind `doBidding`; a missing usage is a nil pointer, which only a response that
-- neither bids nor waits comes with.
unfoldable pub respond :
    Node → AskForBidRequest → BidStrategyResponse → Option ResourceUsageData → ℕ → ℕ → Node
unfolding send
respond n q r usage now later =
    let answer = on_bid_complete q.execution_id r.should_bid r.reason in
    if not r.should_bid && not r.should_wait then send n answer else elim usage [
      | none ↦ n
      | some u ↦
          elim (create_execution n.store
            (new_execution q.execution_id q.job q.source_peer_id u now later)) [
              | err _ ↦ n
              | ok d ↦
                  let m : Node = record n { store = d } in
                  if not r.should_wait then send m answer else m
            ]
    ]

-- `RunBidding`
unfoldable pub run_bidding : Node → AskForBidRequest → Advice → ℕ → ℕ → Node
unfolding do_bidding respond send
run_bidding n q a now later = elim (do_bidding a) [
  | err message ↦ send n (on_compute_failure q.execution_id message)
  | ok (r, usage) ↦ respond n q r usage now later
]

-- `ReturnBidResult`
unfoldable pub return_bid_result : Node → Execution → BidStrategyResponse → Node
unfolding send
return_bid_result n e r =
    if r.should_wait then n else send n (on_bid_complete e.id r.should_bid r.reason)
