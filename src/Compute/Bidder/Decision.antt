-- ===== src/Compute/Bidder/Decision.antt =====
-- When the compute node bids, waits or declines (pkg/compute/bidder.go).
use bacalhau.Base.{ℕ, ◌≡◌, String, true, false, ◌&&◌, ◌||◌, if◌then◌else◌, arith}
use bacalhau.Base.Result.{ok}
use bacalhau.Model.ResourceUsage.{ResourceUsageData}
use bacalhau.Compute.State.{new_execution}
use bacalhau.Compute.Store.{Store, create_execution}
use bacalhau.Compute.Executor.{Node, send, on_bid_complete}
use bacalhau.Compute.Bidder.{
  AskForBidRequest, BidStrategyResponse, do_bidding, respond, run_bidding,
}

-- What the node does: it waits, bids, or declines with a reason. `d` is the store with the execution.
unfoldable pub decision : Node → String → Store → BidStrategyResponse → BidStrategyResponse → Node
unfolding send
decision n id d s r =
    if s.should_wait || (s.should_bid && r.should_wait)
    then record n { store = d }
    else if s.should_bid && r.should_bid
    then send (record n { store = d }) (on_bid_complete id true "")
    else send n (on_bid_complete id false (if s.should_bid then "" else s.reason))

module _ (n : Node) (q : AskForBidRequest) (u : ResourceUsageData) (now later : ℕ) (d : Store)
    (fresh : create_execution n.store
        (new_execution q.execution_id q.job q.source_peer_id u now later)
      ≡ ok d) where
  -- Where the usage is known, the ID is new and neither strategy both bids and waits, the node creates
  -- the execution and sends no answer if the semantic strategy waits, or it bids and the resource
  -- strategy waits; it creates the execution and sends a bid if both bid; it sends a refusal and
  -- creates nothing in all other cases, with the semantic strategy's reason if that refused.
  pub run_bidding_decides :
      (s r : BidStrategyResponse)
      → (s.should_bid && s.should_wait) ≡ false
      → (r.should_bid && r.should_wait) ≡ false
      → run_bidding n q (record { semantic = ok s; usage = ok u; resource = ok r }) now later
        ≡ decision n q.execution_id d s r
  unfolding run_bidding do_bidding respond decision send
  run_bidding_decides s r one other = ground (arith, fresh, one, other)
