-- ===== src/Compute/Strategies.antt =====
-- The strategies that decide on a bid, and the calculators of a job's usage (pkg/bidstrategy:
-- chained.go, waiting.go, resource/; pkg/compute/capacity/calculators.go). A strategy is a function of
-- its request; an error is its text.
pub mod Chains
mod Examples
use bacalhau.Base.{String, Bool, true, false, ◌&&◌, ◌||◌, not, List, [], ◌∷◌, Option, if◌then◌else◌}
use bacalhau.Base.Result.{Result, ok, err, ◌>>=◌}
use bacalhau.Model.ResourceUsage.{Float, ResourceUsageData, add, less_than_eq, max, intersect}
use bacalhau.Compute.Bidder.{BidStrategyResponse}
use bacalhau.Compute.Capacity.{LocalTracker, get_available_capacity}

-- `NewShouldBidResponse`
abbrev pub should_bid_response : BidStrategyResponse
should_bid_response = record { should_bid = true; should_wait = false; reason = "" }

-- A response without a bid.
abbrev pub refusal : String → BidStrategyResponse
refusal reason = record { should_bid = false; should_wait = false; reason = reason }

-- The loop of a chain: the first error, wait or refusal ends it.
unfoldable pub chained {ℓ} :
    {R : Type ℓ}
    → List (R → Result String BidStrategyResponse)
    → R
    → Result String BidStrategyResponse
chained [] q = ok should_bid_response
chained (s ∷ ss) q =
    let rest = chained ss q in
    s q >>= λ (r : BidStrategyResponse).
    if r.should_wait then ok r else if not r.should_bid then ok r else rest

-- The waiting strategy over another one. A strategy returns a response and perhaps an error; the
-- waiting one passes both on, with the response changed.
unfoldable pub waiting {ℓ} :
    {R : Type ℓ}
    → (R → BidStrategyResponse × Option String)
    → Bool
    → Bool
    → R
    → BidStrategyResponse × Option String
waiting underlying wait_on_bid wait_on_no_bid q =
    let (r, e) = underlying q in
    (
      record r {
        should_wait =
            if (r.should_bid && wait_on_bid) || (not r.should_bid && wait_on_no_bid)
            then true
            else r.should_wait;
      },
      e,
    )

module _ (f : Float) where
  -- `AvailableCapacityStrategy`
  unfoldable pub available_capacity :
      LocalTracker → LocalTracker → ResourceUsageData → Result String BidStrategyResponse
  unfolding get_available_capacity add less_than_eq
  available_capacity running enqueued usage =
      if not (
        less_than_eq f usage
          (add f (get_available_capacity f running) (get_available_capacity f enqueued)))
      then ok (refusal "not enough capacity available")
      else ok should_bid_response

  -- `MaxCapacityStrategy`
  unfoldable pub max_capacity :
      ResourceUsageData → ResourceUsageData → Result String BidStrategyResponse
  unfolding less_than_eq
  max_capacity most usage =
      if not (less_than_eq f usage most)
      then ok (refusal "job requirements exceed max allowed per job")
      else ok should_bid_response

  -- `DefaultsUsageCalculator`
  unfoldable pub defaults_calculate :
      ResourceUsageData → ResourceUsageData → Result String ResourceUsageData
  unfolding intersect
  defaults_calculate defaults parsed = ok (intersect f parsed defaults)

  -- The loop of `ChainedUsageCalculator`, with the usage aggregated so far.
  unfoldable pub aggregate :
      List (ResourceUsageData → Result String ResourceUsageData)
      → ResourceUsageData
      → ResourceUsageData
      → Result String ResourceUsageData
  unfolding max
  aggregate [] parsed so_far = ok so_far
  aggregate (c ∷ cs) parsed so_far = c parsed >>= λ u. aggregate cs parsed (max f so_far u)

  unfoldable pub chained_calculate :
      List (ResourceUsageData → Result String ResourceUsageData)
      → ResourceUsageData
      → Result String ResourceUsageData
  unfolding aggregate
  chained_calculate cs parsed = aggregate cs parsed parsed
