-- ===== src/Compute/Strategies/Examples.antt =====
-- Chains of concrete strategies and calculators.
use bacalhau.Base.{ℕ, ◌+◌, ◌-◌, ◌≡◌, refl, false, ltb, leb, ◌==◌, [], ◌∷◌}
use bacalhau.Model.ResourceUsage.{Float, ResourceUsageData}
use bacalhau.Compute.Strategies.{chained, max_capacity, defaults_calculate, chained_calculate}
use bacalhau.Compute.Strategies.Chains.{
  bids_now, all_bid, chained_bids, chained_calculate-Covers, AtMost, Covers,
}

-- Floats that stand for whole numbers.
abbrev whole : Float
whole = record {
  zero_float = 0;
  add_float = λ a b. a + b;
  sub_float = λ a b. a - b;
  lt_float = ltb;
  le_float = leb;
  eq_float = λ a b. a == b;
}

abbrev amount : ℕ → ℕ → ResourceUsageData
amount cpu memory = record { cpu = cpu; memory = memory; disk = 0; gpu = 0 }

chained_bids_example :
    bids_now (
      chained
        (max_capacity whole (amount 4 10) ∷ max_capacity whole (amount 1 10) ∷ [])
        (amount 2 3))
    ≡ false
unfolding all_bid max_capacity
chained_bids_example =
    chained_bids (amount 2 3)
      (max_capacity whole (amount 4 10) ∷ max_capacity whole (amount 1 10) ∷ [])

chained_calculate-Covers_example :
    AtMost (amount 0 3) (amount 1 3)
    × Covers (defaults_calculate whole (amount 1 2) ∷ []) (amount 0 3) (amount 1 3)
unfolding chained_calculate defaults_calculate
chained_calculate-Covers_example =
    chained_calculate-Covers whole (defaults_calculate whole (amount 1 2) ∷ []) (amount 0 3)
      (amount 1 3) refl
