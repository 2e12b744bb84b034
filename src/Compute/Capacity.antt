-- ===== src/Compute/Capacity.antt =====
-- The compute node's capacity tracker (pkg/compute/capacity/trackers.go). The mutex makes each
-- method one step.
pub mod Usage
use bacalhau.Base.{Bool, if◌then◌else◌}
use bacalhau.Model.ResourceUsage.{Float, ResourceUsageData, add, sub, less_than_eq}

pub record LocalTracker : Type 0 where
  pub max_capacity : ResourceUsageData
  pub used_capacity : ResourceUsageData

-- `NewLocalTracker`; the zero value of the usage is the float's zero and three times 0.
unfoldable pub new_local_tracker : Float → ResourceUsageData → LocalTracker
new_local_tracker f max = record {
  max_capacity = max;
  used_capacity = record { cpu = f.zero_float; memory = 0; disk = 0; gpu = 0 };
}

module _ (f : Float) where
  unfoldable pub is_within_limits : LocalTracker → ResourceUsageData → Bool
  unfolding less_than_eq
  is_within_limits t usage = less_than_eq f usage t.max_capacity

  -- Whether `AddIfHasCapacity` returns true.
  unfoldable pub has_capacity : LocalTracker → ResourceUsageData → Bool
  unfolding less_than_eq add
  has_capacity t usage = less_than_eq f (add f t.used_capacity usage) t.max_capacity

  -- The tracker after `AddIfHasCapacity`.
  unfoldable pub add_if_has_capacity : LocalTracker → ResourceUsageData → LocalTracker
  unfolding has_capacity add
  add_if_has_capacity t usage =
      if has_capacity t usage then record t { used_capacity = add f t.used_capacity usage } else t

  unfoldable pub get_available_capacity : LocalTracker → ResourceUsageData
  unfolding sub
  get_available_capacity t = sub f t.max_capacity t.used_capacity

  unfoldable pub remove : LocalTracker → ResourceUsageData → LocalTracker
  unfolding sub
  remove t usage = record t { used_capacity = sub f t.used_capacity usage }

unfoldable pub get_max_capacity : LocalTracker → ResourceUsageData
get_max_capacity t = t.max_capacity
