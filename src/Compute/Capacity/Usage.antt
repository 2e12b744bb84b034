-- ===== src/Compute/Capacity/Usage.antt =====
-- What the tracker's sums come to (pkg/compute/capacity/trackers.go, pkg/model/resource_usage.go).
use bacalhau.Base.{ℕ, ◌+◌, ◌-◌, ◌%◌, ◌^◌, ◌<◌, ◌≤◌, ◌≡◌, refl, ◌∙◌, true, false, arith, ltb→lt}
use bacalhau.Model.ResourceUsage.{Float, ResourceUsageData, wrap_sub, add, sub, less_than}
use bacalhau.Compute.Capacity.{LocalTracker, has_capacity, add_if_has_capacity, remove}

-- The integer amounts of two usages are the same.
abbrev pub SameCounts : ResourceUsageData → ResourceUsageData → Type 0
SameCounts a b = (a.memory ≡ b.memory) × (a.disk ≡ b.disk) × (a.gpu ≡ b.gpu)

-- The sums of the integer amounts fit in 64 bits.
abbrev pub Fit : ResourceUsageData → ResourceUsageData → Type 0
Fit a b = (a.memory + b.memory < 2 ^ 64) × (a.disk + b.disk < 2 ^ 64) × (a.gpu + b.gpu < 2 ^ 64)

wrap_sub_fits : (a b : ℕ) → b ≤ a → a < 2 ^ 64 → wrap_sub a b ≡ a - b
unfolding wrap_sub
wrap_sub_fits a b h fit = omega (arith, h, fit)

wrap_sub_wraps : (a b : ℕ) → a < b → b < 2 ^ 64 → wrap_sub a b ≡ 2 ^ 64 - (b - a)
unfolding wrap_sub
wrap_sub_wraps a b h fit = omega (arith, h, fit)

sub_plain :
    (f : Float) (r u : ResourceUsageData)
    → less_than f r u ≡ false
    → (sub f r u).memory ≡ wrap_sub r.memory u.memory
unfolding sub
sub_plain f r u h = rw h refl

-- A usage of at least as much memory is not less.
not_less : (f : Float) (r u : ResourceUsageData) → u.memory ≤ r.memory → less_than f r u ≡ false
unfolding less_than
not_less f r u h = ground (arith, h, ltb→lt r.memory u.memory)

sub_counts :
    (f : Float) (r u : ResourceUsageData)
    → less_than f r u ≡ false
    → ((sub f r u).memory ≡ wrap_sub r.memory u.memory)
      × ((sub f r u).disk ≡ wrap_sub r.disk u.disk)
      × ((sub f r u).gpu ≡ wrap_sub r.gpu u.gpu)
unfolding sub
sub_counts f r u h = rw h (refl, refl, refl)

add_back : (a b : ℕ) → a + b < 2 ^ 64 → wrap_sub ((a + b) % 2 ^ 64) b ≡ a
unfolding wrap_sub
add_back a b h = omega (arith, h)

-- What fits is given back exactly: after a usage is added to a tracker that has the capacity for it,
-- where the sums fit in 64 bits, its removal restores the tracker's memory, disk and GPUs.
pub remove-add_if_has_capacity :
    (f : Float) (t : LocalTracker) (u : ResourceUsageData)
    → has_capacity f t u ≡ true
    → Fit t.used_capacity u
    → SameCounts (remove f (add_if_has_capacity f t u) u).used_capacity t.used_capacity
unfolding remove add_if_has_capacity add
remove-add_if_has_capacity f t u room (memory, disk, gpu) =
    let r = add f t.used_capacity u in
    let (a, b, c) = sub_counts f r u (not_less f r u (omega (arith, memory))) in
    rw (room) (
      a ∙ add_back t.used_capacity.memory u.memory memory,
      b ∙ add_back t.used_capacity.disk u.disk disk,
      c ∙ add_back t.used_capacity.gpu u.gpu gpu,
    )

-- The guard of the subtraction looks at all four amounts at once: a removal of more memory than is
-- used, where some other amount is not exceeded, leaves the used memory wrapped around 2 ^ 64.
pub remove_wraps :
    (f : Float) (t : LocalTracker) (u : ResourceUsageData)
    → t.used_capacity.memory < u.memory
    → u.memory < 2 ^ 64
    → less_than f t.used_capacity u ≡ false
    → (remove f t u).used_capacity.memory ≡ 2 ^ 64 - (u.memory - t.used_capacity.memory)
unfolding remove
remove_wraps f t u less fits some_not =
    (sub_counts f t.used_capacity u some_not).0
    ∙ wrap_sub_wraps t.used_capacity.memory u.memory less fits
