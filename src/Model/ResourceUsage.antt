-- ===== src/Model/ResourceUsage.antt =====
-- Amounts of resources (pkg/model/resource_usage.go). The CPU count is a `float64`, carried by its
-- bits; what Go's floating point does with it is a parameter. The others are `uint64`s.
use bacalhau.Base.{ℕ, ◌+◌, ◌-◌, ◌%◌, ◌^◌, Bool, ◌&&◌, ◌==◌, ltb, leb, if◌then◌else◌}

-- The operations on `float64` that the package uses: `+`, `-`, `<`, `<=` and the zero value.
pub record Float : Type 0 where
  pub zero_float : ℕ
  pub add_float : ℕ → ℕ → ℕ
  pub sub_float : ℕ → ℕ → ℕ
  pub lt_float : ℕ → ℕ → Bool
  pub le_float : ℕ → ℕ → Bool
  pub eq_float : ℕ → ℕ → Bool

pub record ResourceUsageData : Type 0 where
  pub cpu : ℕ
  pub memory : ℕ
  pub disk : ℕ
  pub gpu : ℕ

-- `a - b` on `uint64`s.
unfoldable pub wrap_sub : ℕ → ℕ → ℕ
wrap_sub a b = (a + (2 ^ 64 - b % 2 ^ 64)) % 2 ^ 64

module _ (f : Float) where
  unfoldable pub add : ResourceUsageData → ResourceUsageData → ResourceUsageData
  add r other = record {
    cpu = f.add_float r.cpu other.cpu;
    memory = (r.memory + other.memory) % 2 ^ 64;
    disk = (r.disk + other.disk) % 2 ^ 64;
    gpu = (r.gpu + other.gpu) % 2 ^ 64;
  }

  unfoldable pub less_than : ResourceUsageData → ResourceUsageData → Bool
  less_than r other =
      f.lt_float r.cpu other.cpu
      && ltb r.memory other.memory
      && ltb r.disk other.disk
      && ltb r.gpu other.gpu

  unfoldable pub less_than_eq : ResourceUsageData → ResourceUsageData → Bool
  less_than_eq r other =
      f.le_float r.cpu other.cpu
      && leb r.memory other.memory
      && leb r.disk other.disk
      && leb r.gpu other.gpu

  unfoldable pub sub : ResourceUsageData → ResourceUsageData → ResourceUsageData
  unfolding wrap_sub less_than
  sub r other =
      let usage : ResourceUsageData = record {
        cpu = f.sub_float r.cpu other.cpu;
        memory = wrap_sub r.memory other.memory;
        disk = wrap_sub r.disk other.disk;
        gpu = wrap_sub r.gpu other.gpu;
      } in
      if less_than r other
      then record {
        cpu = if f.lt_float r.cpu other.cpu then f.zero_float else usage.cpu;
        memory = if ltb r.memory other.memory then 0 else usage.memory;
        disk = if ltb r.disk other.disk then 0 else usage.disk;
        gpu = if ltb r.gpu other.gpu then 0 else usage.gpu;
      }
      else usage

  -- `Intersect`: the other amount where this one is not given.
  unfoldable pub intersect : ResourceUsageData → ResourceUsageData → ResourceUsageData
  intersect r other = record {
    cpu = if f.le_float r.cpu f.zero_float then other.cpu else r.cpu;
    memory = if leb r.memory 0 then other.memory else r.memory;
    disk = if leb r.disk 0 then other.disk else r.disk;
    gpu = if leb r.gpu 0 then other.gpu else r.gpu;
  }

  unfoldable pub max : ResourceUsageData → ResourceUsageData → ResourceUsageData
  max r other = record {
    cpu = if f.lt_float r.cpu other.cpu then other.cpu else r.cpu;
    memory = if ltb r.memory other.memory then other.memory else r.memory;
    disk = if ltb r.disk other.disk then other.disk else r.disk;
    gpu = if ltb r.gpu other.gpu then other.gpu else r.gpu;
  }

  unfoldable pub is_zero : ResourceUsageData → Bool
  is_zero r = f.eq_float r.cpu f.zero_float && r.memory == 0 && r.disk == 0 && r.gpu == 0
