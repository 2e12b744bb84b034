-- ===== src/Requester/Selection.antt =====
-- The choice of compute nodes for a job (pkg/requester/node_selector.go). The numbers of nodes are
-- the lengths of slices.
pub mod Best
pub mod Sorting
use bacalhau.Base.{ℕ, Bool, true, false, List, [], ◌∷◌, ltb, if◌then◌else◌, length, take, min_int}
use bacalhau.Base.Result.{Result, ok, err}
use bacalhau.Model.Job.{Job}
use bacalhau.Requester.World.{
  Scheduler, SchedulerError, not_enough_nodes, outside, NodeRank, ℤ, pos, negsuc, Instant,
}

-- `rank >= 0`
unfoldable pub is_suitable : NodeRank → Bool
is_suitable n = elim n.rank [ pos k ↦ true | negsuc k ↦ false ]

-- The loop that drops the nodes with a rank below 0.
unfoldable pub suitable : List NodeRank → List NodeRank
unfolding is_suitable
suitable [] = []
suitable (n ∷ ns) = let rest = suitable ns in if is_suitable n then n ∷ rest else rest

-- `SelectNodes` behind the discovery and the ranking.
unfoldable pub select_among :
    Scheduler → List NodeRank → ℕ → ℕ → Result SchedulerError (List NodeRank)
unfolding suitable
select_among s ranked min_count desired_count =
    let filtered = suitable ranked in
    if ltb (length filtered) min_count
    then err (not_enough_nodes min_count (length filtered))
    else ok (take (min_int (length (s.sort filtered)) desired_count) (s.sort filtered))

-- `SelectNodes`
unfoldable pub select_nodes :
    Scheduler → Instant → Job → ℕ → ℕ → Result SchedulerError (List NodeRank)
unfolding select_among
select_nodes s i job min_count desired_count = elim (i.find_nodes job) [
  | err e ↦ err (outside e)
  | ok nodes ↦ elim (i.rank_nodes job nodes) [
    | err e ↦ err (outside e)
    | ok ranked ↦ select_among s ranked min_count desired_count
  ]
]
