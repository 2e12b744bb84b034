-- ===== src/Requester/Ranking.antt =====
-- The chain of node rankers (pkg/requester/ranking/chain.go). Go leaves the order of the nodes it
-- returns open; here it is that of the association list.
mod Ranks
pub mod Previous
pub mod Verdict
mod Examples
use bacalhau.Base.{ℕ, ◌+◌, ◌-◌, ◌^◌, String, List, [], ◌∷◌, Option, none, some, ltb, if◌then◌else◌}
use bacalhau.Base.Map
use bacalhau.Base.Map.{Map}
use bacalhau.Base.Result.{Result, ok, err}
use bacalhau.Model.Job.{Job}
use bacalhau.Requester.World.{ℤ, pos, negsuc, NodeInfo, NodeRank}

-- `NodeRanker`: the nodes with their ranks, or an error.
abbrev pub NodeRanker : Type 0
NodeRanker = Job → List NodeInfo → Result String (List NodeRank)

-- How the chain ends without ranks: a ranker's error, or the panic on a node that is not there.
pub data ChainError : Type 0 where
  ranker_failed : String → ChainError
  nil_dereference : ChainError

-- `ranksMap`
abbrev pub Ranks : Type 0
Ranks = Map NodeRank

-- The loop that enters every node with rank 0.
unfoldable pub start_ranks : Ranks → List NodeInfo → Ranks
unfolding Map.put
start_ranks m [] = m
start_ranks m (n ∷ ns) =
    start_ranks (Map.put m n.peer_id (record { node_info = n; rank = pos 0 })) ns

-- The rank kept for a node, and the one a ranker gives it: the sum of two that are not negative wraps
-- around at 64 bits.
unfoldable pub combine : ℤ → ℤ → ℤ
combine (negsuc a) r = negsuc 0
combine (pos a) (negsuc b) = negsuc 0
combine (pos a) (pos b) =
    let sum = a + b in if ltb sum (2 ^ 63) then pos sum else negsuc (2 ^ 64 - sum - 1)

-- The loop over the ranks of one ranker; none where it panics.
unfoldable pub add_ranks : Ranks → List NodeRank → Option Ranks
unfolding combine Map.put
add_ranks m [] = some m
add_ranks m (e ∷ es) = elim (Map.get m e.node_info.peer_id) [
  | none ↦ none
  | some r ↦
      add_ranks (Map.put m e.node_info.peer_id (record r { rank = combine r.rank e.rank })) es
]

-- The nodes with their ranks.
unfoldable pub ranked : Ranks → List NodeRank
ranked [] = []
ranked ((k, r) ∷ m) = r ∷ ranked m

module _ (job : Job) (nodes : List NodeInfo) where
  -- The loop over the rankers.
  unfoldable pub run_rankers : Ranks → List NodeRanker → Result ChainError Ranks
  unfolding add_ranks
  run_rankers m [] = ok m
  run_rankers m (rank_nodes ∷ rankers) = elim (rank_nodes job nodes) [
    | err e ↦ err (ranker_failed e)
    | ok es ↦ elim (add_ranks m es) [
      | none ↦ err nil_dereference
      | some m' ↦ run_rankers m' rankers
    ]
  ]

  -- `RankNodes`
  unfoldable pub chain_rank_nodes : List NodeRanker → Result ChainError (List NodeRank)
  unfolding run_rankers start_ranks ranked
  chain_rank_nodes rankers = elim (run_rankers (start_ranks [] nodes) rankers) [
    | err e ↦ err e
    | ok m ↦ ok (ranked m)
  ]
