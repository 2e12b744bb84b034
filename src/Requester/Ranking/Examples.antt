-- ===== src/Requester/Ranking/Examples.antt =====
-- Rankers and two nodes.
use bacalhau.Base.{◌<◌, ◌^◌, ◌≡◌, refl, String, List, [], ◌∷◌, if◌then◌else◌, arith}
use bacalhau.Base.Map
use bacalhau.Model.ExecutionState
use bacalhau.Base.Result.{ok}
use bacalhau.Requester.World.{pos, negsuc, NodeInfo, NodeRank}
use bacalhau.Requester.Ranking.{NodeRanker, chain_rank_nodes}
use bacalhau.Requester.Ranking.Ranks.{is_known, ranks_of}
use bacalhau.Requester.Ranking.Verdict.{total, verdict, gather, chain_rank_nodes_lem}
use bacalhau.Requester.Examples.{job, holding, half_done}
use bacalhau.Requester.Ranking.Previous.{executions_of, previous_rank_nodes}
use bacalhau.Requester.Ranking.Previous.Counts.{expected_rank, previous_rank_nodes_lem}

abbrev a : NodeInfo
a = record { peer_id = "a" }

abbrev b : NodeInfo
b = record { peer_id = "b" }

abbrev nodes : List NodeInfo
nodes = a ∷ b ∷ []

abbrev picky : NodeRanker
picky _ _ =
    ok (record { node_info = a; rank = pos 10 } ∷ record { node_info = b; rank = negsuc 0 } ∷ [])

abbrev kind : NodeRanker
kind _ _ =
    ok (record { node_info = b; rank = pos 30 } ∷ record { node_info = a; rank = pos 30 } ∷ [])

abbrev said : List NodeRank
said =
    record { node_info = a; rank = pos 10 }
    ∷ record { node_info = b; rank = negsuc 0 }
    ∷ record { node_info = b; rank = pos 30 }
    ∷ record { node_info = a; rank = pos 30 }
    ∷ []

small : (p : String) → total p said < 2 ^ 63
unfolding total
small p = ground arith

chain_rank_nodes_lem_example :
    (rs : List NodeRank) × (chain_rank_nodes job nodes (picky ∷ kind ∷ []) ≡ ok rs)
    × ((p : String) → ranks_of p rs ≡ (if is_known nodes p then verdict p said ∷ [] else []))
unfolding gather is_known
chain_rank_nodes_lem_example =
    chain_rank_nodes_lem job nodes (picky ∷ kind ∷ []) said refl (refl, (refl, (refl, (refl, tt))))
      small

-- One node completed an execution, and one failed.
previous_rank_nodes_lem_example :
    previous_rank_nodes (holding half_done) job nodes
    ≡ ok (
        record { node_info = a; rank = expected_rank (executions_of (holding half_done) "job") a }
        ∷ record { node_info = b; rank = expected_rank (executions_of (holding half_done) "job") b }
        ∷ [])
previous_rank_nodes_lem_example = previous_rank_nodes_lem (holding half_done) job nodes

-- The node that completed an execution is ranked -1.
completed_negative :
    previous_rank_nodes (holding half_done) job nodes
    ≡ ok (record { node_info = a; rank = negsuc 0 } ∷ record { node_info = b; rank = pos 0 } ∷ [])
unfolding previous_rank_nodes Map.get ExecutionState.is_discarded
completed_negative = refl
