-- ===== src/Requester/Ranking/Previous/Counts.antt =====
-- The ranks by previous executions, in terms of counts (pkg/requester/ranking/previous_executions.go).
use bacalhau.Base.{
  ℕ, suc, ◌+◌, ◌≡◌, refl, ap, Bool, true, false, ◌||◌, String, List, [], ◌∷◌, some, ltb, ◌==◌,
  if◌then◌else◌, str_eq, eq_iff, arith, map,
}
use bacalhau.Base.Map
use bacalhau.Base.Result.{ok}
use bacalhau.Model.ExecutionState.{ExecutionState}
use bacalhau.Model.Job
use bacalhau.Model.Job.{Job}
use bacalhau.JobStore.InMemory.{JobStore}
use bacalhau.Requester.World.{ℤ, pos, negsuc, NodeInfo}
use bacalhau.Requester.Ranking.Previous.{
  Previous, filters_out, note_execution, look_back, previous_rank, executions_of,
  previous_rank_nodes,
}

-- How many of the executions are on a node.
unfoldable pub count : String → List ExecutionState → ℕ
count p [] = 0
count p (e ∷ es) = let rest = count p es in if str_eq e.node_id p then suc rest else rest

-- One of the executions on a node filters it out.
unfoldable pub is_out : String → List ExecutionState → Bool
is_out p [] = false
is_out p (e ∷ es) =
    let rest = is_out p es in if str_eq e.node_id p then filters_out e || rest else rest

-- The rank of a node by its executions.
unfoldable pub expected_rank : List ExecutionState → NodeInfo → ℤ
expected_rank es n =
    if count n.peer_id es == 0
    then pos 30
    else if ltb 1 (count n.peer_id es) || is_out n.peer_id es
    then negsuc 0
    else pos 0

count-look_back :
    (q : Previous) (es : List ExecutionState) (p : String)
    → Map.get (look_back q es).previous_executors p ≡ (
        if count p es == 0
        then Map.get q.previous_executors p
        else some (count p es + Map.get_or q.previous_executors p 0))
unfolding count look_back note_execution Map.get_or
count-look_back q [] p = refl
count-look_back q (e ∷ es) p = ground (
  arith,
  count-look_back (note_execution q e) es p,
  Map.get-put q.previous_executors e.node_id (suc (Map.get_or q.previous_executors e.node_id 0)) p,
  eq_iff e.node_id p,
)

is_out-look_back :
    (q : Previous) (es : List ExecutionState) (p : String)
    → Map.get (look_back q es).to_filter_out p
      ≡ (if is_out p es then some true else Map.get q.to_filter_out p)
unfolding is_out look_back note_execution
is_out-look_back q [] p = refl
is_out-look_back q (e ∷ es) p = ground (
  arith,
  is_out-look_back (note_execution q e) es p,
  Map.get-put q.to_filter_out e.node_id true p,
)

previous_rank-look_back :
    (es : List ExecutionState) (n : NodeInfo)
    → previous_rank (look_back (record { previous_executors = []; to_filter_out = [] }) es) n
      ≡ expected_rank es n
unfolding previous_rank expected_rank Map.get Map.get_or
previous_rank-look_back es n =
    let start : Previous = record { previous_executors = []; to_filter_out = [] } in
    ground (arith, count-look_back start es n.peer_id, is_out-look_back start es n.peer_id)

-- A node's rank is 30 if the job has no execution on it; -1 if it has several, or one that is not
-- discarded, or that rejected the bid request or had its result rejected; otherwise 0.
pub previous_rank_nodes_lem :
    (d : JobStore) (job : Job) (nodes : List NodeInfo)
    → previous_rank_nodes d job nodes
      ≡ ok (
          map
            (λ (n : NodeInfo). record {
              node_info = n;
              rank = expected_rank (executions_of d (Job.id job)) n;
            })
            nodes)
unfolding previous_rank_nodes
previous_rank_nodes_lem d job nodes =
    let es = executions_of d (Job.id job) in
    ap (λ (f : NodeInfo → ℤ). ok (map (λ n. record { node_info = n; rank = f n }) nodes))
      (λ i n. previous_rank-look_back es n i)
