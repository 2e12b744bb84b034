-- ===== src/Requester/Ranking/Previous.antt =====
-- The ranks of nodes by what they did for the job before
-- (pkg/requester/ranking/previous_executions.go). A peer ID is its text.
pub mod Counts
use bacalhau.Base.{
  ℕ, zero, suc, ◌+◌, ◌<◌, ◌≡◌, ◌≢◌, refl, sym, ap, ◌∙◌, Bool, true, false, ◌&&◌, ◌||◌, not, String,
  List, [], ◌∷◌, Option, none, some, ltb, ◌==◌, if◌then◌else◌, str_eq, eq_iff, arith, Bool-cases,
  Option-cases, map,
}
use bacalhau.Base.Map
use bacalhau.Base.Map.{Map}
use bacalhau.Base.Result.{Result, ok, err}
use bacalhau.Model.ExecutionState
use bacalhau.Model.ExecutionState.{ExecutionState, ExecutionStateType}
use bacalhau.Model.JobState.{JobState}
use bacalhau.Model.Job
use bacalhau.JobStore.InMemory.{JobStore}
use bacalhau.JobStore.Queries.{get_job_state}
use bacalhau.Requester.World.{ℤ, pos, negsuc, NodeInfo, NodeRank}
use bacalhau.Requester.Ranking.{NodeRanker}

-- `previousExecutors` and `toFilterOut`
pub record Previous : Type 0 where
  pub previous_executors : Map ℕ
  pub to_filter_out : Map Bool

-- Still there, or refused.
unfoldable pub filters_out : ExecutionState → Bool
filters_out e =
    not (ExecutionState.is_discarded e.state)
    || ExecutionState.same e.state ExecutionStateType.ask_for_bid_rejected
    || ExecutionState.same e.state ExecutionStateType.result_rejected

-- One turn of the loop over the job's executions.
unfoldable pub note_execution : Previous → ExecutionState → Previous
unfolding filters_out Map.put Map.get_or
note_execution p e = record {
  previous_executors =
      Map.put p.previous_executors e.node_id (suc (Map.get_or p.previous_executors e.node_id 0));
  to_filter_out = if filters_out e then Map.put p.to_filter_out e.node_id true else p.to_filter_out;
}

unfoldable pub look_back : Previous → List ExecutionState → Previous
unfolding note_execution
look_back p [] = p
look_back p (e ∷ es) = look_back (note_execution p e) es

unfoldable pub previous_rank : Previous → NodeInfo → ℤ
previous_rank p n = elim (Map.get p.previous_executors n.peer_id) [
  | none ↦ pos 30
  | some count ↦
      if ltb 1 count
      then negsuc 0
      else elim (Map.get p.to_filter_out n.peer_id) [ none ↦ pos 0 | some _ ↦ negsuc 0 ]
]

-- The job's executions; none if the store does not have it.
unfoldable pub executions_of : JobStore → String → List ExecutionState
unfolding get_job_state
executions_of d id = elim (get_job_state d id) [ err _ ↦ [] | ok s ↦ s.executions ]

-- `RankNodes`
unfoldable pub previous_rank_nodes : JobStore → NodeRanker
unfolding look_back previous_rank executions_of
previous_rank_nodes d job nodes =
    let p =
      look_back (record { previous_executors = []; to_filter_out = [] })
        (executions_of d (Job.id job)) in
    ok (map (λ n. record { node_info = n; rank = previous_rank p n }) nodes)
