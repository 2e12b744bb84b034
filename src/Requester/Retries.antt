-- ===== src/Requester/Retries.antt =====
-- The requests for bids, and the check for failed executions that repeats them
-- (pkg/requester: scheduler.go, scheduler_state.go). The counts are of items in a slice.
pub mod Asked
use bacalhau.Base.{
  ℕ, suc, ◌-◌, String, Bool, false, List, [], ◌∷◌, Option, none, some, ◌&&◌, ◌||◌, not, ltb,
  if◌then◌else◌, ◌<>◌, str_eq, take, max_int,
}
use bacalhau.Base.Result.{ok, err}
use bacalhau.Model.ExecutionState
use bacalhau.Model.ExecutionState.{ExecutionState, ExecutionStateType, ExecutionId, is_discarded}
use bacalhau.Model.JobState.{JobState}
use bacalhau.Model.Job.{Job, Deal, get_concurrency}
use bacalhau.Model.Job
use bacalhau.JobStore.Executions.{create_execution}
use bacalhau.JobStore.Stop.{only_state}
use bacalhau.Requester.World.{Scheduler, World, SchedulerError, NodeRank, early, late}
use bacalhau.Requester.Messages.{Board, send, with_store, asks_for_bid}
use bacalhau.Requester.Selection.{select_nodes}
use bacalhau.Requester.Stopping.{stop}
use bacalhau.Requester.Bids.{received_bids}

-- The execution that a node is asked to bid for.
unfoldable pub asked : String → String → String → ExecutionState
unfolding only_state
asked job_id node_id uuid = record (only_state ExecutionStateType.ask_for_bid "") {
  job_id = job_id;
  node_id = node_id;
  compute_reference = "e-" <> uuid;
}

-- `notifyAskForBid`: the first execution that the store refuses ends the loop.
unfoldable pub notify_ask_for_bid : World → Board → Job → List NodeRank → Board
unfolding asked
notify_ask_for_bid w b job [] = b
notify_ask_for_bid w b job (n ∷ ns) =
    let e = asked (Job.id job) n.node_info.peer_id (w 0).uuid in
    elim (create_execution b.store e (w 0).now) [
      | err _ ↦ b
      | ok d ↦
          notify_ask_for_bid (λ i. w (suc i))
            (send (with_store b d) (asks_for_bid (ExecutionState.id e))) job ns
    ]

unfoldable pub published_or_publishing : List ExecutionState → ℕ
published_or_publishing [] = 0
published_or_publishing (e ∷ es) =
    let rest = published_or_publishing es in
    if ExecutionState.same e.state ExecutionStateType.completed
      || ExecutionState.same e.state ExecutionStateType.result_accepted
    then suc rest
    else rest

unfoldable pub non_discarded : List ExecutionState → ℕ
unfolding is_discarded
non_discarded [] = 0
non_discarded (e ∷ es) =
    let rest = non_discarded es in if not (is_discarded e.state) then suc rest else rest

-- The execution that failed last, of those with a time after the zero time.
unfoldable pub last_failed : ExecutionState → List ExecutionState → ExecutionState
last_failed last [] = last
last_failed last (e ∷ es) =
    let failed = ExecutionState.same e.state ExecutionStateType.failed in
    last_failed (if failed && ltb last.update_time e.update_time then e else last) es

-- How many executions the job needs.
unfoldable pub min_executions : Deal → List ExecutionState → ℕ
unfolding get_concurrency received_bids published_or_publishing
min_executions deal es =
    if ltb 0 deal.min_bids && ltb (received_bids es) deal.min_bids
    then max_int (get_concurrency deal) deal.min_bids
    else if ltb 0 (published_or_publishing es)
    then 1
    else get_concurrency deal

-- The reason for the end of a job that is not retried.
unfoldable pub failure_reason : Scheduler → Option SchedulerError → ExecutionState → String
failure_reason s e last =
    if not (str_eq last.node_id "")
    then s.join e ("node " <> last.node_id <> " failed due to: " <> last.status)
    else elim e [ none ↦ "" | some x ↦ s.text x ]

-- `checkForFailedExecutions`
unfoldable pub check_for_failed_executions : Scheduler → World → Board → Job → JobState → Board
unfolding notify_ask_for_bid non_discarded last_failed min_executions failure_reason select_nodes
    stop
check_for_failed_executions s w b job state =
    let es = state.executions in
    let last = last_failed (only_state ExecutionStateType.new "") es in
    let kept = non_discarded es in
    let needed = min_executions job.spec.deal es in
    let give_up : Option SchedulerError → Board =
      λ e. stop s (late w) b (Job.id job) (failure_reason s e last) false in
    if ltb kept needed
    then if (w 0).should_retry (Job.id job)
      then elim (select_nodes s (w 0) job (needed - kept) (needed - kept)) [
        | err e ↦ give_up (some e)
        | ok ranked ↦ notify_ask_for_bid (late w) b job (take (needed - kept) ranked)
      ]
      else give_up none
    else b
