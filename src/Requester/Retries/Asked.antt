-- ===== src/Requester/Retries/Asked.antt =====
-- What the check for failed executions does (pkg/requester/scheduler_state.go).
use bacalhau.Base.{ℕ, ◌+◌, ◌-◌, ◌≤◌, ◌<◌, ◌≡◌, true, false, List, Option, none, some, length}
use bacalhau.Base.Result.{ok, err}
use bacalhau.Model.ExecutionState.{ExecutionStateType}
use bacalhau.Model.JobState.{JobState}
use bacalhau.Model.Job.{Job}
use bacalhau.Model.Job
use bacalhau.JobStore.Stop.{only_state}
use bacalhau.Requester.World.{Scheduler, World, SchedulerError, NodeRank, late}
use bacalhau.Requester.Messages.{Board}
use bacalhau.Requester.Selection.{select_nodes}
use bacalhau.Requester.Stopping.{stop}
use bacalhau.Requester.Retries.{
  check_for_failed_executions, non_discarded, min_executions, notify_ask_for_bid, last_failed,
  failure_reason,
}

module _ (s : Scheduler) (w : World) (b : Board) (job : Job) (state : JobState) where
  abbrev kept : ℕ
  kept = non_discarded state.executions

  abbrev needed : ℕ
  needed = min_executions job.spec.deal state.executions

  -- The job has executions enough.
  abbrev pub Rests : Type 0
  Rests =
      (min_executions job.spec.deal state.executions ≤ non_discarded state.executions)
      × (check_for_failed_executions s w b job state ≡ b)

  -- The strategy agrees to a retry, and as many nodes as the job lacks executions are selected, and
  -- asked.
  abbrev pub Asks : Type 0
  Asks =
      (ns : List NodeRank) × ((w 0).should_retry (Job.id job) ≡ true)
      × (select_nodes s (w 0) job (needed - kept) (needed - kept) ≡ ok ns)
      × (kept + length ns ≡ needed)
      × (0 < length ns)
      × (check_for_failed_executions s w b job state ≡ notify_ask_for_bid (late w) b job ns)

  -- Why a job is not retried: the strategy refuses, or the selection fails.
  abbrev pub GivesUp : Option SchedulerError → Type 0
  GivesUp none = (w 0).should_retry (Job.id job) ≡ false
  GivesUp (some e) =
      ((w 0).should_retry (Job.id job) ≡ true)
      × (select_nodes s (w 0) job (needed - kept) (needed - kept) ≡ err e)

  -- The job is stopped, with the error and the last failure for a reason.
  abbrev pub Stops : Type 0
  Stops =
      (e : Option SchedulerError) × (kept < needed)
      × GivesUp e
      × (check_for_failed_executions s w b job state
          ≡ stop s (late w) b (Job.id job)
              (failure_reason s e
                (last_failed (only_state ExecutionStateType.new "") state.executions))
              false)
