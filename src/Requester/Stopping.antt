-- ===== src/Requester/Stopping.antt =====
-- The end of a job by the scheduler, and the notices to its executions' nodes
-- (pkg/requester/scheduler.go).
use bacalhau.Base.{String, Bool, List, [], ◌∷◌}
use bacalhau.Base.Result.{ok, err}
use bacalhau.Model.ExecutionState
use bacalhau.Model.ExecutionState.{ExecutionState}
use bacalhau.JobStore.Stop.{stop_job}
use bacalhau.Requester.World.{Scheduler, World, clock}
use bacalhau.Requester.Messages.{Board, send, with_store, cancels, emits, job_stopped}

-- The loop over the cancelled executions, each through `notifyCancel`.
unfoldable pub notify_cancels : Board → String → List ExecutionState → Board
notify_cancels b reason [] = b
notify_cancels b reason (e ∷ es) =
    notify_cancels (send b (cancels (ExecutionState.id e) reason)) reason es

-- `stopJob`
unfoldable pub stop : Scheduler → World → Board → String → String → Bool → Board
unfolding notify_cancels
stop s w b job_id reason user_requested =
    let (d, r) = stop_job s.merge b.store job_id reason user_requested (clock w) in
    send
      (elim r [
        | err _ ↦ with_store b d
        | ok cancelled ↦ notify_cancels (with_store b d) reason cancelled
      ])
      (emits (job_stopped job_id reason user_requested))
