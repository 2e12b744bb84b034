-- ===== src/Requester/Jobs.antt =====
-- How a job enters and leaves the scheduler (pkg/requester: scheduler.go, queue.go). What was done
-- before an error stays done, so the state comes back beside the result.
use bacalhau.Base.{ℕ, String, Bool, true, false, [], ◌*◌, max_int, if◌then◌else◌}
use bacalhau.Base.Result.{Result, ok, err}
use bacalhau.Model.JobState
use bacalhau.Model.JobState.{JobState, JobStateType}
use bacalhau.Model.Job.{Job}
use bacalhau.Model.Job
use bacalhau.JobStore.Types.{Error, UpdateJobStateRequest, invalid_job_state}
use bacalhau.JobStore.InMemory.{update_job_state}
use bacalhau.JobStore.Queries.{get_job_state}
use bacalhau.Requester.World.{Scheduler, World, SchedulerError, stored, job_already_terminal, late}
use bacalhau.Requester.Messages.{
  Board, send, with_store, emits, starts_asking, job_created, job_canceled,
}
use bacalhau.Requester.Selection.{select_nodes}
use bacalhau.Requester.Stopping.{stop}

pub record CancelJobRequest : Type 0 where
  pub job_id : String
  pub reason : String
  pub user_triggered : Bool

abbrev pub Outcome : Type 0
Outcome = Board × Result SchedulerError (Unit {0})

-- An update of a job's state with an expected state; `new` expects nothing.
unfoldable pub job_update : String → JobStateType → JobStateType → String → UpdateJobStateRequest
job_update id expected new_state comment = record {
  job_id = id;
  condition = record { expected_state = expected; unexpected_states = []; expected_version = 0 };
  new_state = new_state;
  comment = comment;
}

-- How many nodes a job asks for, at least.
unfoldable pub start_min_bids : Job → ℕ
start_min_bids job = max_int job.spec.deal.min_bids job.spec.deal.concurrency

-- `BaseScheduler.StartJob`. The goroutine that asks the nodes is a notice; its turns are entries of
-- their own.
unfoldable pub start_job : Scheduler → World → Board → Job → Outcome
unfolding select_nodes stop job_update start_min_bids
start_job s w b job =
    let fail : SchedulerError → Outcome =
      λ e. (stop s (late w) b (Job.id job) (s.text e) false, err e) in
    let min_bids = start_min_bids job in
    elim (select_nodes s (w 0) job min_bids (min_bids * s.over_ask_for_bids_factor)) [
      | err e ↦ fail e
      | ok selected ↦
          elim (update_job_state b.store
            (job_update (Job.id job) JobStateType.new JobStateType.in_progress "") (w 0).now) [
              | err e ↦ fail (stored e)
              | ok d ↦ (
                send (send (with_store b d) (emits (job_created (Job.id job))))
                    (starts_asking job selected),
                ok tt,
              )
            ]
    ]

-- `BaseScheduler.CancelJob`
unfoldable pub cancel_job : Scheduler → World → Board → CancelJobRequest → Outcome
unfolding stop JobState.is_terminal
cancel_job s w b r = elim (get_job_state b.store r.job_id) [
  | err e ↦ (b, err (stored e))
  | ok state ↦
      if JobState.is_terminal state.state
      then (b, err (job_already_terminal r.job_id))
      else (stop s w b state.job_id r.reason r.user_triggered, ok tt)
]

-- `queue.EnqueueJob`
unfoldable pub enqueue_job : World → Board → Job → Outcome
unfolding job_update
enqueue_job w b job =
    elim (update_job_state b.store (job_update (Job.id job) JobStateType.new JobStateType.queued "")
      (w 0).now) [
        | err e ↦ (send b (emits (job_created (Job.id job))), err (stored e))
        | ok d ↦ (send (with_store b d) (emits (job_created (Job.id job))), ok tt)
      ]

-- `queue.StartJob`
unfoldable pub start_queued_job : Scheduler → World → Board → Job → Outcome
unfolding job_update start_job
start_queued_job s w b job =
    elim (update_job_state b.store (job_update (Job.id job) JobStateType.queued JobStateType.new "")
      (w 0).now) [ err e ↦ (b, err (stored e)) | ok d ↦ start_job s (late w) (with_store b d) job ]

-- `errors.As(err, &invalidJobErr)`
unfoldable pub is_invalid_job_state : Error → Bool
is_invalid_job_state e = elim e [ invalid_job_state id actual expected ↦ true | _ ↦ false ]

-- `queue.CancelJob`
unfoldable pub cancel_queued_job : Scheduler → World → Board → CancelJobRequest → Outcome
unfolding job_update cancel_job is_invalid_job_state
cancel_queued_job s w b r =
    elim (update_job_state b.store
      (job_update r.job_id JobStateType.queued JobStateType.cancelled r.reason) (w 0).now) [
        | err e ↦
            if is_invalid_job_state e
            then cancel_job s (late w) b r
            else (send b (emits (job_canceled r.job_id)), err (stored e))
        | ok d ↦ (send (with_store b d) (emits (job_canceled r.job_id)), ok tt)
      ]
