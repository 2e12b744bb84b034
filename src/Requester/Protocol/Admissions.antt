-- ===== src/Requester/Protocol/Admissions.antt =====
-- The queue and the endpoint, as orderly calls of the job store (pkg/requester: scheduler.go,
-- queue.go, endpoint.go).
use bacalhau.Base.{String, false, List, inl, inr, Bool-cases, ◌*◌, str_eq}
use bacalhau.Base.Result.{Result, Result-cases}
use bacalhau.Model.JobState
use bacalhau.Model.JobState.{JobState, JobStateType}
use bacalhau.Model.Job.{Job}
use bacalhau.Model.Job
use bacalhau.JobStore.InMemory.{create_job, update_job_state}
use bacalhau.JobStore.Queries.{get_job, get_job_state}
use bacalhau.Compute.Bidder.{BidStrategyResponse}
use bacalhau.Requester.World.{Scheduler, World, early, late}
use bacalhau.Requester.Messages.{Board, with_store}
use bacalhau.Requester.Selection.{select_nodes}
use bacalhau.Requester.Jobs.{
  Outcome, CancelJobRequest, job_update, start_min_bids, start_job, cancel_job, enqueue_job,
  start_queued_job, cancel_queued_job, is_invalid_job_state,
}
use bacalhau.Requester.Endpoint.{
  JobCreatePayload, ModerateJobRequest, ExternalVerificationResponse, handle_bid_response,
  transformed, new_job, select_job, submit_job, approve_job, verify_external,
}
use bacalhau.Requester.Protocol.{
  IsOrderly, Reaches, Advances-Reaches, stays, then_reaches, granted_job_update, granted_job,
}
use bacalhau.Requester.Protocol.Executions.{stop-Advances, verify_executions-Advances}

module _ (s : Scheduler) where
  -- What an outcome leaves behind.
  abbrev pub Left : Board → Outcome → Type 0
  Left b o = Reaches s.merge b.store o.0.store

  pub start_job-Reaches : (w : World) (b : Board) (job : Job) → Left b (start_job s w b job)
  unfolding start_job
  start_job-Reaches w b job =
      let n = start_min_bids job in
      let r = job_update (Job.id job) JobStateType.new JobStateType.in_progress "" in
      elim (Result-cases (select_nodes s (w 0) job n (n * s.over_ask_for_bids_factor))) [
        | inl (e, missing) ↦
            rw (missing, start_job)
              (Advances-Reaches s.merge b.store _ (stop-Advances s (late w) b (Job.id job) _ false))
        | inr (selected, found) ↦ elim (Result-cases (update_job_state b.store r (w 0).now)) [
          | inl (e, refused) ↦
              rw (found, start_job, refused)
                (Advances-Reaches s.merge b.store _
                  (stop-Advances s (late w) b (Job.id job) _ false))
          | inr (d, granted) ↦
              rw (found, start_job, granted)
                (granted_job_update IsOrderly s.merge b.store d r (w 0).now tt granted)
        ]
      ]

  pub cancel_job-Reaches :
      (w : World) (b : Board) (r : CancelJobRequest) → Left b (cancel_job s w b r)
  unfolding cancel_job
  cancel_job-Reaches w b r = elim (Result-cases (get_job_state b.store r.job_id)) [
    | inl (e, missing) ↦ rw (missing, cancel_job) (stays IsOrderly s.merge b.store)
    | inr (state, found) ↦ elim (Bool-cases (JobState.is_terminal state.state)) [
      | inl over ↦ rw (found, cancel_job, over) (stays IsOrderly s.merge b.store)
      | inr live ↦
          rw (found, cancel_job, live)
            (Advances-Reaches s.merge b.store _ (stop-Advances s w b state.job_id r.reason _))
    ]
  ]

  pub enqueue_job-Reaches : (w : World) (b : Board) (job : Job) → Left b (enqueue_job w b job)
  unfolding enqueue_job
  enqueue_job-Reaches w b job =
      let r = job_update (Job.id job) JobStateType.new JobStateType.queued "" in
      elim (Result-cases (update_job_state b.store r (w 0).now)) [
        | inl (e, refused) ↦ rw (refused, enqueue_job) (stays IsOrderly s.merge b.store)
        | inr (d, granted) ↦
            rw (granted, enqueue_job)
              (granted_job_update IsOrderly s.merge b.store d r (w 0).now tt granted)
      ]

  pub start_queued_job-Reaches :
      (w : World) (b : Board) (job : Job) → Left b (start_queued_job s w b job)
  unfolding start_queued_job
  start_queued_job-Reaches w b job =
      let r = job_update (Job.id job) JobStateType.queued JobStateType.new "" in
      elim (Result-cases (update_job_state b.store r (w 0).now)) [
        | inl (e, refused) ↦ rw (refused, start_queued_job) (stays IsOrderly s.merge b.store)
        | inr (d, granted) ↦
            rw (granted, start_queued_job)
              (then_reaches IsOrderly s.merge b.store d _
                (granted_job_update IsOrderly s.merge b.store d r (w 0).now tt granted)
                (start_job-Reaches (late w) (with_store b d) job))
      ]

  pub cancel_queued_job-Reaches :
      (w : World) (b : Board) (r : CancelJobRequest) → Left b (cancel_queued_job s w b r)
  unfolding cancel_queued_job
  cancel_queued_job-Reaches w b r =
      let q = job_update r.job_id JobStateType.queued JobStateType.cancelled r.reason in
      elim (Result-cases (update_job_state b.store q (w 0).now)) [
        | inl (e, refused) ↦ elim (Bool-cases (is_invalid_job_state e)) [
          | inl scheduled ↦
              rw (refused, cancel_queued_job, scheduled) (cancel_job-Reaches (late w) b r)
          | inr other ↦ rw (refused, cancel_queued_job, other) (stays IsOrderly s.merge b.store)
        ]
        | inr (d, granted) ↦
            rw (granted, cancel_queued_job)
              (granted_job_update IsOrderly s.merge b.store d q (w 0).now tt granted)
      ]

  pub handle_bid_response-Reaches :
      (w : World) (b : Board) (job : Job) (r : BidStrategyResponse)
      → Left b (handle_bid_response s w b job r)
  unfolding handle_bid_response
  handle_bid_response-Reaches w b job r =
      let q = job_update (Job.id job) JobStateType.queued JobStateType.queued r.reason in
      elim (Bool-cases r.should_wait) [
        | inl waits ↦ elim (Result-cases (update_job_state b.store q (w 0).now)) [
          | inl (e, refused) ↦
              rw (waits, handle_bid_response, refused) (stays IsOrderly s.merge b.store)
          | inr (d, granted) ↦
              rw (waits, handle_bid_response, granted)
                (granted_job_update IsOrderly s.merge b.store d q (w 0).now tt granted)
        ]
        | inr ready ↦ elim (Bool-cases r.should_bid) [
          | inl bid ↦ rw (ready, handle_bid_response, bid) (start_queued_job-Reaches w b job)
          | inr unwanted ↦
              rw (ready, handle_bid_response, unwanted) (cancel_queued_job-Reaches w b _)
        ]
      ]

  pub approve_job-Reaches :
      (approver : String) (w : World) (b : Board) (r : ModerateJobRequest)
      → Left b (approve_job approver s w b r)
  unfolding approve_job
  approve_job-Reaches approver w b r = elim (Bool-cases (str_eq r.client_id approver)) [
    | inr stranger ↦ rw (stranger, approve_job) (stays IsOrderly s.merge b.store)
    | inl client ↦ elim (Result-cases (get_job b.store r.job_id)) [
      | inl (e, missing) ↦ rw (client, approve_job, missing) (stays IsOrderly s.merge b.store)
      | inr (job, found) ↦
          rw (client, approve_job, found) (handle_bid_response-Reaches w b job r.response)
    ]
  ]

  pub verify_external-Reaches :
      (approver : String) (w : World) (b : Board) (r : ExternalVerificationResponse)
      → Left b (verify_external approver s w b r)
  unfolding verify_external
  verify_external-Reaches approver w b r = elim (Bool-cases (str_eq r.client_id approver)) [
    | inr stranger ↦ rw (stranger, verify_external) (stays IsOrderly s.merge b.store)
    | inl client ↦
        rw (client, verify_external)
          (Advances-Reaches s.merge b.store _
            (verify_executions-Advances s.merge w b r.verifications))
  ]

  -- A job that is enqueued goes to the strategy, whose answer is handled.
  submitted-Reaches :
      (selector : Job → Result String BidStrategyResponse) (w : World) (b : Board) (job : Job)
      → Left b (select_job s selector w b job)
  unfolding select_job
  submitted-Reaches selector w b job = elim (Result-cases (selector job)) [
    | inl (e, failed) ↦ rw (failed, select_job) (stays IsOrderly s.merge b.store)
    | inr (r, answered) ↦ rw (answered, select_job) (handle_bid_response-Reaches w b job r)
  ]

  pub submit_job-Reaches :
      (transforms : List (Job → Result String Job))
      (selector : Job → Result String BidStrategyResponse) (w : World) (b : Board)
      (p : JobCreatePayload)
      → Left b (submit_job s transforms selector w b p)
  unfolding submit_job
  submit_job-Reaches transforms selector w b p =
      elim (Result-cases (transformed transforms (new_job p (w 0).uuid (w 0).now))) [
        | inl (e, failed) ↦ rw (failed, submit_job) (stays IsOrderly s.merge b.store)
        | inr (job, made) ↦ elim (Result-cases (create_job b.store job (w 0).now (w 1).now)) [
          | inl (e, refused) ↦ rw (made, submit_job, refused) (stays IsOrderly s.merge b.store)
          | inr (d, granted) ↦
              let v = early (late w) in
              let c = (enqueue_job v (with_store b d) job).0 in
              let first =
                then_reaches IsOrderly s.merge b.store d c.store
                  (granted_job IsOrderly s.merge b.store d job (w 0).now (w 1).now tt granted)
                  (enqueue_job-Reaches v (with_store b d) job) in
              elim (Result-cases (enqueue_job v (with_store b d) job).1) [
                | inl (e, failed) ↦ rw (made, submit_job, granted, failed) first
                | inr (_, queued) ↦
                    rw (made, submit_job, granted, queued)
                      (then_reaches IsOrderly s.merge b.store c.store _ first
                        (submitted-Reaches selector (late (late w)) c job))
              ]
        ]
      ]
