-- ===== src/Requester/Endpoint.antt =====
-- The requester's endpoint (pkg/requester/endpoint.go). The transformers of a job and the strategy
-- that selects it are arguments, and so are the fresh ID and the client that may approve.
use bacalhau.Base.{ℕ, String, false, [], List, ◌∷◌, if◌then◌else◌, not, str_eq, ◌<>◌}
use bacalhau.Base.Result.{Result, ok, err, ◌>>=◌}
use bacalhau.Model.ExecutionState.{ExecutionState}
use bacalhau.Model.JobState.{JobStateType}
use bacalhau.Model.Job.{Job, Spec, JobRequester}
use bacalhau.Model.Job
use bacalhau.JobStore.InMemory.{create_job, update_job_state}
use bacalhau.JobStore.Queries.{get_job, get_job_state}
use bacalhau.Compute.Bidder.{BidStrategyResponse}
use bacalhau.Requester.World.{
  Scheduler, World, SchedulerError, stored, outside, unknown_client, VerifierResult, early, late,
}
use bacalhau.Requester.Messages.{Board, with_store}
use bacalhau.Requester.Results.{verify_executions}
use bacalhau.Requester.Jobs.{Outcome, job_update, enqueue_job, start_queued_job, cancel_queued_job}

pub record JobCreatePayload : Type 0 where
  pub client_id : String
  pub api_version : String
  pub spec : Spec

pub record ModerateJobRequest : Type 0 where
  pub client_id : String
  pub job_id : String
  pub response : BidStrategyResponse

pub record ExternalVerificationResponse : Type 0 where
  pub client_id : String
  pub verifications : List VerifierResult

-- `handleBidResponse`
unfoldable pub handle_bid_response : Scheduler → World → Board → Job → BidStrategyResponse → Outcome
unfolding job_update start_queued_job cancel_queued_job
handle_bid_response s w b job r =
    if r.should_wait
    then elim (update_job_state b.store
        (job_update (Job.id job) JobStateType.queued JobStateType.queued r.reason) (w 0).now) [
          | err e ↦ (b, err (stored e))
          | ok d ↦ (with_store b d, ok tt)
        ]
    else if r.should_bid
    then start_queued_job s w b job
    else cancel_queued_job s w b (record {
      job_id = Job.id job;
      reason = "job rejected: " <> r.reason;
      user_triggered = false;
    })

-- The loop over the transformers; the first error ends it.
unfoldable pub transformed : List (Job → Result String Job) → Job → Result String Job
transformed [] job = ok job
transformed (t ∷ ts) job = t job >>= λ j. transformed ts j

-- The job that a payload describes.
unfoldable pub new_job : JobCreatePayload → String → ℕ → Job
new_job p id now = record {
  api_version = p.api_version;
  metadata = record {
    id = id;
    created_at = now;
    client_id = p.client_id;
    requester = record { requester_node_id = ""; requester_public_key = [] };
  };
  spec = p.spec;
}

-- `SubmitJob` behind the queue: the strategy is asked, and its answer handled.
unfoldable pub select_job :
    Scheduler → (Job → Result String BidStrategyResponse) → World → Board → Job → Outcome
unfolding handle_bid_response
select_job s selector w b job = elim (selector job) [
  | err e ↦ (b, err (outside e))
  | ok r ↦ handle_bid_response s w b job r
]

-- `SubmitJob`
unfoldable pub submit_job :
    Scheduler
    → List (Job → Result String Job)
    → (Job → Result String BidStrategyResponse)
    → World
    → Board
    → JobCreatePayload
    → Outcome
unfolding transformed new_job enqueue_job select_job
submit_job s transforms selector w b p =
    elim (transformed transforms (new_job p (w 0).uuid (w 0).now)) [
      | err e ↦ (b, err (outside e))
      | ok job ↦ elim (create_job b.store job (w 0).now (w 1).now) [
        | err e ↦ (b, err (stored e))
        | ok d ↦
            let (c, enqueued) = enqueue_job (early (late w)) (with_store b d) job in
            elim enqueued [
              | err e ↦ (c, err e)
              | ok _ ↦ select_job s selector (late (late w)) c job
            ]
      ]
    ]

-- `ApproveJob`; the first argument is the value of BACALHAU_JOB_APPROVER.
unfoldable pub approve_job : String → Scheduler → World → Board → ModerateJobRequest → Outcome
unfolding handle_bid_response
approve_job approver s w b approval =
    if not (str_eq approval.client_id approver)
    then (b, err unknown_client)
    else elim (get_job b.store approval.job_id) [
      | err e ↦ (b, err (stored e))
      | ok job ↦ handle_bid_response s w b job approval.response
    ]

-- `VerifyExecutions`
unfoldable pub verify_external :
    String → Scheduler → World → Board → ExternalVerificationResponse → Outcome
unfolding verify_executions
verify_external approver s w b results =
    if not (str_eq results.client_id approver)
    then (b, err unknown_client)
    else ((verify_executions s.merge w b results.verifications).0, ok tt)

-- The loop of `ReadLogs`: the node of the first execution with this compute reference.
unfoldable pub node_of : List ExecutionState → String → String
node_of [] id = ""
node_of (e ∷ es) id = if str_eq e.compute_reference id then e.node_id else node_of es id

-- `ReadLogs` up to its request: the node that it asks.
unfoldable pub logs_target : Board → String → String → Result SchedulerError String
unfolding node_of
logs_target b job_id execution_id = elim (get_job_state b.store job_id) [
  | err e ↦ err (stored e)
  | ok state ↦ elim (get_job b.store job_id) [
    | err e ↦ err (stored e)
    | ok job ↦
        let node = node_of state.executions execution_id in
        if str_eq node ""
        then err (outside ("unable to find execution " <> execution_id <> " in job " <> job_id))
        else ok node
  ]
]
