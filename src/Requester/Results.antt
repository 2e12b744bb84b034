-- ===== src/Requester/Results.antt =====
-- The verification of proposed results (pkg/requester: scheduler.go, scheduler_state.go;
-- pkg/verifier/utils.go).
use bacalhau.Base.{
  ℕ, suc, String, Bool, true, false, List, [], ◌∷◌, Option, some, leb, if◌then◌else◌, length, ◌<>◌,
}
use bacalhau.Base.Result.{Result, ok, err}
use bacalhau.Model.ExecutionState.{ExecutionState, ExecutionStateType, ExecutionId}
use bacalhau.Model.JobState.{JobState}
use bacalhau.Model.Job.{Job, Deal}
use bacalhau.Model.Job
use bacalhau.JobStore.Types.{UpdateExecutionRequest}
use bacalhau.JobStore.Executions.{Merge}
use bacalhau.JobStore.Stop.{only_state}
use bacalhau.Requester.World.{Scheduler, World, VerifierResult, early, late}
use bacalhau.Requester.Messages.{Board, accepts_result, rejects_result, update_and_notify}
use bacalhau.Requester.Stopping.{stop}
use bacalhau.Requester.Bids.{in_state}

-- The update that a verdict asks for.
unfoldable pub verdict_request : ExecutionId → ExecutionStateType → Bool → UpdateExecutionRequest
unfolding only_state
verdict_request i new_state passed = record {
  execution_id = i;
  condition = record {
    expected_state = ExecutionStateType.result_proposed;
    expected_version = 0;
    unexpected_states = [];
  };
  new_values = record (only_state new_state "") {
    verification_result = record { complete = true; result = passed };
  };
  comment = "";
}

module _ (merge : Merge) where
  unfoldable pub update_and_notify_result_accepted : Board → VerifierResult → ℕ → Board
  unfolding verdict_request update_and_notify
  update_and_notify_result_accepted b r now =
      update_and_notify merge b
        (verdict_request r.execution_id ExecutionStateType.result_accepted true) now
        (accepts_result r.execution_id)

  unfoldable pub update_and_notify_result_rejected : Board → VerifierResult → ℕ → Board
  unfolding verdict_request update_and_notify
  update_and_notify_result_rejected b r now =
      update_and_notify merge b
        (verdict_request r.execution_id ExecutionStateType.result_rejected false) now
        (rejects_result r.execution_id)

  -- `VerifyExecutions`: the results that passed, and those that failed, beside the new state.
  unfoldable pub verify_executions :
      World → Board → List VerifierResult → Board × List VerifierResult × List VerifierResult
  verify_executions w b [] = (b, [], [])
  verify_executions w b (r ∷ rs) =
      let b' =
        if r.verified
        then update_and_notify_result_accepted b r (w 0).now
        else update_and_notify_result_rejected b r (w 0).now in
      let (b'', succeeded, failed) = verify_executions (λ i. w (suc i)) b' rs in
      if r.verified then (b'', r ∷ succeeded, failed) else (b'', succeeded, r ∷ failed)

-- `verifyResult`; the verifier is the one that the job's specification names.
unfoldable pub verify_result :
    Scheduler
    → World
    → Board
    → Job
    → List ExecutionState
    → Result String (Board × List VerifierResult × List VerifierResult)
unfolding verify_executions
verify_result s w b job es =
    elim ((w 0).verify job.spec.verifier
      (record { job_id = Job.id job; deal = job.spec.deal; executions = es })) [
        | err e ↦ err e
        | ok results ↦ ok (verify_executions s.merge (late w) b results)
      ]

unfoldable pub any_failed : List VerifierResult → Bool
any_failed [] = false
any_failed (r ∷ rs) = true

-- The arrays of a job's executions that appends left for larger ones, the oldest first.
abbrev pub Arrays : Type 0
Arrays = List (List ExecutionState)

-- `checkForPendingResults`; `again` is the transition that a failed result asks for. It may run out
-- of fuel, and leave arrays behind.
unfoldable pub check_for_pending_results :
    Scheduler
    → (World → Board → String → Option (Board × Arrays))
    → World
    → Board
    → Job
    → JobState
    → Option (Board × Arrays)
unfolding verify_result any_failed
check_for_pending_results s again w b job state =
    let proposed = in_state ExecutionStateType.result_proposed state.executions in
    if leb job.spec.deal.concurrency (length proposed)
    then elim (verify_result s (early w) b job proposed) [
      | err e ↦ some (
        stop s (late w) b (Job.id job) ("failed to verify job " <> Job.id job <> ": " <> e) false,
        [],
      )
      | ok (b', succeeded, failed) ↦
          if any_failed failed then again (late w) b' (Job.id job) else some (b', [])
    ]
    else some (b, [])
