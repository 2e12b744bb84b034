-- ===== src/Requester/Protocol/Entries.antt =====
-- Sequences of everything that may reach the requester (pkg/requester: endpoint.go, scheduler.go).
use bacalhau.Base.{
  ℕ, ◌≡◌, sym, ap, ◌∙◌, subst, String, true, List, [], ◌∷◌, Option, none, some, inl, inr,
  Option-cases,
}
use bacalhau.Base.Result.{Result}
use bacalhau.Model.ExecutionState.{ExecutionId}
use bacalhau.Model.JobState.{JobStateType, is_terminal}
use bacalhau.Model.Job.{Job}
use bacalhau.JobStore.InMemory.{new_job_store}
use bacalhau.JobStore.Merge.{Fills}
use bacalhau.JobStore.Invariant.{IsConsistent}
use bacalhau.JobStore.Runs.{run, run-IsConsistent}
use bacalhau.JobStore.Terminal.{Shows, terminal_final}
use bacalhau.Compute.Bidder.{BidStrategyResponse}
use bacalhau.Requester.World.{Scheduler, World, NodeRank}
use bacalhau.Requester.Retries.{notify_ask_for_bid}
use bacalhau.Requester.Messages.{Board}
use bacalhau.Requester.Transition.{transition}
use bacalhau.Requester.Callbacks.{
  Report, report, BidResult, RunResult, PublishResult, ComputeError, on_bid_complete,
  on_run_complete, on_publish_complete, handle_execution_failure, on_compute_failure,
}
use bacalhau.Requester.Jobs.{CancelJobRequest, cancel_queued_job}
use bacalhau.Requester.Endpoint.{
  JobCreatePayload, ModerateJobRequest, ExternalVerificationResponse, submit_job, approve_job,
  verify_external,
}
use bacalhau.Requester.Protocol.{
  IsOrderly, Reaches, Advances-Reaches, stays, orderly_run-IsAdmissible,
}
use bacalhau.Requester.Protocol.Executions.{notify_ask_for_bid-Advances}
use bacalhau.Requester.Protocol.Transitions.{After, then-After, quiet-After, transition-Advances}
use bacalhau.Requester.Protocol.Callbacks.{
  report-Reaches, on_bid_complete-Reaches, on_run_complete-Reaches, on_publish_complete-Reaches,
  handle_execution_failure-Reaches,
}
use bacalhau.Requester.Protocol.Admissions.{
  submit_job-Reaches, approve_job-Reaches, cancel_queued_job-Reaches, verify_external-Reaches,
}

-- A request of a client, an answer of a compute node, a turn of a goroutine that asks a node of a
-- started job for a bid, or the failure of a request that a goroutine sent to one. The halves of a
-- callback are entries, too: other entries may come between them.
pub data Entry : Type 0 where
  submits :
      List (Job → Result String Job)
      → (Job → Result String BidStrategyResponse)
      → JobCreatePayload
      → Entry
  approves : String → ModerateJobRequest → Entry
  cancels_job : CancelJobRequest → Entry
  verifies : String → ExternalVerificationResponse → Entry
  asks : Job → NodeRank → Entry
  reports : Report → Entry
  transitions : String → Entry
  completes_bid : BidResult → Entry
  completes_run : RunResult → Entry
  completes_publish : PublishResult → Entry
  computes_failure : ComputeError → Entry
  fails_to_notify : ExecutionId → String → Entry

module _ (fuel : ℕ) (s : Scheduler) where
  unfoldable pub enter : Board → World → Entry → Option Board
  unfolding transition on_bid_complete on_run_complete on_publish_complete on_compute_failure
      handle_execution_failure report notify_ask_for_bid submit_job approve_job verify_external
      cancel_queued_job
  enter b w (submits transforms selector p) = some (submit_job s transforms selector w b p).0
  enter b w (approves approver r) = some (approve_job approver s w b r).0
  enter b w (cancels_job r) = some (cancel_queued_job s w b r).0
  enter b w (verifies approver r) = some (verify_external approver s w b r).0
  enter b w (asks job node) = some (notify_ask_for_bid w b job (node ∷ []))
  enter b w (reports r) = some (report s w b r)
  enter b w (transitions id) = transition fuel s w b id
  enter b w (completes_bid r) = on_bid_complete fuel s w b r
  enter b w (completes_run r) = on_run_complete fuel s w b r
  enter b w (completes_publish r) = on_publish_complete fuel s w b r
  enter b w (computes_failure r) = on_compute_failure fuel s w b r
  enter b w (fails_to_notify i failure) = handle_execution_failure fuel s w b i failure

  -- Each with what it meets outside; `none` if one lacks fuel.
  unfoldable pub enter_all : Board → List (World × Entry) → Option Board
  unfolding enter
  enter_all b [] = some b
  enter_all b ((w, e) ∷ es) = elim (enter b w e) [ none ↦ none | some c ↦ enter_all c es ]

  pub enter-Reaches : (b : Board) (w : World) (e : Entry) → After IsOrderly s b (enter b w e)
  unfolding enter on_compute_failure
  enter-Reaches b w (submits transforms selector p) = submit_job-Reaches s transforms selector w b p
  enter-Reaches b w (approves approver r) = approve_job-Reaches s approver w b r
  enter-Reaches b w (cancels_job r) = cancel_queued_job-Reaches s w b r
  enter-Reaches b w (verifies approver r) = verify_external-Reaches s approver w b r
  enter-Reaches b w (asks job node) =
      Advances-Reaches s.merge b.store _ (notify_ask_for_bid-Advances s.merge w b job (node ∷ []))
  enter-Reaches b w (reports r) = report-Reaches s w b r
  enter-Reaches b w (transitions id) = quiet-After s b _ (transition-Advances s fuel w b id)
  enter-Reaches b w (completes_bid r) = on_bid_complete-Reaches fuel s w b r
  enter-Reaches b w (completes_run r) = on_run_complete-Reaches fuel s w b r
  enter-Reaches b w (completes_publish r) = on_publish_complete-Reaches fuel s w b r
  enter-Reaches b w (computes_failure r) =
      handle_execution_failure-Reaches fuel s w b r.execution_id r.err
  enter-Reaches b w (fails_to_notify i failure) =
      handle_execution_failure-Reaches fuel s w b i failure

  enter_all-After : (b : Board) (es : List (World × Entry)) → After IsOrderly s b (enter_all b es)
  unfolding enter_all
  enter_all-After b [] = stays IsOrderly s.merge b.store
  enter_all-After b ((w, e) ∷ es) = elim (Option-cases (enter b w e)) [
    | inl out ↦ rw (out, enter_all) tt
    | inr (c, done) ↦
        let one : After IsOrderly s b (some c) =
          subst (After IsOrderly s b) done (enter-Reaches b w e) in
        rw (done, enter_all) (then-After IsOrderly s b c _ one (enter_all-After c es))
  ]

  -- Whatever reaches the requester, in whatever order and whatever it meets outside, the job store
  -- changes only by orderly calls: executions are created as asked for a bid, no update renames an
  -- execution, and an update of an execution moves it on to a state that follows on its own in the
  -- lifecycle, wherever the update's condition admits it.
  pub enter_all-Reaches :
      (b b' : Board) (es : List (World × Entry))
      → enter_all b es ≡ some b'
      → Reaches s.merge b.store b'.store
  enter_all-Reaches b b' es h = subst (After IsOrderly s b) h (enter_all-After b es)

  module _ (fills : Fills s.merge) where
    -- Whatever reaches a new requester, in whatever order, the maps of its job store agree.
    pub enter_all-IsConsistent :
        (b b' : Board) (es : List (World × Entry))
        → b.store ≡ new_job_store
        → enter_all b es ≡ some b'
        → IsConsistent b'.store
    enter_all-IsConsistent b b' es fresh h =
        let (cs, orderly, same) = enter_all-Reaches b b' es h in
        subst IsConsistent (ap (λ d. run s.merge d cs) (sym fresh) ∙ same)
          (run-IsConsistent s.merge fills cs (orderly_run-IsAdmissible cs orderly))

    -- Once a job in a consistent store is in a terminal state, it stays there, at the same version,
    -- whatever reaches the requester.
    pub enter_all-terminal :
        (b b' : Board) (es : List (World × Entry)) (k : String) (state : JobStateType) (version : ℕ)
        → IsConsistent b.store
        → is_terminal state ≡ true
        → Shows b.store.states k state version
        → enter_all b es ≡ some b'
        → Shows b'.store.states k state version
    enter_all-terminal b b' es k state version v over shown h =
        let (cs, orderly, same) = enter_all-Reaches b b' es h in
        subst (λ d. Shows d.states k state version) same
          (terminal_final s.merge fills b.store cs k state version v
            (orderly_run-IsAdmissible cs orderly) over shown)
