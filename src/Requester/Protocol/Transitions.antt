-- ===== src/Requester/Protocol/Transitions.antt =====
-- The transition of a job and the callbacks, as orderly calls of the job store (pkg/requester:
-- scheduler_state.go, scheduler.go).
use bacalhau.Base.{
  ℕ, zero, suc, subst, String, false, Option, none, some, inl, inr, Bool-cases, Option-cases, ltb,
  leb, ◌-◌, ◌++◌, take, length, if◌then◌else◌,
}
use bacalhau.Base.Result.{Result-cases}
use bacalhau.Model.ExecutionState.{ExecutionStateType}
use bacalhau.Model.JobState
use bacalhau.Model.JobState.{JobState}
use bacalhau.Model.Job.{Job, get_confidence}
use bacalhau.Model.Job
use bacalhau.JobStore.InMemory.{JobStore, update_job_state}
use bacalhau.JobStore.Queries.{get_job, get_job_state}
use bacalhau.JobStore.Runs.{Call}
use bacalhau.Requester.World.{Scheduler, World, clock, early, late}
use bacalhau.Requester.Messages.{Board}
use bacalhau.Requester.Bids.{in_state}
use bacalhau.Requester.Completion.{
  check_for_completed_executions, completion_request, count_completed,
}
use bacalhau.Requester.Selection.{select_nodes}
use bacalhau.Requester.Retries.{check_for_failed_executions, non_discarded, min_executions}
use bacalhau.Requester.Results.{
  Arrays, verify_executions, verify_result, check_for_pending_results, any_failed,
}
use bacalhau.Requester.Transition.{
  left_behind, first_check, bid_checks, reread, last_check, checks, transition_lock_free,
  transition,
}
use bacalhau.Requester.Protocol.{
  IsQuiet, IsOrderly, ReachesBy, Advances, Advances-Reaches, stays, then_reaches,
  granted_job_update,
}
use bacalhau.Requester.Protocol.Executions.{
  stop-Advances, notify_ask_for_bid-Advances, verify_executions-Advances,
  check_for_pending_bids-Advances,
}

module _ (P : Call → Type 0) (s : Scheduler) where
  -- What an operation returns, if anything, comes by calls of a kind.
  abbrev pub After : Board → Option Board → Type 0
  After b none = Unit
  After b (some c) = ReachesBy P s.merge b.store c.store

  pub then-After :
      (b c : Board) (o : Option Board) → ReachesBy P s.merge b.store c.store → After c o → After b o
  then-After b c none r a = tt
  then-After b c (some d) r a = then_reaches P s.merge b.store c.store d.store r a

-- The same of a round, which also leaves arrays behind.
abbrev pub AfterRound : Scheduler → Board → Option (Board × Arrays) → Type 0
AfterRound s b none = Unit
AfterRound s b (some (c, arrays)) = Advances s.merge b.store c.store

then-AfterRound :
    (s : Scheduler) (b c : Board) (o : Option (Board × Arrays))
    → Advances s.merge b.store c.store
    → AfterRound s c o
    → AfterRound s b o
then-AfterRound s b c none r a = tt
then-AfterRound s b c (some (d, arrays)) r a =
    then_reaches IsQuiet s.merge b.store c.store d.store r a

pub quiet-After :
    (s : Scheduler) (b : Board) (o : Option Board) → After IsQuiet s b o → After IsOrderly s b o
quiet-After s b none a = tt
quiet-After s b (some c) a = Advances-Reaches s.merge b.store c.store a

pub check_for_completed_executions-Advances :
    (s : Scheduler) (d : JobStore) (job : Job) (state : JobState) (now : ℕ)
    → Advances s.merge d (check_for_completed_executions d job state now)
unfolding check_for_completed_executions
check_for_completed_executions-Advances s d job state now =
    elim (Option-cases (count_completed state.executions 0)) [
      | inl going ↦ rw (going, check_for_completed_executions) (stays IsQuiet s.merge d)
      | inr (n, ended) ↦ elim (Bool-cases (ltb 0 n)) [
        | inl some_done ↦
            elim (Result-cases (
              update_job_state d
                (completion_request (Job.id job) (
                  if ltb n (get_confidence job.spec.deal)
                  then JobState.JobStateType.completed_partially
                  else JobState.JobStateType.completed))
                now)) [
                  | inl (x, refused) ↦
                      rw (ended, check_for_completed_executions, some_done, refused)
                        (stays IsQuiet s.merge d)
                  | inr (d', granted) ↦
                      rw (ended, check_for_completed_executions, some_done, granted)
                        (granted_job_update IsQuiet s.merge d d' _ now (tt, tt) granted)
                ]
        | inr none_done ↦
            rw (ended, check_for_completed_executions, none_done) (stays IsQuiet s.merge d)
      ]
    ]

module _ (s : Scheduler) where
  pub check_for_failed_executions-Advances :
      (w : World) (b : Board) (job : Job) (state : JobState)
      → Advances s.merge b.store (check_for_failed_executions s w b job state).store
  unfolding check_for_failed_executions
  check_for_failed_executions-Advances w b job state =
      let kept = non_discarded state.executions in
      let needed = min_executions job.spec.deal state.executions in
      elim (Bool-cases (ltb kept needed)) [
        | inr enough ↦ rw (enough, check_for_failed_executions) (stays IsQuiet s.merge b.store)
        | inl few ↦ elim (Bool-cases ((w 0).should_retry (Job.id job))) [
          | inr gives_up ↦
              rw (few, check_for_failed_executions, gives_up)
                (stop-Advances s (late w) b (Job.id job) _ false)
          | inl retries ↦
              elim (Result-cases (select_nodes s (w 0) job (needed - kept) (needed - kept))) [
                | inl (x, missing) ↦
                    rw (few, check_for_failed_executions, retries, missing)
                      (stop-Advances s (late w) b (Job.id job) _ false)
                | inr (ranked, found) ↦
                    rw (few, check_for_failed_executions, retries, found)
                      (notify_ask_for_bid-Advances s.merge (late w) b job
                        (take (needed - kept) ranked))
              ]
        ]
      ]

  pub bid_checks-Advances :
      (id : String) (w : World) (b : Board) (job : Job) (state : JobState)
      → Advances s.merge b.store (bid_checks s id w b job state).0.store
  unfolding bid_checks first_check
  bid_checks-Advances id w b job state =
      let c = check_for_failed_executions s (early w) b job state in
      let arrays = left_behind ((early w) 0).reallocates b.store c.store id in
      then_reaches IsQuiet s.merge b.store c.store _
        (check_for_failed_executions-Advances (early w) b job state)
        (check_for_pending_bids-Advances s.merge c job (reread state arrays c.store id)
          (clock (late w)))

  module _ (again : World → Board → String → Option (Board × Arrays))
      (o : (w : World) (b : Board) (id : String) → AfterRound s b (again w b id)) where
    check_for_pending_results-Advances :
        (w : World) (b : Board) (job : Job) (state : JobState)
        → AfterRound s b (check_for_pending_results s again w b job state)
    unfolding check_for_pending_results verify_result
    check_for_pending_results-Advances w b job state =
        let proposed = in_state ExecutionStateType.result_proposed state.executions in
        elim (Bool-cases (leb job.spec.deal.concurrency (length proposed))) [
          | inr few ↦ rw (few, check_for_pending_results) (stays IsQuiet s.merge b.store)
          | inl enough ↦
              elim (Result-cases (
                ((early w) 0).verify job.spec.verifier
                  (record { job_id = Job.id job; deal = job.spec.deal; executions = proposed }))) [
                    | inl (e, unverified) ↦
                        rw (enough, check_for_pending_results, verify_result, unverified)
                          (stop-Advances s (late w) b (Job.id job) _ false)
                    | inr (rs, verified) ↦
                        let v = verify_executions s.merge (late (early w)) b rs in
                        let made = verify_executions-Advances s.merge (late (early w)) b rs in
                        rw (enough, check_for_pending_results, verify_result, verified)
                          (elim (Bool-cases (any_failed v.2)) [
                            | inl failed ↦
                                rw failed
                                  (then-AfterRound s b v.0 _ made (o (late w) v.0 (Job.id job)))
                            | inr passed ↦ rw passed made
                          ])
                  ]
        ]

    checks-Advances :
        (id : String) (w : World) (b : Board) (job : Job) (state : JobState)
        → AfterRound s b (checks s id again w b job state)
    unfolding checks last_check
    checks-Advances id w b job state =
        let (c, arrays) = bid_checks s id (early w) b job state in
        let v = early (late w) in
        let seen = reread state arrays c.store id in
        let first = bid_checks-Advances id (early w) b job state in
        let results = check_for_pending_results-Advances v c job seen in
        elim (Option-cases (check_for_pending_results s again v c job seen)) [
          | inl out ↦ rw (out, checks) tt
          | inr ((d, more), done) ↦
              let second : AfterRound s c (some (d, more)) = subst (AfterRound s c) done results in
              rw (done, checks)
                (then_reaches IsQuiet s.merge b.store d.store _
                  (then_reaches IsQuiet s.merge b.store c.store d.store first second)
                  (check_for_completed_executions-Advances s d.store job
                    (reread state (arrays ++ more) d.store id) _))
        ]

  transition_lock_free-Advances :
      (n : ℕ) (w : World) (b : Board) (id : String)
      → AfterRound s b (transition_lock_free n s w b id)
  unfolding transition_lock_free
  transition_lock_free-Advances zero w b id = tt
  transition_lock_free-Advances (suc n) w b id = elim (Result-cases (get_job_state b.store id)) [
    | inl (e, missing) ↦ rw (missing, transition_lock_free) (stays IsQuiet s.merge b.store)
    | inr (state, found) ↦ elim (Bool-cases (JobState.is_terminal state.state)) [
      | inl over ↦ rw (found, transition_lock_free, over) (stays IsQuiet s.merge b.store)
      | inr live ↦ elim (Result-cases (get_job b.store id)) [
        | inl (e, unknown) ↦
            rw (found, transition_lock_free, live, unknown) (stays IsQuiet s.merge b.store)
        | inr (job, known) ↦
            rw (found, transition_lock_free, live, known)
              (checks-Advances (transition_lock_free n s) (transition_lock_free-Advances n) id w b
                job state)
      ]
    ]
  ]

  pub transition-Advances :
      (n : ℕ) (w : World) (b : Board) (id : String) → After IsQuiet s b (transition n s w b id)
  unfolding transition
  transition-Advances n w b id = elim (Option-cases (transition_lock_free n s w b id)) [
    | inl out ↦ rw (out, transition) tt
    | inr ((c, arrays), done) ↦
        rw (done, transition) (subst (AfterRound s b) done (transition_lock_free-Advances n w b id))
  ]
