-- ===== src/Requester/Termination/Fuel.antt =====
-- Enough fuel for the transition of a job (pkg/requester/scheduler_state.go).
use bacalhau.Base.{str_eq}
use bacalhau.Base.{
  ◌+◌, ◌*◌, ℕ, zero, suc, ◌<◌, ◌≡◌, refl, inl, inr, String, false, [], Option, some, arith, length,
  Bool-cases,
}
use bacalhau.Base.Map
use bacalhau.Base.Result.{Result-cases}
use bacalhau.Model.JobState
use bacalhau.Model.JobState.{JobState}
use bacalhau.Model.Job.{Job}
use bacalhau.Model.Job
use bacalhau.JobStore.Queries.{short_id, get_job, get_job_state}
use bacalhau.JobStore.Merge.{Fills}
use bacalhau.JobStore.Invariant.{IsConsistent}
use bacalhau.Requester.World.{Scheduler, World, early, late}
use bacalhau.Requester.Messages.{Board}
use bacalhau.Requester.Results.{Arrays}
use bacalhau.Requester.Transition.{bid_checks, reread, checks, transition_lock_free, transition}
use bacalhau.Requester.Termination.Shrinks.{proposals}
use bacalhau.Requester.Termination.Calls.{advances_lem}
use bacalhau.Requester.Termination.Verdicts.{left}
use bacalhau.Requester.Termination.Names.{found_state, named_job}
use bacalhau.Requester.Termination.Views.{viewed}
use bacalhau.Requester.Termination.Pending.{IsHonest, Returns, pending_returns}
use bacalhau.Requester.Termination.Rounds.{left-known, left_mono}

module _ (s : Scheduler) (fills : Fills s.merge) (id : String) where
  checks_return :
      (again : World → Board → String → Option (Board × Arrays)) (bound : ℕ)
      → Returns s fills id again bound
      → (w : World) (b : Board) (job : Job) (state : JobState) → Job.id job ≡ id
      → ((n : ℕ) → IsHonest (w n))
      → IsConsistent b.store
      → Map.get b.store.states id ≡ some state
      → proposals state.executions < suc bound
      → (o : Board × Arrays) × (checks s id again w b job state ≡ some o)
  unfolding checks
  checks_return again bound returns w b job state named honest v stored few =
      let (c, arrays) = bid_checks s id (early w) b job state in
      let (m, t, before, after, known, front) = viewed s fills id (early w) b job state v stored in
      let (v', _) = advances_lem s.merge fills id b.store m.store v before in
      let fewer = left_mono s.merge fills b.store m.store id state v before stored in
      let (o, done) =
        pending_returns s fills id again bound returns (early (late w)) m c job t
          (reread state arrays c.store id) (length state.executions) named
          (λ n. honest (2 * (2 * n) + 1)) v' known after
          (omega (arith, few, fewer, left-known m.store id t known)) front in
      rw (done, checks) (_, refl)

  lock_free_returns :
      (n : ℕ) (w : World) (b : Board)
      → str_eq (short_id id) id ≡ false
      → ((i : ℕ) → IsHonest (w i))
      → IsConsistent b.store
      → left b.store id < n
      → (o : Board × Arrays) × (transition_lock_free n s w b id ≡ some o)
  unfolding transition_lock_free
  lock_free_returns zero w b full honest v less = absurd (omega (arith, less))
  lock_free_returns (suc n) w b full honest v less =
      elim (Result-cases (get_job_state b.store id)) [
        | inl (e, missing) ↦ rw (missing, transition_lock_free) ((b, []), refl)
        | inr (state, found) ↦ elim (Bool-cases (JobState.is_terminal state.state)) [
          | inl over ↦ rw (found, transition_lock_free, over) ((b, []), refl)
          | inr live ↦ elim (Result-cases (get_job b.store id)) [
            | inl (e, lost) ↦ rw (found, transition_lock_free, live, lost) ((b, []), refl)
            | inr (job, here) ↦
                let stored = found_state id b.store state found in
                rw (found, transition_lock_free, live, here)
                  (checks_return (transition_lock_free n s) n (λ u c. lock_free_returns n u c full)
                    w b job state (named_job id b.store job v full here) honest v stored
                    (omega (arith, less, left-known b.store id state stored)))
          ]
        ]
      ]

  -- A transition returns with more fuel than its job has executions with a proposed result, where
  -- the store is consistent, the ID is longer than its short form, and the verifiers' results are
  -- about executions that they were asked about.
  pub transition_returns :
      (n : ℕ) (w : World) (b : Board)
      → str_eq (short_id id) id ≡ false
      → ((i : ℕ) → IsHonest (w i))
      → IsConsistent b.store
      → left b.store id < n
      → (c : Board) × (transition n s w b id ≡ some c)
  unfolding transition
  transition_returns n w b full honest v less =
      let ((c, arrays), done) = lock_free_returns n w b full honest v less in
      (c, rw (done, transition) refl)
