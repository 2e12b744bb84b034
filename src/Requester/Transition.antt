-- ===== src/Requester/Transition.antt =====
-- The transition of a job: the four checks on its state (pkg/requester/scheduler_state.go). The
-- mutex of the scheduler makes it one step. Its recursion is on fuel; `none` is a lack of fuel.
--
-- The state that is read before the checks has a slice of executions, which shares its array with the
-- store: a check sees what those before it wrote, until an append to the store's slice takes a new
-- array. Then the old array keeps what it holds, and only the new one is written.
use bacalhau.Base.{
  ℕ, zero, suc, String, Bool, List, [], ◌∷◌, ◌++◌, Option, none, some, ◌&&◌, if◌then◌else◌, length,
  take, ltb,
}
use bacalhau.Base.Map
use bacalhau.Base.Result.{ok, err}
use bacalhau.Model.ExecutionState.{ExecutionState}
use bacalhau.Model.JobState
use bacalhau.Model.JobState.{JobState}
use bacalhau.Model.Job.{Job}
use bacalhau.JobStore.InMemory.{JobStore}
use bacalhau.JobStore.Queries.{get_job, get_job_state}
use bacalhau.Requester.World.{Scheduler, World, early, late, clock}
use bacalhau.Requester.Messages.{Board, with_store}
use bacalhau.Requester.Bids.{check_for_pending_bids}
use bacalhau.Requester.Retries.{check_for_failed_executions}
use bacalhau.Requester.Results.{Arrays, check_for_pending_results}
use bacalhau.Requester.Completion.{check_for_completed_executions}

-- The array that the store's slice of a job's executions stands on.
unfoldable pub stored_executions : JobStore → String → List ExecutionState
stored_executions d id = elim (Map.get d.states id) [ none ↦ [] | some s ↦ s.executions ]

-- The array that the check for failed executions leaves behind: one, if it appended executions and
-- one of the appends took a new array.
unfoldable pub left_behind : Bool → JobStore → JobStore → String → Arrays
unfolding stored_executions
left_behind reallocates before after id =
    if reallocates
      && ltb (length (stored_executions before id)) (length (stored_executions after id))
    then stored_executions after id ∷ []
    else []

-- A state as it reads later: its slice has its length, and stands on the first array that was left
-- behind since, or on the store's.
unfoldable pub reread : JobState → Arrays → JobStore → String → JobState
unfolding stored_executions
reread state arrays d id = record state {
  executions =
      take (length state.executions) (elim arrays [ [] ↦ stored_executions d id | old ∷ _ ↦ old ]);
}

module _ (s : Scheduler) (id : String) where
  -- The first check, with the array it leaves behind.
  unfoldable pub first_check : World → Board → Job → JobState → Board × Arrays
  unfolding check_for_failed_executions left_behind
  first_check w b job state =
      let c = check_for_failed_executions s w b job state in
      (c, left_behind (w 0).reallocates b.store c.store id)

  -- The two checks ahead of the results.
  unfoldable pub bid_checks : World → Board → Job → JobState → Board × Arrays
  unfolding first_check reread check_for_pending_bids
  bid_checks w b job state =
      let (c, arrays) = first_check (early w) b job state in
      (
        check_for_pending_bids s.merge c job (reread state arrays c.store id) (clock (late w)),
        arrays,
      )

  -- The last check, and the arrays left behind by all.
  unfoldable pub last_check : ℕ → Job → JobState → Arrays → Board × Arrays → Board × Arrays
  unfolding reread check_for_completed_executions
  last_check now job state arrays (b, more) =
      let all = arrays ++ more in
      (
        with_store b (check_for_completed_executions b.store job (reread state all b.store id) now),
        all,
      )

  -- The four checks, all on the state read before the first.
  unfoldable pub checks :
      (World → Board → String → Option (Board × Arrays))
      → World
      → Board
      → Job
      → JobState
      → Option (Board × Arrays)
  unfolding bid_checks check_for_pending_results last_check
  checks again w b job state =
      let (c, arrays) = bid_checks (early w) b job state in
      elim (check_for_pending_results s again (early (late w)) c job
        (reread state arrays c.store id)) [
          | none ↦ none
          | some o ↦ some (last_check (clock (late (late w)) 0) job state arrays o)
        ]

-- `transitionJobStateLockFree`
unfoldable pub transition_lock_free :
    ℕ → Scheduler → World → Board → String → Option (Board × Arrays)
unfolding checks
transition_lock_free zero s w b id = none
transition_lock_free (suc n) s w b id = elim (get_job_state b.store id) [
  | err _ ↦ some (b, [])
  | ok state ↦
      if JobState.is_terminal state.state then some (b, []) else elim (get_job b.store id) [
        | err _ ↦ some (b, [])
        | ok job ↦ checks s id (transition_lock_free n s) w b job state
      ]
]

-- `TransitionJobState`, whose lock makes it a step of its own.
unfoldable pub transition : ℕ → Scheduler → World → Board → String → Option Board
unfolding transition_lock_free
transition n s w b id = elim (transition_lock_free n s w b id) [
  | none ↦ none
  | some (c, _) ↦ some c
]
