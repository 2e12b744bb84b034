-- ===== src/Requester/Completion.antt =====
-- The completion of a job (pkg/requester/scheduler_state.go).
use bacalhau.Base.{
  ℕ, suc, ◌+◌, ◌≡◌, refl, String, Bool, true, false, ◌&&◌, List, [], ◌∷◌, Option, none, some, ltb,
  arith, if◌then◌else◌, Bool-cases, inl, inr, not,
}
use bacalhau.Base.Map
use bacalhau.Base.Result.{ok, err}
use bacalhau.Model.ExecutionState
use bacalhau.Model.ExecutionState.{ExecutionState, ExecutionStateType}
use bacalhau.Model.JobState
use bacalhau.Model.JobState.{JobState, JobStateType}
use bacalhau.Model.Job.{Job, get_confidence}
use bacalhau.Model.Job
use bacalhau.JobStore.Types.{UpdateJobStateRequest}
use bacalhau.JobStore.InMemory.{JobStore, update_job_state, updated_state, write_job_state}

-- The update that the check asks for, without a condition.
unfoldable pub completion_request : String → JobStateType → UpdateJobStateRequest
completion_request id new_state = record {
  job_id = id;
  condition = record {
    expected_state = JobStateType.new;
    unexpected_states = [];
    expected_version = 0;
  };
  new_state = new_state;
  comment = "";
}

-- The loop of the check: the count of completed executions, or nothing on an early return.
unfoldable pub count_completed : List ExecutionState → ℕ → Option ℕ
count_completed [] n = some n
count_completed (e ∷ es) n =
    let m = if ExecutionState.same e.state ExecutionStateType.completed then suc n else n in
    let rest = count_completed es m in
    if not (ExecutionState.is_terminal e.state) then none else rest

-- `checkForCompletedExecutions`
unfoldable pub check_for_completed_executions : JobStore → Job → JobState → ℕ → JobStore
check_for_completed_executions d job s now = elim (count_completed s.executions 0) [
  | none ↦ d
  | some n ↦
      if ltb 0 n
      then elim (update_job_state d
          (completion_request (Job.id job) (
            if ltb n (get_confidence job.spec.deal)
            then JobStateType.completed_partially
            else JobStateType.completed))
          now) [ err _ ↦ d | ok d' ↦ d' ]
      else d
]

-- All executions have ended.
unfoldable pub all_ended : List ExecutionState → Bool
all_ended [] = true
all_ended (e ∷ es) = ExecutionState.is_terminal e.state && all_ended es

-- How many executions are completed.
unfoldable pub completions : List ExecutionState → ℕ
completions [] = 0
completions (e ∷ es) =
    let rest = completions es in
    if ExecutionState.same e.state ExecutionStateType.completed then suc rest else rest

count_completed_lem :
    (es : List ExecutionState) (n : ℕ)
    → count_completed es n ≡ (if all_ended es then some (n + completions es) else none)
unfolding count_completed all_ended completions
count_completed_lem [] n = ground arith
count_completed_lem (e ∷ es) n =
    ground (arith, count_completed_lem es n, count_completed_lem es (suc n))

count_all :
    (es : List ExecutionState)
    → count_completed es 0 ≡ (if all_ended es then some (completions es) else none)
count_all es = ground (arith, count_completed_lem es 0)

-- What the job's state is after the check, told from the executions alone.
unfoldable pub completed_state : JobState → ℕ → ℕ → JobState
completed_state s confidence now =
    if all_ended s.executions && ltb 0 (completions s.executions)
    then updated_state s
        (if ltb (completions s.executions) confidence
          then JobStateType.completed_partially
          else JobStateType.completed)
        now
    else s

-- An update without a condition of a job that is not terminal is granted.
update_granted :
    (d : JobStore) (id : String) (s : JobState) (t : JobStateType) (now : ℕ)
    → Map.get d.states id ≡ some s
    → JobState.is_terminal s.state ≡ false
    → update_job_state d (completion_request id t) now
      ≡ ok (write_job_state d s (completion_request id t) now)
unfolding update_job_state completion_request
update_granted d id s t now found live = rw (found, update_job_state, live) refl

written_state :
    (d : JobStore) (id : String) (s : JobState) (t : JobStateType) (now : ℕ)
    → Map.get (write_job_state d s (completion_request id t) now).states id
      ≡ some (updated_state s t now)
unfolding write_job_state completion_request
written_state d id s t now = Map.get-put_self d.states id (updated_state s t now)

-- The state of a completed job, by the count of the completed executions.
abbrev reached : ℕ → ℕ → JobStateType
reached n confidence =
    if ltb n confidence then JobStateType.completed_partially else JobStateType.completed

-- A check of a stored job that is not terminal, against its stored state: where every execution has
-- ended and one is completed, the job's next state is `completed`, or `completed_partially` if fewer
-- are completed than the deal's confidence asks for, at the next version; otherwise its state stays.
pub check_for_completed_executions_lem :
    (d : JobStore) (job : Job) (s : JobState) (now : ℕ)
    → Map.get d.states (Job.id job) ≡ some s
    → JobState.is_terminal s.state ≡ false
    → Map.get (check_for_completed_executions d job s now).states (Job.id job)
      ≡ some (completed_state s (get_confidence job.spec.deal) now)
unfolding check_for_completed_executions completed_state
check_for_completed_executions_lem d job s now found live =
    let n = completions s.executions in
    let t = reached n (get_confidence job.spec.deal) in
    let counted = count_all s.executions in
    elim (Bool-cases (all_ended s.executions)) [
      | inr going ↦ rw (going, check_for_completed_executions, counted, going) found
      | inl ended ↦ elim (Bool-cases (ltb 0 n)) [
        | inl some_done ↦
            rw (ended, some_done, check_for_completed_executions, counted, ended, some_done)
              (rw (update_granted d (Job.id job) s t now found live)
                (written_state d (Job.id job) s t now))
        | inr none_done ↦
            rw (ended, none_done, check_for_completed_executions, counted, ended, none_done) found
      ]
    ]
