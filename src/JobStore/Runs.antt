-- ===== src/JobStore/Runs.antt =====
-- Sequences of calls on the job store (pkg/jobstore/inmemory/inmemory.go).
use bacalhau.Base.{ℕ, List, [], ◌∷◌, All}
use bacalhau.Base.Result.{Result}
use bacalhau.Model.ExecutionState.{ExecutionState}
use bacalhau.Model.Job.{Job}
use bacalhau.JobStore.Types.{Error, UpdateJobStateRequest, UpdateExecutionRequest}
use bacalhau.JobStore.InMemory.{JobStore, new_job_store, create_job, update_job_state}
use bacalhau.JobStore.Executions.{Merge, create_execution, update_execution}
use bacalhau.JobStore.Merge.{Fills}
use bacalhau.JobStore.Invariant.{IsConsistent}
use bacalhau.JobStore.Invariant.Jobs.{
  settle, new_job_store-IsConsistent, create_job-IsConsistent, update_job_state-IsConsistent,
}
use bacalhau.JobStore.Invariant.Executions.{create_execution-IsConsistent, created}
use bacalhau.JobStore.Invariant.Updates.{KeepsId, update_execution-IsConsistent}

-- A call that changes the store, with the readings of the clock that it makes.
pub data Call : Type 0 where
  creates_job : Job → ℕ → ℕ → Call
  updates_job : UpdateJobStateRequest → ℕ → Call
  creates_execution : ExecutionState → ℕ → Call
  updates_execution : UpdateExecutionRequest → ℕ → Call

unfoldable pub call : Merge → JobStore → Call → Result Error JobStore
call merge d (creates_job job created updated) = create_job d job created updated
call merge d (updates_job r now) = update_job_state d r now
call merge d (creates_execution e now) = create_execution d e now
call merge d (updates_execution r now) = update_execution merge d r now

-- The store after the calls, in their order. A refused call changes nothing.
unfoldable pub run : Merge → JobStore → List Call → JobStore
unfolding call
run merge d [] = d
run merge d (c ∷ cs) = run merge (settle d (call merge d c)) cs

-- An update of an execution does not rename it.
abbrev pub IsAdmissible : Call → Type 0
IsAdmissible (updates_execution r now) = KeepsId r
IsAdmissible (creates_job job created updated) = Unit
IsAdmissible (updates_job r now) = Unit
IsAdmissible (creates_execution e now) = Unit

module _ (merge : Merge) (fills : Fills merge) where
  pub call-IsConsistent :
      (d : JobStore) (c : Call)
      → IsConsistent d
      → IsAdmissible c
      → IsConsistent (settle d (call merge d c))
  unfolding call
  call-IsConsistent d (creates_job job created updated) v a =
      create_job-IsConsistent d v job created updated
  call-IsConsistent d (updates_job r now) v a = update_job_state-IsConsistent d v r now
  call-IsConsistent d (creates_execution e now) v a = create_execution-IsConsistent d v e now
  call-IsConsistent d (updates_execution r now) v a =
      update_execution-IsConsistent d v r merge fills a now

  pub run_from-IsConsistent :
      (d : JobStore) (cs : List Call)
      → IsConsistent d
      → All IsAdmissible cs
      → IsConsistent (run merge d cs)
  unfolding run
  run_from-IsConsistent d [] v a = v
  run_from-IsConsistent d (c ∷ cs) v a =
      run_from-IsConsistent (settle d (call merge d c)) cs (call-IsConsistent d c v a.0) a.1

  -- After any sequence of calls on a new store, where no update renames an execution, the maps
  -- agree at every key: a job is stored with a state under its own ID or not at all, it is in the
  -- set of jobs in progress exactly when its state is not terminal, the job-level entries of its
  -- history form a chain from `new` to its state, as many (modulo 2 ^ 64) as its version says, and its executions carry
  -- its ID and pairwise distinct IDs.
  pub run-IsConsistent :
      (cs : List Call) → All IsAdmissible cs → IsConsistent (run merge new_job_store cs)
  run-IsConsistent cs a = run_from-IsConsistent new_job_store cs new_job_store-IsConsistent a
