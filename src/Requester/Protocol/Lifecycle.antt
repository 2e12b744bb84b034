-- ===== src/Requester/Protocol/Lifecycle.antt =====
-- The history of a job's executions keeps to the lifecycle (pkg/requester,
-- pkg/jobstore/inmemory/inmemory.go).
use bacalhau.Base.{
  ℕ, ◌≡◌, refl, sym, ap, ◌∙◌, subst, ◌⊎◌, inl, inr, String, true, List, [], ◌∷◌, ◌++◌, All, none,
  some, arith, str_eq, Bool-cases, Option-cases,
}
use bacalhau.Base.Map
use bacalhau.Base.Map.{Map}
use bacalhau.Base.Result.{ok_eq}
use bacalhau.Model.ExecutionState.{ExecutionState, ExecutionStateType, same}
use bacalhau.Model.JobState.{JobHistory, StateChange}
use bacalhau.Model.Job.{Job}
use bacalhau.Model.Job
use bacalhau.JobStore.Types.{UpdateJobStateRequest, UpdateExecutionRequest}
use bacalhau.JobStore.InMemory.{
  JobStore, new_job_store, create_job, update_job_state, write_job_state, append_history, job_entry,
  execution_entry,
}
use bacalhau.JobStore.Executions.{
  Merge, create_execution, update_execution, update_defaults, write_execution, with_defaults,
}
use bacalhau.JobStore.Ids.{All-append}
use bacalhau.JobStore.Merge.{Fills, filled_state}
use bacalhau.JobStore.Invariant.Jobs.{settle, update_job_state_cases}
use bacalhau.JobStore.Invariant.Executions.{create_execution_cases, created}
use bacalhau.JobStore.Invariant.Updates.{update_execution_cases}
use bacalhau.JobStore.Runs.{
  Call, creates_job, updates_job, creates_execution, updates_execution, call, run,
}
use bacalhau.Requester.World.{Scheduler, World}
use bacalhau.Requester.Messages.{Board}
use bacalhau.Requester.Protocol.{follows, ends, IsOrderly, Moves}
use bacalhau.Requester.Protocol.Entries.{Entry, enter_all, enter_all-Reaches}

-- The start of an execution, or a step of its lifecycle.
abbrev pub Goes : StateChange ExecutionStateType → Type 0
Goes c =
    ((c.previous ≡ ExecutionStateType.new) × (c.current ≡ ExecutionStateType.ask_for_bid))
    ⊎ (follows c.previous c.current ≡ true)

-- An entry about an execution tells of such a change.
abbrev pub Tells : JobHistory → Type 0
Tells h = elim h.execution_state [ none ↦ Unit | some c ↦ Goes c ]

-- All of the store's histories are of such entries.
abbrev pub IsLifelike : JobStore → Type 0
IsLifelike d = (k : String) → All Tells (Map.get_or d.history k [])

append-Tells :
    (h : Map (List JobHistory)) (i : String) (entry : JobHistory)
    → ((k : String) → All Tells (Map.get_or h k []))
    → Tells entry
    → (k : String) → All Tells (Map.get_or (append_history h i entry) k [])
unfolding append_history
append-Tells h i entry v t k = elim (Bool-cases (str_eq i k)) [
  | inl this ↦
      rw (Map.get_or-put h i k [] (Map.get_or h i [] ++ entry ∷ []), this)
        (All-append Tells (Map.get_or h i []) (entry ∷ []) (v i) (t, tt))
  | inr other ↦ rw (Map.get_or-put h i k [] (Map.get_or h i [] ++ entry ∷ []), other) (v k)
]

-- A step that goes anywhere goes to a state that is not `new`, which the merge keeps.
filled_next :
    (previous next current : ExecutionStateType)
    → follows previous next ≡ true
    → current ≡ filled_state next previous
    → follows previous current ≡ true
unfolding follows ends same
filled_next previous next current f e = ground arith

module _ (d : JobStore) (v : IsLifelike d) where
  create_job-IsLifelike :
      (job : Job) (created updated : ℕ) → IsLifelike (settle d (create_job d job created updated))
  unfolding create_job job_entry
  create_job-IsLifelike job created updated = elim (Option-cases (Map.get d.jobs (Job.id job))) [
    | inl fresh ↦ rw (fresh, create_job) (append-Tells d.history _ _ v tt)
    | inr (j, old) ↦ rw (old, create_job) v
  ]

  update_job_state-IsLifelike :
      (r : UpdateJobStateRequest) (now : ℕ) → IsLifelike (settle d (update_job_state d r now))
  unfolding write_job_state job_entry
  update_job_state-IsLifelike r now = elim (update_job_state_cases d r now) [
    | inl (e, refused) ↦ rw refused v
    | inr (s, found, valid, running, written) ↦ rw written (append-Tells d.history _ _ v tt)
  ]

  create_execution-IsLifelike :
      (e : ExecutionState) (now : ℕ)
      → e.state ≡ ExecutionStateType.ask_for_bid
      → IsLifelike (settle d (create_execution d e now))
  unfolding execution_entry with_defaults
  create_execution-IsLifelike e now asked = elim (create_execution_cases d e now) [
    | inl (x, refused) ↦ rw refused v
    | inr (s, found, fresh, written) ↦ rw written (append-Tells d.history _ _ v (inl (refl, asked)))
  ]

  update_execution-IsLifelike :
      (merge : Merge)
      → Fills merge
      → (r : UpdateExecutionRequest) (now : ℕ) → Moves r
      → IsLifelike (settle d (update_execution merge d r now))
  unfolding write_execution execution_entry update_defaults
  update_execution-IsLifelike merge fills r now moves =
      elim (update_execution_cases merge d r now) [
        | inl (x, refused) ↦ rw refused v
        | inr (s, n, x, e, stored, there, valid, live, merged, written) ↦
            let (f, m, filled) = fills (update_defaults r.new_values x now) x in
            let state : e.state ≡ filled_state r.new_values.state x.state =
              ap (λ y. y.state) (ok_eq (sym merged ∙ m)) ∙ filled.state in
            rw written (
              append-Tells d.history _ _ v
                (inr (filled_next x.state r.new_values.state e.state (moves x valid live) state)))
      ]

module _ (merge : Merge) (fills : Fills merge) where
  call-IsLifelike :
      (d : JobStore) (c : Call)
      → IsLifelike d
      → IsOrderly c
      → IsLifelike (settle d (call merge d c))
  unfolding call
  call-IsLifelike d (creates_job job created updated) v o =
      create_job-IsLifelike d v job created updated
  call-IsLifelike d (updates_job r now) v o = update_job_state-IsLifelike d v r now
  call-IsLifelike d (creates_execution e now) v o = create_execution-IsLifelike d v e now o
  call-IsLifelike d (updates_execution r now) v o =
      update_execution-IsLifelike d v merge fills r now o.1

  run-IsLifelike :
      (d : JobStore) (cs : List Call)
      → IsLifelike d
      → All IsOrderly cs
      → IsLifelike (run merge d cs)
  unfolding run
  run-IsLifelike d [] v o = v
  run-IsLifelike d (c ∷ cs) v o =
      run-IsLifelike (settle d (call merge d c)) cs (call-IsLifelike d c v o.0) o.1

-- Whatever reaches a new requester, in whatever order, every entry about an execution in the
-- histories of its job store tells of an execution's start, as one that is asked for a bid, or of a
-- step of the lifecycle.
pub enter_all-IsLifelike :
    (fuel : ℕ) (s : Scheduler)
    → Fills s.merge
    → (b b' : Board) (es : List (World × Entry)) → b.store ≡ new_job_store
    → enter_all fuel s b es ≡ some b'
    → IsLifelike b'.store
unfolding new_job_store Map.get_or Map.get
enter_all-IsLifelike fuel s fills b b' es fresh h =
    let (cs, orderly, same) = enter_all-Reaches fuel s b b' es h in
    subst IsLifelike same (run-IsLifelike s.merge fills b.store cs (λ k. rw fresh tt) orderly)
