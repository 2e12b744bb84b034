-- ===== src/Requester/Termination/Calls.antt =====
-- Calls of the job store that propose no result (pkg/jobstore/inmemory/inmemory.go).
use bacalhau.Base.{
  ℕ, ◌≡◌, refl, sym, ap, ◌∙◌, subst, String, true, false, List, [], ◌∷◌, All, some, some_eq, arith,
  str_eq, eq_iff, inl, inr, Bool-cases, Option-cases,
}
use bacalhau.Base.Map
use bacalhau.Base.Map.{Map}
use bacalhau.Base.Result.{ok_eq}
use bacalhau.Model.ExecutionState
use bacalhau.Model.ExecutionState.{ExecutionState, ExecutionStateType, same, is_terminal}
use bacalhau.Model.JobState.{JobState}
use bacalhau.Model.Job.{Job}
use bacalhau.Model.Job
use bacalhau.JobStore.Types.{UpdateJobStateRequest, UpdateExecutionRequest}
use bacalhau.JobStore.InMemory.{
  JobStore, create_job, update_job_state, write_job_state, updated_state,
}
use bacalhau.JobStore.Executions.{
  Merge, create_execution, update_execution, update_defaults, set_execution, write_execution,
  with_defaults,
}
use bacalhau.JobStore.Ids.{found-id}
use bacalhau.JobStore.Merge.{Fills, filled_state}
use bacalhau.JobStore.Invariant.{IsConsistent, unknown_state}
use bacalhau.JobStore.Invariant.Jobs.{settle, update_job_state_cases}
use bacalhau.JobStore.Invariant.Executions.{create_execution_cases}
use bacalhau.JobStore.Invariant.Updates.{KeepsId, update_execution_cases, merged_id}
use bacalhau.JobStore.Runs.{
  Call, creates_job, updates_job, creates_execution, updates_execution, call, run,
  call-IsConsistent, run_from-IsConsistent,
}
use bacalhau.Requester.Protocol.{
  follows, ends, Moves, IsQuiet, Advances, orderly-IsAdmissible, orderly_run-IsAdmissible,
  quiet_run-IsOrderly,
}
use bacalhau.Requester.Termination.Shrinks.{
  Shrinks, Shrinks-refl, Shrinks-trans, Shrinks-append, Shrinks-set, is_proposed,
}

-- The executions under a key, if it is known, shrink.
abbrev pub Shrunk : String → Map JobState → Map JobState → Type 0
Shrunk k m m' =
    (s : JobState)
    → Map.get m k ≡ some s
    → (t : JobState) × (Map.get m' k ≡ some t) × Shrinks s.executions t.executions

pub unchanged : (k : String) (m : Map JobState) → Shrunk k m m
unchanged k m s found = (s, found, Shrinks-refl s.executions)

pub Shrunk-trans : (k : String) (m n o : Map JobState) → Shrunk k m n → Shrunk k n o → Shrunk k m o
Shrunk-trans k m n o f g s found =
    let (t, there, a) = f s found in let (u, last, b) = g t there in (u, last, Shrinks-trans a b)

Shrunk-put :
    (k i : String) (m : Map JobState) (s t : JobState)
    → Map.get m i ≡ some s
    → Shrinks s.executions t.executions
    → Shrunk k m (Map.put m i t)
Shrunk-put k i m s t at h u found = elim (Bool-cases (str_eq i k)) [
  | inl this ↦
      let same : s ≡ u = some_eq (sym at ∙ ap (Map.get m) ((eq_iff i k).0 this) ∙ found) in
      (
        t,
        Map.get-put_same m i k t this,
        subst (λ (x : JobState). Shrinks x.executions t.executions) same h,
      )
  | inr other ↦ (u, Map.get-put_other m i k t other ∙ found, Shrinks-refl u.executions)
]

-- The state that an update writes is not `result_proposed`, if it does not ask for that one.
filled_calm :
    (previous next current : ExecutionStateType)
    → follows previous next ≡ true
    → same next ExecutionStateType.result_proposed ≡ false
    → current ≡ filled_state next previous
    → same current ExecutionStateType.result_proposed ≡ false
unfolding follows ends same
filled_calm previous next current f c e = ground arith

module _ (d : JobStore) (v : IsConsistent d) (k : String) where
  create_job-Shrunk :
      (job : Job) (created updated : ℕ)
      → Shrunk k d.states (settle d (create_job d job created updated)).states
  unfolding create_job
  create_job-Shrunk job created updated s shown =
      elim (Option-cases (Map.get d.jobs (Job.id job))) [
        | inl fresh ↦ elim (Bool-cases (str_eq (Job.id job) k)) [
          | inl this ↦
              let missing = unknown_state d (Job.id job) (v (Job.id job)) fresh in
              absurd (cc (missing, ap (Map.get d.states) ((eq_iff _ k).0 this)))
          | inr other ↦
              rw (fresh, create_job)
                (s, Map.get-put_other d.states _ k _ other ∙ shown, Shrinks-refl s.executions)
        ]
        | inr (j, old) ↦ rw (old, create_job) (s, shown, Shrinks-refl s.executions)
      ]

  update_job_state-Shrunk :
      (r : UpdateJobStateRequest) (now : ℕ)
      → Shrunk k d.states (settle d (update_job_state d r now)).states
  unfolding write_job_state updated_state
  update_job_state-Shrunk r now = elim (update_job_state_cases d r now) [
    | inl (e, refused) ↦ rw refused (unchanged k d.states)
    | inr (s, found, valid, running, written) ↦ rw written (
        Shrunk-put k r.job_id d.states s (updated_state s r.new_state now) found
          (Shrinks-refl s.executions))
  ]

  create_execution-Shrunk :
      (e : ExecutionState) (now : ℕ)
      → e.state ≡ ExecutionStateType.ask_for_bid
      → Shrunk k d.states (settle d (create_execution d e now)).states
  unfolding with_defaults is_proposed same
  create_execution-Shrunk e now asked = elim (create_execution_cases d e now) [
    | inl (x, refused) ↦ rw refused (unchanged k d.states)
    | inr (s, found, fresh, written) ↦ rw written (
        Shrunk-put k e.job_id d.states s _ found
          (Shrinks-append s.executions (with_defaults e now) (rw asked refl)))
  ]

  update_execution-Shrunk :
      (merge : Merge)
      → Fills merge
      → (r : UpdateExecutionRequest) (now : ℕ) → KeepsId r
      → Moves r
      → same r.new_values.state ExecutionStateType.result_proposed ≡ false
      → Shrunk k d.states (settle d (update_execution merge d r now)).states
  unfolding write_execution ExecutionState.id is_proposed update_defaults
  update_execution-Shrunk merge fills r now keeps moves calm =
      elim (update_execution_cases merge d r now) [
        | inl (x, refused) ↦ rw refused (unchanged k d.states)
        | inr (s, n, x, e, stored, there, valid, live, merged, written) ↦
            let (f, m, filled) = fills (update_defaults r.new_values x now) x in
            let state : e.state ≡ filled_state r.new_values.state x.state =
              ap (λ y. y.state) (ok_eq (sym merged ∙ m)) ∙ filled.state in
            let i = r.execution_id.job_id in
            let t = record s { executions = set_execution s.executions n e } in
            let named = found-id r.execution_id s.executions n x there in
            let id = merged_id merge fills r now x e keeps named merged in
            let less =
              Shrinks-set r.execution_id s.executions n x e there (id ∙ sym named)
                (filled_calm x.state r.new_values.state e.state (moves x valid live) calm state) in
            rw written (
              Shrunk-trans k d.states (Map.put d.states i t) _
                (Shrunk-put k i d.states s t stored less.0)
                (Shrunk-put k e.job_id (Map.put d.states i t) t t
                  (Map.get-put_same d.states i e.job_id t
                    ((eq_iff i e.job_id).1 (sym (ap (λ j. j.job_id) id))))
                  (Shrinks-refl t.executions)))
      ]

module _ (merge : Merge) (fills : Fills merge) (k : String) where
  call-Shrunk :
      (d : JobStore) (c : Call)
      → IsConsistent d
      → IsQuiet c
      → Shrunk k d.states (settle d (call merge d c)).states
  unfolding call
  call-Shrunk d (creates_job job created updated) v q = create_job-Shrunk d v k job created updated
  call-Shrunk d (updates_job r now) v q = update_job_state-Shrunk d v k r now
  call-Shrunk d (creates_execution e now) v q = create_execution-Shrunk d v k e now q.0
  call-Shrunk d (updates_execution r now) v q =
      update_execution-Shrunk d v k merge fills r now q.0.0 q.0.1 q.1

  run-Shrunk :
      (d : JobStore) (cs : List Call)
      → IsConsistent d
      → All IsQuiet cs
      → Shrunk k d.states (run merge d cs).states
  unfolding run
  run-Shrunk d [] v q = unchanged k d.states
  run-Shrunk d (c ∷ cs) v q =
      let d' = settle d (call merge d c) in
      let v' = call-IsConsistent merge fills d c v (orderly-IsAdmissible c q.0.0) in
      Shrunk-trans k d.states d'.states (run merge d' cs).states (call-Shrunk d c v q.0)
        (run-Shrunk d' cs v' q.1)

  -- What quiet calls lead to: a consistent store, with executions that shrink.
  pub advances_lem :
      (d d' : JobStore)
      → IsConsistent d
      → Advances merge d d'
      → IsConsistent d' × Shrunk k d.states d'.states
  advances_lem d d' v (cs, q, same) = (
    subst IsConsistent same (
        run_from-IsConsistent merge fills d cs v
          (orderly_run-IsAdmissible cs (quiet_run-IsOrderly cs q))),
    subst (λ x. Shrunk k d.states x.states) same (run-Shrunk d cs v q),
  )
