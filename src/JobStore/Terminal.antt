-- ===== src/JobStore/Terminal.antt =====
-- A terminal state of a job is its last (pkg/jobstore/inmemory/inmemory.go).
use bacalhau.Base.{
  ℕ, ◌≡◌, refl, sym, ap, ◌∙◌, String, List, [], ◌∷◌, some, All, str_eq, eq_iff, inl, inr, true,
  Bool-cases, Option-cases, some_eq,
}
use bacalhau.Base.Map
use bacalhau.Base.Map.{Map}
use bacalhau.Model.ExecutionState
use bacalhau.Model.ExecutionState.{ExecutionState}
use bacalhau.Model.JobState.{JobState, JobStateType, is_terminal}
use bacalhau.Model.Job.{Job}
use bacalhau.Model.Job
use bacalhau.JobStore.Types.{UpdateJobStateRequest, UpdateExecutionRequest}
use bacalhau.JobStore.InMemory.{JobStore, create_job, update_job_state, write_job_state}
use bacalhau.JobStore.Executions.{
  Merge, set_execution, create_execution, update_execution, with_defaults, write_execution,
}
use bacalhau.JobStore.Merge.{Fills}
use bacalhau.JobStore.Ids.{found-id}
use bacalhau.JobStore.Invariant.{IsConsistent, unknown_state}
use bacalhau.JobStore.Invariant.Jobs.{settle, update_job_state_cases}
use bacalhau.JobStore.Invariant.Executions.{create_execution_cases, created}
use bacalhau.JobStore.Invariant.Updates.{KeepsId, update_execution_cases, merged_id}
use bacalhau.JobStore.Runs.{
  Call, creates_job, updates_job, creates_execution, updates_execution, call, run, IsAdmissible,
  call-IsConsistent,
}

-- The key has a state with this value and this version.
abbrev pub Shows : Map JobState → String → JobStateType → ℕ → Type 0
Shows m k state version =
    (s : JobState) × (Map.get m k ≡ some s) × (s.state ≡ state) × (s.version ≡ version)

-- A write of the states under another key, or one that keeps the shown parts, keeps what is shown.
Shows-put :
    (m : Map JobState) (i k : String) (s t : JobState) (state : JobStateType) (version : ℕ)
    → Map.get m i ≡ some s
    → t.state ≡ s.state
    → t.version ≡ s.version
    → Shows m k state version
    → Shows (Map.put m i t) k state version
Shows-put m i k s t state version found a b (u, shown, p, q) = elim (Bool-cases (str_eq i k)) [
  | inl this ↦
      let same : s ≡ u = some_eq (sym found ∙ ap (Map.get m) ((eq_iff i k).0 this) ∙ shown) in
      (
        t,
        Map.get-put_same m i k t this,
        a ∙ ap (λ x. x.state) same ∙ p,
        b ∙ ap (λ x. x.version) same ∙ q,
      )
  | inr other ↦ (u, Map.get-put_other m i k t other ∙ shown, p, q)
]

module _ (d : JobStore) (v : IsConsistent d) (k : String) (state : JobStateType) (version : ℕ) where
  create_job-Shows :
      (job : Job) (created updated : ℕ)
      → Shows d.states k state version
      → Shows (settle d (create_job d job created updated)).states k state version
  unfolding create_job
  create_job-Shows job created updated (u, shown, p, q) =
      elim (Option-cases (Map.get d.jobs (Job.id job))) [
        | inl fresh ↦ elim (Bool-cases (str_eq (Job.id job) k)) [
          | inl this ↦
              let missing = unknown_state d (Job.id job) (v (Job.id job)) fresh in
              absurd (cc (missing, ap (Map.get d.states) ((eq_iff _ k).0 this)))
          | inr other ↦
              rw (fresh, create_job) (u, Map.get-put_other d.states _ k _ other ∙ shown, p, q)
        ]
        | inr (j, old) ↦ rw (old, create_job) (u, shown, p, q)
      ]

  update_job_state-Shows :
      (r : UpdateJobStateRequest) (now : ℕ)
      → is_terminal state ≡ true
      → Shows d.states k state version
      → Shows (settle d (update_job_state d r now)).states k state version
  unfolding write_job_state
  update_job_state-Shows r now over (u, shown, p, q) = elim (update_job_state_cases d r now) [
    | inl (e, refused) ↦ rw refused (u, shown, p, q)
    | inr (s, found, valid, running, written) ↦ elim (Bool-cases (str_eq r.job_id k)) [
      | inl this ↦
          let same : s ≡ u =
            some_eq (sym found ∙ ap (Map.get d.states) ((eq_iff _ k).0 this) ∙ shown) in
          absurd (cc (ap (λ x. is_terminal x.state) same, ap is_terminal p))
      | inr other ↦ rw written (u, Map.get-put_other d.states _ k _ other ∙ shown, p, q)
    ]
  ]

  create_execution-Shows :
      (e : ExecutionState) (now : ℕ)
      → Shows d.states k state version
      → Shows (settle d (create_execution d e now)).states k state version
  unfolding with_defaults
  create_execution-Shows e now h = elim (create_execution_cases d e now) [
    | inl (x, refused) ↦ rw refused h
    | inr (s, found, fresh, written) ↦
        rw written (Shows-put d.states e.job_id k s _ state version found refl refl h)
  ]

  update_execution-Shows :
      (merge : Merge)
      → Fills merge
      → (r : UpdateExecutionRequest) (now : ℕ) → KeepsId r
      → Shows d.states k state version
      → Shows (settle d (update_execution merge d r now)).states k state version
  unfolding write_execution ExecutionState.id
  update_execution-Shows merge fills r now keeps h = elim (update_execution_cases merge d r now) [
    | inl (x, refused) ↦ rw refused h
    | inr (s, n, x, e, stored, there, valid, live, merged, written) ↦
        let t = record s { executions = set_execution s.executions n e } in
        let i = r.execution_id.job_id in
        let same : e.job_id ≡ i =
          ap (λ j. j.job_id)
            (merged_id merge fills r now x e keeps (found-id _ _ n x there) merged) in
        let once = Shows-put d.states i k s t state version stored refl refl h in
        rw written (
          Shows-put (Map.put d.states i t) e.job_id k t t state version
            (Map.get-put_same d.states i _ t ((eq_iff _ _).1 (sym same))) refl refl once)
  ]

module _ (merge : Merge) (fills : Fills merge) where
  call-Shows :
      (d : JobStore) (c : Call) (k : String) (state : JobStateType) (version : ℕ)
      → IsConsistent d
      → IsAdmissible c
      → is_terminal state ≡ true
      → Shows d.states k state version
      → Shows (settle d (call merge d c)).states k state version
  unfolding call
  call-Shows d (creates_job job a b) k st ver v adm over h = create_job-Shows d v k st ver job a b h
  call-Shows d (updates_job r now) k st ver v adm over h =
      update_job_state-Shows d v k st ver r now over h
  call-Shows d (creates_execution e now) k st ver v adm over h =
      create_execution-Shows d v k st ver e now h
  call-Shows d (updates_execution r now) k st ver v adm over h =
      update_execution-Shows d v k st ver merge fills r now adm h

  -- Once a consistent store shows a terminal state for a job, it shows that state, at the same
  -- version, after every sequence of calls in which no update renames an execution.
  pub terminal_final :
      (d : JobStore) (cs : List Call) (k : String) (state : JobStateType) (version : ℕ)
      → IsConsistent d
      → All IsAdmissible cs
      → is_terminal state ≡ true
      → Shows d.states k state version
      → Shows (run merge d cs).states k state version
  unfolding run
  terminal_final d [] k st ver v adm over h = h
  terminal_final d (c ∷ cs) k st ver v adm over h =
      terminal_final (settle d (call merge d c)) cs k st ver
        (call-IsConsistent merge fills d c v adm.0) adm.1 over
        (call-Shows d c k st ver v adm.0 over h)
