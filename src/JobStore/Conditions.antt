-- ===== src/JobStore/Conditions.antt =====
-- What the conditions of an update promise (pkg/jobstore/types.go, inmemory/inmemory.go).
use bacalhau.Base.{
  All, List, [], ◌∷◌, refl, Bool-cases, ◌↔◌, some_eq, ℕ, ◌+◌, ◌<◌, ◌^◌, ◌≡◌, ◌≢◌, sym, ap, ◌∙◌, ◌⊎◌,
  inl, inr, some, arith, eq_iff, false, incr, subst,
}
use bacalhau.Base.Map
use bacalhau.Base.Result.{ok, err, ok_eq}
use bacalhau.Model.ExecutionState
use bacalhau.Model.ExecutionState.{ExecutionState, ExecutionId, ExecutionStateType}
use bacalhau.Model.JobState
use bacalhau.Model.JobState.{JobState, JobStateType}
use bacalhau.JobStore.Types.{
  Error, UpdateJobCondition, UpdateExecutionCondition, UpdateExecutionRequest, validate_job,
  validate_execution, job_state_among,
}
use bacalhau.JobStore.InMemory.{JobStore}
use bacalhau.JobStore.Executions.{
  Merge, update_execution, find_execution, set_execution, write_execution, update_defaults,
}
use bacalhau.JobStore.Merge.{Fills, IsFilled, filled_state, filled_number}
use bacalhau.JobStore.Ids.{found-id, find-set}
use bacalhau.JobStore.Invariant.Updates.{KeepsId, Granted, update_execution_cases, merged_id}

-- What a condition asks of a job's state.
abbrev pub Admits : UpdateJobCondition → JobState → Type 0
Admits c s =
    ((c.expected_state ≡ JobStateType.new) ⊎ (c.expected_state ≡ s.state))
    × ((c.expected_version ≡ 0) ⊎ (c.expected_version ≡ s.version))
    × All (λ t. t ≢ s.state) c.unexpected_states

-- The loop finds a state exactly where it is one of the list.
job_state_among_iff :
    (ts : List JobStateType) (t : JobStateType)
    → (job_state_among ts t ≡ false) ↔ All (λ u. u ≢ t) ts
unfolding job_state_among
job_state_among_iff [] t = (λ h. tt, λ v. refl)
job_state_among_iff (u ∷ ts) t =
    let rest = job_state_among_iff ts t in
    let same = JobState.same_iff u t in
    (
      λ h. (λ e. ground (arith, h, same.1 e), rest.0 (ground (arith, h))),
      λ v. elim (Bool-cases (JobState.same u t)) [
        | inl here ↦ absurd (v.0 (same.0 here))
        | inr other ↦ ground (arith, other, rest.1 v.1)
      ],
    )

-- A condition on a job is met exactly when the expected state is `new` or the job's, the expected
-- version is 0 or the job's, and the job's state is not among the unexpected ones.
pub validate_job_iff :
    (c : UpdateJobCondition) (s : JobState) → (validate_job c s ≡ ok tt) ↔ Admits c s
unfolding validate_job
validate_job_iff c s =
    let a = JobState.same_iff c.expected_state JobStateType.new in
    let b = JobState.same_iff c.expected_state s.state in
    let among = job_state_among_iff c.unexpected_states s.state in
    (
      λ h. (ground (arith, a, b), ground (arith, a, b), among.0 (ground (arith, a, b))),
      λ (expected, version, apart).
          let missing = among.1 apart in ground (arith, a, b, expected, version, missing),
    )

-- The same for an execution, one half.
validate_execution_version :
    (c : UpdateExecutionCondition) (x : ExecutionState)
    → validate_execution c x ≡ ok tt
    → (c.expected_version ≡ 0) ⊎ (c.expected_version ≡ x.version)
unfolding validate_execution
validate_execution_version c x h = ground arith

-- A granted update stores the merged value where the search finds it again.
abbrev pub IsStored : JobStore → ExecutionId → ExecutionState → Type 0
IsStored d i e =
    (s : JobState) × (n : ℕ) × (Map.get d.states i.job_id ≡ some s)
    × (find_execution i s.executions ≡ some (n, e))

written-IsStored :
    (d : JobStore) (s : JobState) (n : ℕ) (x e : ExecutionState) (r : UpdateExecutionRequest)
    → find_execution r.execution_id s.executions ≡ some (n, x)
    → ExecutionState.id e ≡ r.execution_id
    → IsStored (write_execution d s n x e r) r.execution_id e
unfolding write_execution ExecutionState.id
written-IsStored d s n x e r there same = (
  record s { executions = set_execution s.executions n e },
  n,
  Map.get-put_same _ _ _ _ ((eq_iff _ _).1 (ap (λ i. i.job_id) same)),
  find-set r.execution_id s.executions n x e there same,
)

-- Whatever is stored, a granted update expected no version or the stored one.
stored_version :
    (merge : Merge) (d : JobStore) (r : UpdateExecutionRequest) (now : ℕ) (e : ExecutionState)
    → IsStored d r.execution_id e
    → Granted merge d r now
    → (r.condition.expected_version ≡ 0) ⊎ (r.condition.expected_version ≡ e.version)
stored_version merge d r now e (s, n, at, there) (t, m, x, y, at', there', valid, _, _, _) =
    let one : t ≡ s = some_eq (sym at' ∙ at) in
    let same : x ≡ e =
      ap (λ p. p.1)
        (some_eq (sym there' ∙ ap (λ q. find_execution r.execution_id q.executions) one ∙ there)) in
    rw (sym same) (validate_execution_version r.condition x valid)

-- One execution before and after an update. The state `new` and a version that wraps to 0 are filled
-- by the old ones.
abbrev pub Replaces : UpdateExecutionRequest → ℕ → ExecutionState → ExecutionState → Type 0
Replaces r now x e =
    (e.state ≡ filled_state r.new_values.state x.state)
    × (e.version ≡ filled_number (incr x.version) x.version)
    × (e.create_time ≡ now)
    × (e.update_time ≡ x.create_time)

abbrev pub Effect : JobStore → JobStore → UpdateExecutionRequest → ℕ → Type 0
Effect d d' r now =
    (x e : ExecutionState) × IsStored d r.execution_id x
    × IsStored d' r.execution_id e
    × Replaces r now x e

module _ (merge : Merge) (fills : Fills merge) (d d' : JobStore) (r : UpdateExecutionRequest)
    (now : ℕ) (keeps : KeepsId r) (granted : update_execution merge d r now ≡ ok d') where
  -- After a granted update that renames nothing and gives no version and no times, the store holds
  -- under the execution's ID a value with the requested state (the old one where `new` is requested),
  -- the next version (the old one where that wraps to 0), the time of the update for its creation time,
  -- and the old creation time for its update time.
  pub update_execution-Effect :
      r.new_values.version ≡ 0
      → r.new_values.create_time ≡ 0
      → r.new_values.update_time ≡ 0
      → Effect d d' r now
  unfolding update_defaults
  update_execution-Effect version created updated = elim (update_execution_cases merge d r now) [
    | inl (x, refused) ↦ absurd (cc)
    | inr (s, n, x, e, stored, there, valid, live, merged, written) ↦
        let same = merged_id merge fills r now x e keeps (found-id _ _ n x there) merged in
        let (f, m, filled) = fills (update_defaults r.new_values x now) x in
        let g : IsFilled (update_defaults r.new_values x now) x e =
          subst (IsFilled (update_defaults r.new_values x now) x) (ok_eq (sym m ∙ merged)) filled in
        (
          x,
          e,
          (s, n, stored, there),
          subst (λ b. IsStored b r.execution_id e) (ok_eq (sym written ∙ granted))
              (written-IsStored d s n x e r there same),
          (g.state, ground (arith, g), ground (arith, g), ground (arith, g)),
        )
  ]

  -- Compare and swap: of two updates of one execution that expect one version (not 0, below the
  -- greatest), the second is refused after the first was granted, where the first renames nothing and
  -- gives no version of its own.
  pub stale_update_refused :
      r.new_values.version ≡ 0
      → r.condition.expected_version ≢ 0
      → r.condition.expected_version + 1 < 2 ^ 64
      → (q : UpdateExecutionRequest) (later : ℕ) → q.execution_id ≡ r.execution_id
      → q.condition.expected_version ≡ r.condition.expected_version
      → (e : Error) × (update_execution merge d' q later ≡ err e)
  unfolding update_defaults
  stale_update_refused version expected fits q later target stale =
      elim (update_execution_cases merge d' q later) [
        | inl refused ↦ refused
        | inr second ↦ elim (update_execution_cases merge d r now) [
          | inl (x, refused) ↦ absurd (cc)
          | inr (s, n, x, e, stored, there, valid, live, merged, written) ↦
              let same = merged_id merge fills r now x e keeps (found-id _ _ n x there) merged in
              let (f, m, filled) = fills (update_defaults r.new_values x now) x in
              let g : IsFilled (update_defaults r.new_values x now) x e =
                subst (IsFilled (update_defaults r.new_values x now) x) (ok_eq (sym m ∙ merged))
                  filled in
              let kept : IsStored d' q.execution_id e =
                subst (λ b. IsStored b q.execution_id e) (ok_eq (sym written ∙ granted))
                  (subst (λ i. IsStored (write_execution d s n x e r) i e) (sym target)
                    (written-IsStored d s n x e r there same)) in
              let a = stored_version merge d' q later e kept second in
              let b = validate_execution_version r.condition x valid in
              absurd (ground (arith, g.version))
        ]
      ]
