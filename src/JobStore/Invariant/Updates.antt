-- ===== src/JobStore/Invariant/Updates.antt =====
-- `UpdateExecution` keeps the maps of the store in agreement, where the new values name no other
-- execution (pkg/jobstore/inmemory/inmemory.go).
use bacalhau.Base.{
  ℕ, ◌≡◌, refl, sym, ap, subst, ◌∙◌, ◌⊎◌, inl, inr, String, some, arith, eq_iff, false, str_eq,
  Bool-cases, Option-cases,
}
use bacalhau.Base.Map
use bacalhau.Base.Map.{Map, get-put_same, get-put_other}
use bacalhau.Base.Result.{ok, err, ok_eq, Result-cases}
use bacalhau.Model.ExecutionState
use bacalhau.Model.ExecutionState.{ExecutionState, ExecutionStateType, ExecutionId}
use bacalhau.Model.JobState.{JobState}
use bacalhau.JobStore.Types.{
  Error, UpdateExecutionRequest, validate_execution, job_not_found, execution_not_found,
  execution_already_terminal, merge_failed,
}
use bacalhau.JobStore.InMemory.{JobStore}
use bacalhau.JobStore.Executions.{
  Merge, find_execution, set_execution, update_defaults, write_execution, update_execution,
}
use bacalhau.JobStore.Ids.{Owned, Distinct, found-id, ids-set}
use bacalhau.JobStore.Merge.{Fills, IsFilled, filled_text}
use bacalhau.JobStore.History.{append_history_other}
use bacalhau.JobStore.Invariant.{IsConsistent, Slot, Slot-elsewhere, known_state}
use bacalhau.JobStore.Invariant.Jobs.{settle}
use bacalhau.JobStore.Invariant.Executions.{executions_here}

-- The part of `UpdateExecution` that its checks guard.
abbrev pub Granted : Merge → JobStore → UpdateExecutionRequest → ℕ → Type 0
Granted merge d r now =
    (s : JobState) × (n : ℕ) × (x e : ExecutionState) × (Map.get d.states r.execution_id.job_id
      ≡ some s)
    × (find_execution r.execution_id s.executions ≡ some (n, x))
    × (validate_execution r.condition x ≡ ok tt)
    × (ExecutionState.is_terminal x.state ≡ false)
    × (merge (update_defaults r.new_values x now) x ≡ ok e)
    × (update_execution merge d r now ≡ ok (write_execution d s n x e r))

module _ (merge : Merge) (d : JobStore) (r : UpdateExecutionRequest) (now : ℕ) where
  found_cases :
      (s : JobState) (n : ℕ) (x : ExecutionState)
      → Map.get d.states r.execution_id.job_id ≡ some s
      → find_execution r.execution_id s.executions ≡ some (n, x)
      → ((e : Error) × (update_execution merge d r now ≡ err e)) ⊎ Granted merge d r now
  unfolding update_execution
  found_cases s n x stored there = elim (Result-cases (validate_execution r.condition x)) [
    | inl (e, invalid) ↦ inl (e, rw (stored, update_execution, there, invalid))
    | inr (_, valid) ↦ elim (Bool-cases (ExecutionState.is_terminal x.state)) [
      | inl over ↦ inl (
        execution_already_terminal r.execution_id x.state r.new_values.state,
        rw (stored, update_execution, there, valid, over),
      )
      | inr live ↦ elim (Result-cases (merge (update_defaults r.new_values x now) x)) [
        | inl (m, refused) ↦
            inl (merge_failed m, rw (stored, update_execution, there, valid, live, refused))
        | inr (e, merged) ↦ inr (
          s,
          n,
          x,
          e,
          stored,
          there,
          valid,
          live,
          merged,
          rw (stored, update_execution, there, valid, live, merged),
        )
      ]
    ]
  ]

  -- `UpdateExecution` refuses, or it writes the merged values over a live execution.
  pub update_execution_cases :
      ((e : Error) × (update_execution merge d r now ≡ err e)) ⊎ Granted merge d r now
  unfolding update_execution
  update_execution_cases = elim (Option-cases (Map.get d.states r.execution_id.job_id)) [
    | inl missing ↦ inl (job_not_found r.execution_id.job_id, rw (missing, update_execution))
    | inr (s, stored) ↦ elim (Option-cases (find_execution r.execution_id s.executions)) [
      | inl absent ↦ inl (execution_not_found r.execution_id, rw (stored, update_execution, absent))
      | inr ((n, x), there) ↦ found_cases s n x stored there
    ]
  ]

-- The new values leave the three parts of the ID out, or repeat them.
pub record KeepsId (r : UpdateExecutionRequest) : Type 0 where
  pub job_id : (r.new_values.job_id ≡ "") ⊎ (r.new_values.job_id ≡ r.execution_id.job_id)
  pub node_id : (r.new_values.node_id ≡ "") ⊎ (r.new_values.node_id ≡ r.execution_id.node_id)
  pub execution_id :
      (r.new_values.compute_reference ≡ "")
      ⊎ (r.new_values.compute_reference ≡ r.execution_id.execution_id)

kept_text :
    (new old part : String) → (new ≡ "") ⊎ (new ≡ part) → old ≡ part → filled_text new old ≡ part
kept_text new old part h e = ground (arith, eq_iff new "")

kept_id :
    (r : UpdateExecutionRequest) (now : ℕ) (x e : ExecutionState)
    → KeepsId r
    → ExecutionState.id x ≡ r.execution_id
    → IsFilled (update_defaults r.new_values x now) x e
    → ExecutionState.id e ≡ r.execution_id
unfolding ExecutionState.id update_defaults
kept_id r now x e keeps same f =
    let a : e.job_id ≡ r.execution_id.job_id =
      f.job_id ∙ kept_text _ _ _ keeps.job_id (ap (λ i. i.job_id) same) in
    let b : e.node_id ≡ r.execution_id.node_id =
      f.node_id ∙ kept_text _ _ _ keeps.node_id (ap (λ i. i.node_id) same) in
    let c : e.compute_reference ≡ r.execution_id.execution_id =
      f.compute_reference ∙ kept_text _ _ _ keeps.execution_id (ap (λ i. i.execution_id) same) in
    λ i. record { job_id = a i; node_id = b i; execution_id = c i }

-- The merged value of a granted update keeps the ID.
pub merged_id :
    (merge : Merge) (fills : Fills merge) (r : UpdateExecutionRequest) (now : ℕ)
    (x e : ExecutionState)
    → KeepsId r
    → ExecutionState.id x ≡ r.execution_id
    → merge (update_defaults r.new_values x now) x ≡ ok e
    → ExecutionState.id e ≡ r.execution_id
merged_id merge fills r now x e keeps same merged =
    let (f, m, filled) = fills (update_defaults r.new_values x now) x in
    kept_id r now x e keeps same
      (subst (IsFilled (update_defaults r.new_values x now) x) (ok_eq (sym m ∙ merged)) filled)

module _ (d : JobStore) (v : IsConsistent d) (r : UpdateExecutionRequest) where
  updated_here :
      (s : JobState) (n : ℕ) (x e : ExecutionState)
      → Map.get d.states r.execution_id.job_id ≡ some s
      → find_execution r.execution_id s.executions ≡ some (n, x)
      → ExecutionState.id e ≡ r.execution_id
      → Slot r.execution_id.job_id (write_execution d s n x e r)
  unfolding write_execution ExecutionState.id
  updated_here s n x e found there same =
      let (j, hs, ej, eh, g) = known_state d r.execution_id.job_id s (v _) found in
      let q : e.job_id ≡ r.execution_id.job_id = ap (λ i. i.job_id) same in
      let kept = ids-set r.execution_id s.executions n x e there same in
      executions_here d v r.execution_id.job_id s (set_execution s.executions n e) _ e x.state
        r.comment found (get-put_same _ _ _ _ ((eq_iff _ _).1 q)) q
        (subst (Owned r.execution_id.job_id) (sym kept) g.owned)
        (subst Distinct (sym kept) g.distinct)

  updated_elsewhere :
      (s : JobState) (n : ℕ) (x e : ExecutionState) (k : String)
      → ExecutionState.id e ≡ r.execution_id
      → str_eq r.execution_id.job_id k ≡ false
      → Slot k (write_execution d s n x e r)
  unfolding write_execution ExecutionState.id
  updated_elsewhere s n x e k same other =
      let q : e.job_id ≡ r.execution_id.job_id = ap (λ i. i.job_id) same in
      let o : str_eq e.job_id k ≡ false = rw q other in
      Slot-elsewhere d _ k refl (get-put_other _ _ k _ o ∙ get-put_other d.states _ k _ other) refl
        (append_history_other d.history _ k _ o) (v k)

  -- `UpdateExecution` keeps the maps in agreement, whether it writes or refuses.
  pub update_execution-IsConsistent :
      (merge : Merge)
      → Fills merge
      → KeepsId r
      → (now : ℕ) → IsConsistent (settle d (update_execution merge d r now))
  update_execution-IsConsistent merge fills keeps now k =
      elim (update_execution_cases merge d r now) [
        | inl (x, refused) ↦ rw refused (v k)
        | inr (s, n, x, e, stored, there, valid, live, merged, written) ↦
            let same = merged_id merge fills r now x e keeps (found-id _ _ n x there) merged in
            rw written (elim (Bool-cases (str_eq r.execution_id.job_id k)) [
              | inl this ↦
                  subst (λ k. Slot k (write_execution d s n x e r)) ((eq_iff _ _).0 this)
                    (updated_here s n x e stored there same)
              | inr other ↦ updated_elsewhere s n x e k same other
            ])
      ]
