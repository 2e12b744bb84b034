-- ===== src/Compute/Store/Cases.antt =====
-- When the calls of the compute node's store are granted (pkg/compute/store/inmemory/store.go).
use bacalhau.Base.{ℕ, ◌≡◌, none, some, false, arith, Option-cases, inl, inr, ◌⊎◌}
use bacalhau.Base.Map
use bacalhau.Base.Result.{ok, err, Result-cases}
use bacalhau.Compute.State.{
  Execution, ExecutionState, UpdateExecutionStateRequest, Error, same_iff, execution_not_found,
  execution_already_exists, validate_new_execution, is_terminal,
}
use bacalhau.Compute.Store.{
  Store, add_execution, create_execution, check_update, write_execution, update_execution_state,
}

pub validate_new_execution-version :
    (e : Execution)
    → validate_new_execution e ≡ ok tt
    → (e.state ≡ ExecutionState.created) × (e.version ≡ 1)
unfolding validate_new_execution
validate_new_execution-version e h = ground (arith, h, same_iff e.state ExecutionState.created)

-- `CreateExecution` refuses, or it adds a new execution in the state `created`, at version 1.
pub create_execution_cases :
    (d : Store) (e : Execution)
    → ((x : Error) × (create_execution d e ≡ err x))
      ⊎ ((Map.get d.executions e.id ≡ none)
          × (e.state ≡ ExecutionState.created)
          × (e.version ≡ 1)
          × (create_execution d e ≡ ok (add_execution d e)))
unfolding create_execution
create_execution_cases d e = elim (Option-cases (Map.get d.executions e.id)) [
  | inr (x, there) ↦ inl (execution_already_exists e.id, rw (there, create_execution))
  | inl fresh ↦ elim (Result-cases (validate_new_execution e)) [
    | inl (x, bad) ↦ inl (x, rw (fresh, create_execution, bad))
    | inr (tt, good) ↦
        let (a, b) = validate_new_execution-version e good in
        inr (fresh, a, b, rw (fresh, create_execution, good))
  ]
]

-- What the checks of an update grant.
pub check_update_granted :
    (e : Execution) (r : UpdateExecutionStateRequest)
    → check_update e r ≡ ok tt
    → ((r.expected_state ≡ ExecutionState.undefined) ⊎ (e.state ≡ r.expected_state))
      × ((r.expected_version ≡ 0) ⊎ (e.version ≡ r.expected_version))
      × (is_terminal e.state ≡ false)
unfolding check_update
check_update_granted e r h = ground (
  arith,
  h,
  same_iff r.expected_state ExecutionState.undefined,
  same_iff e.state r.expected_state,
)

-- `UpdateExecutionState` refuses, or it updates a stored execution that passes the checks.
pub update_execution_state_cases :
    (d : Store) (r : UpdateExecutionStateRequest) (now : ℕ)
    → ((x : Error) × (update_execution_state d r now ≡ err x))
      ⊎ ((e : Execution) × (Map.get d.executions r.execution_id ≡ some e)
          × (check_update e r ≡ ok tt)
          × (update_execution_state d r now ≡ ok (write_execution d e r now)))
unfolding update_execution_state
update_execution_state_cases d r now = elim (Option-cases (Map.get d.executions r.execution_id)) [
  | inl missing ↦ inl (execution_not_found r.execution_id, rw (missing, update_execution_state))
  | inr (e, found) ↦ elim (Result-cases (check_update e r)) [
    | inl (x, bad) ↦ inl (x, rw (found, update_execution_state, bad))
    | inr (tt, good) ↦ inr (e, found, good, rw (found, update_execution_state, good))
  ]
]
