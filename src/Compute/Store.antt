-- ===== src/Compute/Store.antt =====
-- The compute node's in-memory store (pkg/compute/store/inmemory/store.go). An error leaves the
-- store as it was. The mutex makes each method one step. The time of a call is an argument.
pub mod Lists
pub mod Cases
pub mod Invariant
pub mod Runs
mod Queries
mod Active
mod Examples
use bacalhau.Base.{
  ℕ, ◌≡◌, String, List, [], ◌∷◌, ◌++◌, Option, none, some, Bool, not, map, ◌&&◌, ◌==◌, ltb, length,
  if◌then◌else◌, incr, str_eq, ◌%◌, ◌^◌,
}
use bacalhau.Base.Map
use bacalhau.Base.Map.{Map}
use bacalhau.Base.Result.{Result, ok, err, ◌>>=◌}
use bacalhau.Model.Job
use bacalhau.Compute.State.{
  Execution, ExecutionState, ExecutionHistory, UpdateExecutionStateRequest, Error,
  execution_not_found, executions_not_found_for_job, execution_history_not_found,
  execution_already_exists, invalid_execution_state, invalid_execution_version,
  execution_already_terminal, validate_new_execution, same, is_terminal, is_active,
}

pub record Store : Type 0 where
  pub executions : Map Execution
  pub jobs : Map (List String)
  pub history : Map (List ExecutionHistory)

unfoldable pub new_store : Store
new_store = record { executions = []; jobs = []; history = [] }

abbrev pub new_execution_comment : String
new_execution_comment = "Execution created"

unfoldable pub get_execution : Store → String → Result Error Execution
get_execution d id = elim (Map.get d.executions id) [
  | none ↦ err (execution_not_found id)
  | some e ↦ ok e
]

-- `GetExecutions`; `zero` is the zero value of an execution.
unfoldable pub get_executions : Store → Execution → String → Result Error (List Execution)
unfolding Map.get_or
get_executions d zero job_id = elim (Map.get d.jobs job_id) [
  | none ↦ err (executions_not_found_for_job job_id)
  | some ids ↦ ok (map (λ id. Map.get_or d.executions id zero) ids)
]

unfoldable pub get_execution_history : Store → String → Result Error (List ExecutionHistory)
get_execution_history d id = elim (Map.get d.history id) [
  | none ↦ err (execution_history_not_found id)
  | some hs ↦ ok hs
]

-- The entry that `appendHistory` adds.
unfoldable pub history_entry : Execution → ExecutionState → String → ExecutionHistory
history_entry e previous comment = record {
  execution_id = e.id;
  previous_state = previous;
  new_state = e.state;
  new_version = e.version;
  comment = comment;
  time = e.update_time;
}

unfoldable pub append_history :
    Map (List ExecutionHistory) → Execution → ExecutionState → String → Map (List ExecutionHistory)
unfolding Map.get_or history_entry
append_history h e previous comment =
    Map.put h e.id (Map.get_or h e.id [] ++ history_entry e previous comment ∷ [])

-- The part of `CreateExecution` behind its checks.
unfoldable pub add_execution : Store → Execution → Store
unfolding Map.get_or append_history
add_execution d e = record {
  executions = Map.put d.executions e.id e;
  jobs = Map.put d.jobs (Job.id e.job) (Map.get_or d.jobs (Job.id e.job) [] ++ e.id ∷ []);
  history = append_history d.history e ExecutionState.undefined new_execution_comment;
}

unfoldable pub create_execution : Store → Execution → Result Error Store
unfolding validate_new_execution add_execution
create_execution d e = elim (Map.get d.executions e.id) [
  | some _ ↦ err (execution_already_exists e.id)
  | none ↦ validate_new_execution e >>= λ _. ok (add_execution d e)
]

-- The checks of `UpdateExecutionState`.
unfoldable pub check_update : Execution → UpdateExecutionStateRequest → Result Error (Unit {0})
unfolding same is_terminal
check_update e r =
    if not (same r.expected_state ExecutionState.undefined) && not (same e.state r.expected_state)
    then err (invalid_execution_state r.execution_id e.state r.expected_state)
    else if not (r.expected_version == 0) && not (e.version == r.expected_version)
    then err (invalid_execution_version r.execution_id e.version r.expected_version)
    else if is_terminal e.state
    then err (execution_already_terminal r.execution_id e.state r.new_state)
    else ok tt

-- The execution after a granted update.
unfoldable pub updated : Execution → ExecutionState → ℕ → Execution
updated e new_state now = record e {
  state = new_state;
  version = incr e.version;
  update_time = now;
}

-- The part of `UpdateExecutionState` behind its checks.
unfoldable pub write_execution : Store → Execution → UpdateExecutionStateRequest → ℕ → Store
unfolding append_history updated
write_execution d e r now =
    let f = updated e r.new_state now in
    record d {
      executions = Map.put d.executions f.id f;
      history = append_history d.history f e.state r.comment;
    }

unfoldable pub update_execution_state : Store → UpdateExecutionStateRequest → ℕ → Result Error Store
unfolding check_update write_execution
update_execution_state d r now = elim (Map.get d.executions r.execution_id) [
  | none ↦ err (execution_not_found r.execution_id)
  | some e ↦ check_update e r >>= λ _. ok (write_execution d e r now)
]

-- The slice without the first occurrence of the ID, if it occurs.
unfoldable pub cut : String → List String → Option (List String)
cut id [] = none
cut id (x ∷ xs) =
    let rest = cut id xs in
    if str_eq x id then some xs else elim rest [ none ↦ none | some ys ↦ some (x ∷ ys) ]

-- The job's list of executions without this one.
unfoldable pub drop_execution : Map (List String) → String → String → Map (List String)
unfolding Map.get_or cut
drop_execution m job_id id =
    let ids = Map.get_or m job_id [] in
    if length ids == 1
    then Map.remove m job_id
    else elim (cut id ids) [ none ↦ m | some rest ↦ Map.put m job_id rest ]

-- `DeleteExecution`, which never fails.
unfoldable pub delete_execution : Store → String → Store
unfolding drop_execution
delete_execution d id = elim (Map.get d.executions id) [
  | none ↦ d
  | some e ↦ record {
    executions = Map.remove d.executions id;
    jobs = drop_execution d.jobs (Job.id e.job) id;
    history = Map.remove d.history id;
  }
]

-- The loop of `GetExecutionCount`, over the map's entries.
unfoldable pub count_completed : Map Execution → ℕ
unfolding same
count_completed [] = 0
count_completed ((id, e) ∷ m) =
    let rest = count_completed m in
    if same e.state ExecutionState.completed then incr rest else rest

-- `GetExecutionCount`
unfoldable pub get_execution_count : Store → ℕ
unfolding count_completed
get_execution_count d = count_completed d.executions

-- The loop of `GetActiveExecution`: the count so far and the execution it holds.
unfoldable pub pick_active : List Execution → ℕ → Execution → Execution
unfolding is_active
pick_active [] n held = held
pick_active (e ∷ es) n held =
    if is_active e.state
    then pick_active es (incr n)
        (if not (incr n == 1) then e else if ltb held.update_time e.update_time then e else held)
    else pick_active es n held

-- `GetActiveExecution`
unfoldable pub get_active_execution : Store → Execution → String → Result Error Execution
unfolding get_executions pick_active
get_active_execution d zero job_id =
    get_executions d zero job_id >>= λ es. ok (pick_active es 0 zero)
