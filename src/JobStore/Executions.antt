-- ===== src/JobStore/Executions.antt =====
-- The operations on executions of the in-memory job store (pkg/jobstore/inmemory/inmemory.go).
use bacalhau.Base.{
  ℕ, zero, suc, String, List, [], ◌∷◌, ◌++◌, Option, none, some, ◌==◌, if◌then◌else◌, incr,
}
use bacalhau.Base.Map
use bacalhau.Base.Map.{Map}
use bacalhau.Base.Result.{Result, ok, err, ◌>>=◌}
use bacalhau.Model.ExecutionState
use bacalhau.Model.ExecutionState.{ExecutionStateType, ExecutionState, ExecutionId, same_id}
use bacalhau.Model.JobState.{JobState}
use bacalhau.JobStore.Types.{
  Error, job_not_found, execution_not_found, execution_already_exists, execution_already_terminal,
  merge_failed, UpdateExecutionRequest, validate_execution,
}
use bacalhau.JobStore.InMemory.{JobStore, append_history, execution_entry}

-- The search of `CreateExecution` and `UpdateExecution` for an execution's ID, with its index.
unfoldable pub find_execution : ExecutionId → List ExecutionState → Option (ℕ × ExecutionState)
unfolding same_id
find_execution i [] = none
find_execution i (e ∷ es) =
    if same_id (ExecutionState.id e) i
    then some (0, e)
    else elim (find_execution i es) [ none ↦ none | some (n, f) ↦ some (suc n, f) ]

-- `es[n] = e`
unfoldable pub set_execution : List ExecutionState → ℕ → ExecutionState → List ExecutionState
set_execution [] n e = []
set_execution (x ∷ es) zero e = e ∷ es
set_execution (x ∷ es) (suc n) e = x ∷ set_execution es n e

-- The values that `CreateExecution` fills in.
unfoldable pub with_defaults : ExecutionState → ℕ → ExecutionState
with_defaults e now =
    let created = if e.create_time == 0 then now else e.create_time in
    record e {
      create_time = created;
      update_time = if e.update_time == 0 then created else e.update_time;
      version = if e.version == 0 then 1 else e.version;
    }

-- `CreateExecution`
unfoldable pub create_execution : JobStore → ExecutionState → ℕ → Result Error JobStore
unfolding find_execution with_defaults append_history execution_entry
create_execution d e now = elim (Map.get d.states e.job_id) [
  | none ↦ err (job_not_found e.job_id)
  | some s ↦ elim (find_execution (ExecutionState.id e) s.executions) [
    | some _ ↦ err (execution_already_exists (ExecutionState.id e))
    | none ↦
        let f = with_defaults e now in
        ok (record d {
          states = Map.put d.states f.job_id (record s { executions = s.executions ++ f ∷ [] });
          history = append_history d.history f.job_id (execution_entry f ExecutionStateType.new "");
        })
  ]
]

-- The default values of `UpdateExecution`, ahead of the merge.
unfoldable pub update_defaults : ExecutionState → ExecutionState → ℕ → ExecutionState
update_defaults e existing now = record e {
  create_time = if e.create_time == 0 then now else e.create_time;
  update_time = if e.update_time == 0 then existing.create_time else e.update_time;
  version = if e.version == 0 then incr existing.version else e.version;
}

-- The part of `UpdateExecution` behind the merge. The slice of executions is shared with the entry
-- under the requested job, so that entry shows the write too.
unfoldable pub write_execution :
    JobStore → JobState → ℕ → ExecutionState → ExecutionState → UpdateExecutionRequest → JobStore
unfolding set_execution append_history execution_entry
write_execution d s n existing e r =
    let t = record s { executions = set_execution s.executions n e } in
    record d {
      states = Map.put (Map.put d.states r.execution_id.job_id t) e.job_id t;
      history = append_history d.history e.job_id (execution_entry e existing.state r.comment);
    }

-- `mergo.Merge(&dst, src)`: the merged value, or the library's error.
abbrev pub Merge : Type 0
Merge = ExecutionState → ExecutionState → Result String ExecutionState

-- `UpdateExecution`
unfoldable pub update_execution :
    Merge → JobStore → UpdateExecutionRequest → ℕ → Result Error JobStore
unfolding find_execution validate_execution update_defaults write_execution
    ExecutionState.is_terminal
update_execution merge d r now = elim (Map.get d.states r.execution_id.job_id) [
  | none ↦ err (job_not_found r.execution_id.job_id)
  | some s ↦ elim (find_execution r.execution_id s.executions) [
    | none ↦ err (execution_not_found r.execution_id)
    | some (n, existing) ↦ validate_execution r.condition existing >>= λ _.
        if ExecutionState.is_terminal existing.state
        then err (execution_already_terminal r.execution_id existing.state r.new_values.state)
        else elim (merge (update_defaults r.new_values existing now) existing) [
          | err message ↦ err (merge_failed message)
          | ok e ↦ ok (write_execution d s n existing e r)
        ]
  ]
]
