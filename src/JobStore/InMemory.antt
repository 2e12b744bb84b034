-- ===== src/JobStore/InMemory.antt =====
-- The in-memory job store (pkg/jobstore/inmemory/inmemory.go). A method that may fail returns the
-- new store or the error; an error leaves the store as it was. The mutex makes each method one
-- step. The time of a call is an argument.
use bacalhau.Base.{ℕ, String, List, [], ◌∷◌, ◌++◌, none, some, if◌then◌else◌, incr}
use bacalhau.Base.Map
use bacalhau.Base.Map.{Map}
use bacalhau.Base.Result.{Result, ok, err, ◌>>=◌}
use bacalhau.Model.ExecutionState.{ExecutionStateType, ExecutionState}
use bacalhau.Model.JobState.{JobStateType, JobState, JobHistory, JobHistoryType, is_terminal}
use bacalhau.Model.Job.{Job}
use bacalhau.Model.Job
use bacalhau.JobStore.Types.{
  Error, job_not_found, job_already_exists, job_already_terminal, UpdateJobStateRequest,
  validate_job,
}

pub record JobStore : Type 0 where
  pub jobs : Map Job
  pub states : Map JobState
  pub history : Map (List JobHistory)
  pub inprogress : Map (Unit {0})

unfoldable pub new_job_store : JobStore
new_job_store = record { jobs = []; states = []; history = []; inprogress = [] }

abbrev pub new_job_comment : String
new_job_comment = "Job created"

-- The entry that `appendJobHistory` adds.
unfoldable pub job_entry : JobState → JobStateType → String → JobHistory
job_entry s previous comment = record {
  type = JobHistoryType.job_level;
  job_id = s.job_id;
  node_id = "";
  compute_reference = "";
  job_state = some (record { previous = previous; current = s.state });
  execution_state = none;
  new_version = s.version;
  comment = comment;
  time = s.update_time;
}

-- The entry that `appendExecutionHistory` adds.
unfoldable pub execution_entry : ExecutionState → ExecutionStateType → String → JobHistory
execution_entry e previous comment = record {
  type = JobHistoryType.execution_level;
  job_id = e.job_id;
  node_id = e.node_id;
  compute_reference = e.compute_reference;
  job_state = none;
  execution_state = some (record { previous = previous; current = e.state });
  new_version = e.version;
  comment = comment;
  time = e.update_time;
}

-- `d.history[id] = append(d.history[id], entry)`
unfoldable pub append_history : Map (List JobHistory) → String → JobHistory → Map (List JobHistory)
unfolding Map.get_or
append_history h id entry = Map.put h id (Map.get_or h id [] ++ entry ∷ [])

-- The state that `CreateJob` gives a new job.
unfoldable pub initial_state : Job → ℕ → ℕ → JobState
initial_state job created updated = record {
  job_id = Job.id job;
  executions = [];
  state = JobStateType.new;
  version = 1;
  create_time = created;
  update_time = updated;
  timeout_at = 0;
}

-- `CreateJob`; `created` and `updated` are its two readings of the clock.
unfoldable pub create_job : JobStore → Job → ℕ → ℕ → Result Error JobStore
unfolding append_history job_entry initial_state
create_job d job created updated = elim (Map.get d.jobs (Job.id job)) [
  | some existing ↦ err (job_already_exists (Job.id existing))
  | none ↦
      let state = initial_state job created updated in
      ok (record {
        jobs = Map.put d.jobs (Job.id job) job;
        states = Map.put d.states (Job.id job) state;
        inprogress = Map.put d.inprogress (Job.id job) tt;
        history =
            append_history d.history state.job_id
              (job_entry state JobStateType.new new_job_comment);
      })
]

-- The job's state after a granted update.
unfoldable pub updated_state : JobState → JobStateType → ℕ → JobState
updated_state s new_state now = record s {
  state = new_state;
  version = incr s.version;
  update_time = now;
}

-- The part of `UpdateJobState` behind its checks.
unfoldable pub write_job_state : JobStore → JobState → UpdateJobStateRequest → ℕ → JobStore
unfolding append_history job_entry updated_state is_terminal
write_job_state d s r now =
    let t = updated_state s r.new_state now in
    record d {
      states = Map.put d.states r.job_id t;
      inprogress =
          if is_terminal r.new_state then Map.remove d.inprogress r.job_id else d.inprogress;
      history = append_history d.history t.job_id (job_entry t s.state r.comment);
    }

-- `UpdateJobState`
unfoldable pub update_job_state : JobStore → UpdateJobStateRequest → ℕ → Result Error JobStore
unfolding write_job_state validate_job
update_job_state d r now = elim (Map.get d.states r.job_id) [
  | none ↦ err (job_not_found r.job_id)
  | some s ↦ validate_job r.condition s >>= λ _.
      if is_terminal s.state
      then err (job_already_terminal r.job_id s.state r.new_state)
      else ok (write_job_state d s r now)
]
