-- ===== src/JobStore/Queries.antt =====
-- The reads of the in-memory job store (pkg/jobstore/inmemory/inmemory.go). The sort of the results
-- is Go's `sort.Slice`, a parameter.
use Prim.Native.String.{len, slice}
use bacalhau.Base.{ltb}
use bacalhau.JobStore.InMemory.{JobStore}
use bacalhau.Base.{String, List, [], ◌∷◌, none, some, if◌then◌else◌, str_eq}
use bacalhau.Base.Map
use bacalhau.Base.Map.{Map}
use bacalhau.Base.Result.{Result, ok, err}
use bacalhau.Model.JobState.{JobState, JobStateType, JobHistory}
use bacalhau.Model.Job.{Job}
use bacalhau.JobStore.Types.{Error, no_such_job}

-- `len(id) > ShortIDLength ? id[:ShortIDLength] : id` (pkg/model/utils.go).
unfoldable pub short_id : String → String
short_id i = if ltb 8 (len i) then slice i 0 8 else i

-- The first key whose short form is the one given; the given one if there is none.
unfoldable pub resolve : Map Job → String → String
resolve [] i = i
resolve ((k, j) ∷ m) i = if str_eq (short_id k) i then k else resolve m i

-- `getJob`
unfoldable pub get_job : JobStore → String → Result Error Job
unfolding resolve short_id
get_job d i =
    if ltb (len i) 8
    then err (no_such_job i)
    else let k = if str_eq (short_id i) i then resolve d.jobs i else i in
      elim (Map.get d.jobs k) [ none ↦ err (no_such_job k) | some j ↦ ok j ]

-- `GetJobState`
unfoldable pub get_job_state : JobStore → String → Result Error JobState
get_job_state d i = elim (Map.get d.states i) [ none ↦ err (no_such_job i) | some s ↦ ok s ]

pub record JobWithInfo : Type 0 where
  pub job : Job
  pub state : JobState
  pub history : List JobHistory

-- Go's zero values.
abbrev pub no_job : Job
no_job = record {
  api_version = "";
  metadata = record {
    id = "";
    created_at = 0;
    client_id = "";
    requester = record { requester_node_id = ""; requester_public_key = [] };
  };
  spec = record {
    verifier = "";
    timeout = 0;
    inputs = [];
    annotations = [];
    deal = record { concurrency = 0; confidence = 0; min_bids = 0 };
  };
}

abbrev pub no_state : JobState
no_state = record {
  job_id = "";
  executions = [];
  state = JobStateType.new;
  version = 0;
  create_time = 0;
  update_time = 0;
  timeout_at = 0;
}

-- `JobWithInfo` of an ID, as `GetInProgressJobs` makes it.
unfoldable pub job_with_info : JobStore → String → JobWithInfo
unfolding Map.get_or
job_with_info d id = record {
  job = Map.get_or d.jobs id no_job;
  state = Map.get_or d.states id no_state;
  history = [];
}

-- The loop of `GetInProgressJobs`.
unfoldable pub list_jobs : JobStore → Map (Unit {0}) → List JobWithInfo
unfolding job_with_info
list_jobs d [] = []
list_jobs d ((id, _) ∷ ids) = job_with_info d id ∷ list_jobs d ids

-- `GetInProgressJobs`; Go leaves the order open.
unfoldable pub get_in_progress_jobs : JobStore → List JobWithInfo
unfolding list_jobs
get_in_progress_jobs d = list_jobs d d.inprogress
