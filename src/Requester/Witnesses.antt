-- ===== src/Requester/Witnesses.antt =====
-- Transitions, selections and retries on concrete data.
use bacalhau.Base.{
  Option, ℕ, ◌+◌, ◌<◌, ◌≡◌, ◌⊎◌, refl, true, false, List, [], ◌∷◌, none, some, arith, All, subst,
  length,
}
use bacalhau.Base.Map
use bacalhau.Base.Result.{ok, err, ok_eq}
use bacalhau.Model.ExecutionState
use bacalhau.Model.ExecutionState.{ExecutionState, ExecutionStateType, ExecutionId, same_id_iff}
use bacalhau.Model.JobState
use bacalhau.Model.JobState.{JobState, JobStateType}
use bacalhau.Model.Job.{Job, get_confidence}
use bacalhau.JobStore.InMemory.{new_job_store, create_job, update_job_state}
use bacalhau.JobStore.Executions.{find_execution, create_execution, update_execution}
use bacalhau.JobStore.Queries.{short_id, get_job, get_job_state}
use bacalhau.JobStore.Filling.{fill, fill-Fills}
use bacalhau.JobStore.Invariant.{IsConsistent}
use bacalhau.JobStore.Runs.{
  Call, creates_job, creates_execution, updates_execution, run, run-IsConsistent,
}
use bacalhau.Requester.World.{
  Scheduler, Instant, NodeInfo, NodeRank, pos, negsuc, VerifierResult, not_enough_nodes,
}
use bacalhau.Requester.Messages.{Board}
use bacalhau.Requester.Callbacks.{run_update, bid_update}
use bacalhau.Requester.Retries.{asked, last_failed, min_executions}
use bacalhau.Requester.Selection.{suitable, select_nodes}
use bacalhau.Requester.Selection.Sorting.{sort_down, sort_down-Sorts}
use bacalhau.Requester.Selection.Best.{Selects, select_nodes_lem}
use bacalhau.Requester.Transition.{transition}
use bacalhau.Requester.Bids.{
  bid_request, in_state, answer_all, active_executions, update_and_notify_bid_rejected,
  received_bids, check_for_pending_bids,
}
use bacalhau.Requester.Completion.{
  count_completed, completion_request, check_for_completed_executions,
}
use bacalhau.Requester.Protocol.Requests.{
  bid_update-KeepsId, run_update-KeepsId, bid_request-KeepsId,
}
use bacalhau.Requester.Termination.Shrinks.{proposals, is_proposed}
use bacalhau.Requester.Termination.Verdicts.{left}
use bacalhau.Requester.Termination.Pending.{IsHonest}
use bacalhau.Requester.Termination.Fuel.{transition_returns}

abbrev job : Job
job = record {
  api_version = "V1beta2";
  metadata = record {
    id = "job-000001";
    created_at = 1;
    client_id = "client";
    requester = record { requester_node_id = "requester"; requester_public_key = [] };
  };
  spec = record {
    verifier = "Deterministic";
    timeout = 0;
    inputs = [];
    annotations = [];
    deal = record { concurrency = 1; confidence = 0; min_bids = 0 };
  };
}

abbrev execution : ExecutionId
execution = record { job_id = "job-000001"; node_id = "node-a"; execution_id = "e-1" }

-- The first result fails.
unfoldable fails : List ExecutionState → List VerifierResult
fails [] = []
fails (e ∷ es) = record { execution_id = ExecutionState.id e; verified = false } ∷ []

abbrev nodes : List NodeInfo
nodes = record { peer_id = "node-b" } ∷ []

abbrev ranked : List NodeRank
ranked =
    record { node_info = record { peer_id = "node-b" }; rank = pos 3 }
    ∷ record { node_info = record { peer_id = "node-c" }; rank = negsuc 0 }
    ∷ []

abbrev instant : ℕ → Instant
instant n = record {
  now = n + 20;
  uuid = "2";
  reallocates = true;
  should_retry = λ id. true;
  find_nodes = λ j. ok nodes;
  rank_nodes = λ j ns. ok ranked;
  verify = λ v q. ok (fails q.executions);
}

abbrev scheduler : Scheduler
scheduler = record {
  over_ask_for_bids_factor = 1;
  merge = fill;
  join = λ e m. m;
  text = λ e. "failed";
  sort = sort_down;
}

instant-IsHonest : (n : ℕ) → IsHonest (instant n)
unfolding fails find_execution
instant-IsHonest n v q rs h =
    subst
      (All (λ (r : VerifierResult).
        (m : ℕ) × (x : ExecutionState) × (find_execution r.execution_id q.executions
          ≡ some (m, x))))
      (ok_eq h) (about q.executions)
  where
    about :
        (es : List ExecutionState)
        → All
            (λ (r : VerifierResult).
              (m : ℕ) × (x : ExecutionState) × (find_execution r.execution_id es ≡ some (m, x)))
            (fails es)
    about [] = tt
    about (e ∷ es) = (
      (
        0,
        e,
        rw ((same_id_iff (ExecutionState.id e) (ExecutionState.id e)).1 refl, find_execution) refl,
      ),
      tt,
    )

abbrev asked_one : ExecutionState
asked_one = asked "job-000001" "node-a" "1"

abbrev bids : ExecutionState
bids = record asked_one { state = ExecutionStateType.ask_for_bid_accepted; version = 2 }

-- A job with one proposed result.
abbrev calls : List Call
calls =
    creates_job job 1 2
    ∷ creates_execution asked_one 3
    ∷ updates_execution
        (bid_update (record { execution_id = execution; accepted = true; reason = "" })) 4
    ∷ updates_execution (bid_request bids ExecutionStateType.bid_accepted) 5
    ∷ updates_execution
        (run_update
          (record { execution_id = execution; result_proposal = []; run_command_result = none }))
        6
    ∷ []

board : Board
board = record { store = run fill new_job_store calls; notices = [] }

board-IsConsistent : IsConsistent board.store
unfolding board
board-IsConsistent =
    run-IsConsistent fill fill-Fills calls
      (tt, (tt, (bid_update-KeepsId _, (bid_request-KeepsId _ _, (run_update-KeepsId _, tt)))))

one_left : left board.store "job-000001" ≡ 1
unfolding board left run create_job create_execution update_execution fill new_job_store Map.put
    Map.get Map.get_or asked bid_update ExecutionState.id bid_request run_update proposals
    is_proposed
one_left = refl

transition_returns_example :
    (c : Board) × (transition 2 scheduler instant board "job-000001" ≡ some c)
unfolding short_id
transition_returns_example =
    transition_returns scheduler fill-Fills "job-000001" 2 instant board refl instant-IsHonest
      board-IsConsistent (omega (arith, one_left))

select_nodes_lem_example :
    ((length (suitable ranked) < 1)
      × (select_nodes scheduler (instant 0) job 1 2
          ≡ err (not_enough_nodes 1 (length (suitable ranked)))))
    ⊎ ((ns : List NodeRank) × (select_nodes scheduler (instant 0) job 1 2 ≡ ok ns)
        × Selects ranked 1 2 ns)
select_nodes_lem_example =
    select_nodes_lem scheduler sort_down-Sorts (instant 0) job nodes ranked 1 2 (omega arith) refl
      refl

-- The one execution has failed.
abbrev failed : JobState
failed = record {
  job_id = "job-000001";
  executions =
      record asked_one { state = ExecutionStateType.failed; status = "lost"; update_time = 9 } ∷ [];
  state = JobStateType.in_progress;
  version = 2;
  create_time = 1;
  update_time = 2;
  timeout_at = 0;
}

-- One execution is completed, and a bid comes late.
abbrev late_bid : JobState
late_bid = record failed {
  executions =
      record asked_one { state = ExecutionStateType.completed; update_time = 9; version = 5 }
      ∷ record bids { node_id = "node-b"; update_time = 10 }
      ∷ [];
}

abbrev with_late_bid : Board
with_late_bid = record {
  store = record {
    jobs = ("job-000001", job) ∷ [];
    states = ("job-000001", late_bid) ∷ [];
    history = [];
    inprogress = ("job-000001", tt) ∷ [];
  };
  notices = [];
}

-- What becomes of the job.
abbrev outcome : Option Board → Option JobStateType
outcome none = none
outcome (some c) = elim (Map.get c.store.states "job-000001") [
  | none ↦ none
  | some s ↦ some s.state
]

-- The last check sees that the second rejected the bid, so one transition completes the job.
late_bid_rejected :
    outcome (transition 1 scheduler instant with_late_bid "job-000001")
    ≡ some JobStateType.completed
unfolding transition get_job_state get_job Map.get Map.put JobState.is_terminal in_state answer_all
    active_executions update_and_notify_bid_rejected update_execution update_job_state
    count_completed completion_request get_confidence fill ExecutionState.id
    ExecutionState.has_accepted_ask_for_bid ExecutionState.is_active ExecutionState.same last_failed
    min_executions received_bids check_for_pending_bids check_for_completed_executions
late_bid_rejected = refl
