-- ===== src/Requester/Scenario.antt =====
-- A job from its submission to its completion, on a concrete network of one node.
use bacalhau.Base.{suc, ℕ, ◌≡◌, refl, String, true, false, List, [], ◌∷◌, none, some, map}
use bacalhau.Base.Map
use bacalhau.Base.Result.{Result, ok}
use bacalhau.Model.ExecutionState
use bacalhau.Model.ExecutionState.{ExecutionState, ExecutionStateType, ExecutionId}
use bacalhau.Model.JobState
use bacalhau.Model.JobState.{JobState, JobStateType}
use bacalhau.Model.Job.{Job, get_confidence}
use bacalhau.JobStore.InMemory.{new_job_store, create_job, update_job_state}
use bacalhau.JobStore.Executions.{create_execution, update_execution}
use bacalhau.JobStore.Queries.{get_job, get_job_state}
use bacalhau.JobStore.Filling.{fill, fill-Fills}
use bacalhau.JobStore.Invariant.{IsConsistent}
use bacalhau.JobStore.Terminal.{Shows}
use bacalhau.Compute.Bidder.{BidStrategyResponse}
use bacalhau.Requester.World.{Scheduler, World, Instant, NodeInfo, pos, VerifierResult}
use bacalhau.Requester.Messages.{Board}
use bacalhau.Requester.Bids.{
  update_and_notify_bid_accepted, in_state, answer_all, received_bids, active_executions,
  check_for_pending_bids,
}
use bacalhau.Requester.Completion.{
  completion_request, count_completed, check_for_completed_executions,
}
use bacalhau.Requester.Selection.{select_nodes}
use bacalhau.Requester.Retries.{last_failed, min_executions}
use bacalhau.Requester.Results.{update_and_notify_result_accepted, verify_executions, any_failed}
use bacalhau.Requester.Endpoint.{JobCreatePayload, new_job}
use bacalhau.Requester.Protocol.{Reaches}
use bacalhau.Requester.Protocol.Entries.{
  Entry, submits, asks, cancels_job, completes_bid, completes_run, completes_publish, enter_all,
  enter_all-Reaches, enter_all-IsConsistent, enter_all-terminal,
}
use bacalhau.Requester.Protocol.Lifecycle.{IsLifelike, enter_all-IsLifelike}

abbrev node : NodeInfo
node = record { peer_id = "node-a" }

-- Every result passes.
abbrev passes : ExecutionState → VerifierResult
passes e = record { execution_id = ExecutionState.id e; verified = true }

abbrev instant : ℕ → Instant
instant n = record {
  now = suc n;
  uuid = "0000-0001";
  reallocates = true;
  should_retry = λ id. false;
  find_nodes = λ job. ok (node ∷ []);
  rank_nodes = λ job nodes. ok (map (λ m. record { node_info = m; rank = pos 10 }) nodes);
  verify = λ v q. ok (map passes q.executions);
}

abbrev scheduler : Scheduler
scheduler = record {
  over_ask_for_bids_factor = 1;
  merge = fill;
  join = λ e m. m;
  text = λ e. "failed";
  sort = λ ns. ns;
}

abbrev payload : JobCreatePayload
payload = record {
  client_id = "client";
  api_version = "V1beta2";
  spec = record {
    verifier = "Noop";
    timeout = 60;
    inputs = [];
    annotations = [];
    deal = record { concurrency = 1; confidence = 0; min_bids = 0 };
  };
}

abbrev execution : ExecutionId
execution = record { job_id = "0000-0001"; node_id = "node-a"; execution_id = "e-0000-0001" }

abbrev selects : Job → Result String BidStrategyResponse
selects job = ok (record { should_bid = true; should_wait = false; reason = "" })

abbrev board : Board
board = record { store = new_job_store; notices = [] }

abbrev entries : List (World × Entry)
entries =
    (instant, submits [] selects payload)
    ∷ (instant, asks (new_job payload "0000-0001" 1) (record { node_info = node; rank = pos 10 }))
    ∷ (instant, completes_bid (record { execution_id = execution; accepted = true; reason = "" }))
    ∷ (
      instant,
      completes_run
          (record { execution_id = execution; result_proposal = []; run_command_result = none }),
    )
    ∷ (instant, completes_publish (record { execution_id = execution; publish_result = "ipfs" }))
    ∷ []

-- What is left of the entries, or the start.
unfoldable reached : List (World × Entry) → Board
reached es = elim (enter_all 2 scheduler board es) [ none ↦ board | some b ↦ b ]

ran : enter_all 2 scheduler board entries ≡ some (reached entries)
unfolding reached enter_all new_job_store create_job update_job_state create_execution
    update_execution get_job get_job_state fill Map.put Map.get Map.get_or ExecutionState.id
    ExecutionState.has_accepted_ask_for_bid ExecutionState.same in_state answer_all received_bids
    active_executions check_for_pending_bids count_completed check_for_completed_executions
    last_failed min_executions verify_executions any_failed select_nodes ExecutionState.is_active
    update_and_notify_bid_accepted update_and_notify_result_accepted
ran = refl

over : Shows (reached entries).store.states "0000-0001" JobStateType.completed 5
unfolding reached enter_all new_job_store create_job update_job_state create_execution
    update_execution get_job get_job_state fill Map.put Map.get Map.get_or ExecutionState.id
    ExecutionState.has_accepted_ask_for_bid ExecutionState.same in_state answer_all received_bids
    active_executions check_for_pending_bids count_completed check_for_completed_executions
    last_failed min_executions verify_executions any_failed select_nodes ExecutionState.is_active
    update_and_notify_bid_accepted update_and_notify_result_accepted completion_request
    get_confidence
over = (_, refl, refl, refl)

enter_all-Reaches_example : Reaches fill new_job_store (reached entries).store
enter_all-Reaches_example = enter_all-Reaches 2 scheduler board (reached entries) entries ran

reached-IsConsistent : IsConsistent (reached entries).store
reached-IsConsistent =
    enter_all-IsConsistent 2 scheduler fill-Fills board (reached entries) entries refl ran

enter_all-IsConsistent_example : IsConsistent (reached entries).store
enter_all-IsConsistent_example =
    enter_all-IsConsistent 2 scheduler fill-Fills board (reached entries) entries refl ran

enter_all-IsLifelike_example : IsLifelike (reached entries).store
enter_all-IsLifelike_example =
    enter_all-IsLifelike 2 scheduler fill-Fills board (reached entries) entries refl ran

-- The client cancels the completed job.
abbrev cancels : List (World × Entry)
cancels =
    (instant, cancels_job (record { job_id = "0000-0001"; reason = "late"; user_triggered = true }))
    ∷ []

abbrev after_cancel : Board
after_cancel = elim (enter_all 2 scheduler (reached entries) cancels) [ none ↦ board | some b ↦ b ]

cancel_ran : enter_all 2 scheduler (reached entries) cancels ≡ some after_cancel
unfolding enter_all
cancel_ran = refl

enter_all-terminal_example : Shows after_cancel.store.states "0000-0001" JobStateType.completed 5
unfolding JobState.is_terminal
enter_all-terminal_example =
    enter_all-terminal 2 scheduler fill-Fills (reached entries) after_cancel cancels "0000-0001"
      JobStateType.completed 5 reached-IsConsistent refl over cancel_ran
