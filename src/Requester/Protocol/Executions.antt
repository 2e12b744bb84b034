-- ===== src/Requester/Protocol/Executions.antt =====
-- The scheduler's operations on executions, as orderly calls of the job store (pkg/requester:
-- scheduler.go, scheduler_state.go; pkg/jobstore/utils.go).
use bacalhau.Base.{
  ℕ, suc, ◌≡◌, refl, sym, subst, String, Bool, true, false, List, [], ◌∷◌, All, inl, inr,
  Bool-cases, ltb, leb,
}
use bacalhau.Base.Result.{Result-cases}
use bacalhau.Model.ExecutionState
use bacalhau.Model.ExecutionState.{ExecutionState, ExecutionStateType, same_iff}
use bacalhau.Model.JobState.{JobState}
use bacalhau.Model.Job.{Job}
use bacalhau.Model.Job
use bacalhau.JobStore.Types.{UpdateExecutionRequest}
use bacalhau.JobStore.InMemory.{JobStore, update_job_state}
use bacalhau.JobStore.Executions.{Merge, update_execution, create_execution}
use bacalhau.JobStore.Queries.{get_job_state}
use bacalhau.JobStore.Stop.{stop_job, cancel_all, cancel_request, stop_request, only_state}
use bacalhau.JobStore.Invariant.Updates.{KeepsId}
use bacalhau.Requester.World.{Scheduler, World, NodeRank, VerifierResult, clock}
use bacalhau.Requester.Messages.{
  Notice, Board, send, with_store, update_and_notify, asks_for_bid, accepts, rejects, cancels,
}
use bacalhau.Requester.Bids.{
  in_state, bid_request, answer_all, check_for_pending_bids, received_bids, active_executions,
  update_and_notify_bid_accepted, update_and_notify_bid_rejected,
}
use bacalhau.Requester.Stopping.{stop, notify_cancels}
use bacalhau.Requester.Retries.{notify_ask_for_bid, asked}
use bacalhau.Requester.Results.{
  verify_executions, update_and_notify_result_accepted, update_and_notify_result_rejected,
}
use bacalhau.Requester.Protocol.{
  IsQuiet, Moves, Advances, stays, then_reaches, granted_update, granted_creation,
  granted_job_update, follows,
}
use bacalhau.Requester.Protocol.Requests.{
  bid_request-Moves, bid_request-KeepsId, verdict_request-Moves, verdict_request-KeepsId,
  cancel_request-Moves, cancel_request-KeepsId,
}

-- Every execution that `executionsByState[s]` holds is in that state.
pub InState-in_state :
    (s : ExecutionStateType) (es : List ExecutionState) → All (λ e. e.state ≡ s) (in_state s es)
unfolding in_state
InState-in_state s [] = tt
InState-in_state s (e ∷ es) = elim (Bool-cases (ExecutionState.same e.state s)) [
  | inl here ↦ rw here ((same_iff e.state s).0 here, InState-in_state s es)
  | inr other ↦ rw other (InState-in_state s es)
]

asked_state :
    (job_id node_id uuid : String)
    → (asked job_id node_id uuid).state ≡ ExecutionStateType.ask_for_bid
unfolding asked only_state
asked_state job_id node_id uuid = refl

module _ (merge : Merge) where
  pub update_and_notify-Advances :
      (b : Board) (r : UpdateExecutionRequest) (now : ℕ) (n : Notice)
      → KeepsId r
      → Moves r
      → ExecutionState.same r.new_values.state ExecutionStateType.result_proposed ≡ false
      → Advances merge b.store (update_and_notify merge b r now n).store
  unfolding update_and_notify
  update_and_notify-Advances b r now n k m calm =
      elim (Result-cases (update_execution merge b.store r now)) [
        | inl (e, refused) ↦ rw (refused, update_and_notify) (stays IsQuiet merge b.store)
        | inr (d, granted) ↦
            rw (granted, update_and_notify)
              (granted_update IsQuiet merge b.store d r now ((k, m), calm) granted)
      ]

  pub answer_all-Advances :
      (b : Board) (concurrency active : ℕ) (es : List ExecutionState) (clock : ℕ → ℕ)
      → All (λ e. e.state ≡ ExecutionStateType.ask_for_bid_accepted) es
      → Advances merge b.store (answer_all merge b concurrency active es clock).store
  unfolding answer_all update_and_notify_bid_accepted update_and_notify_bid_rejected follows
      ExecutionState.same
  answer_all-Advances b c a [] clock here = stays IsQuiet merge b.store
  answer_all-Advances b c a (e ∷ es) clock here = elim (Bool-cases (ltb a c)) [
    | inl room ↦
        let b' = update_and_notify_bid_accepted merge b e (clock 0) in
        let one : Advances merge b.store b'.store =
          update_and_notify-Advances b (bid_request e ExecutionStateType.bid_accepted) (clock 0)
            (accepts (ExecutionState.id e)) (bid_request-KeepsId e _)
            (bid_request-Moves e _ here.0 refl) refl in
        rw (room, answer_all)
          (then_reaches IsQuiet merge b.store b'.store _ one
            (answer_all-Advances b' c (suc a) es (λ n. clock (suc n)) here.1))
    | inr full ↦
        let b' = update_and_notify_bid_rejected merge b e (clock 0) in
        let one : Advances merge b.store b'.store =
          update_and_notify-Advances b (bid_request e ExecutionStateType.bid_rejected) (clock 0)
            (rejects (ExecutionState.id e)) (bid_request-KeepsId e _)
            (bid_request-Moves e _ here.0 refl) refl in
        rw (full, answer_all)
          (then_reaches IsQuiet merge b.store b'.store _ one
            (answer_all-Advances b' c a es (λ n. clock (suc n)) here.1))
  ]

  pub check_for_pending_bids-Advances :
      (b : Board) (job : Job) (s : JobState) (clock : ℕ → ℕ)
      → Advances merge b.store (check_for_pending_bids merge b job s clock).store
  unfolding check_for_pending_bids
  check_for_pending_bids-Advances b job s clock =
      elim (Bool-cases (leb job.spec.deal.min_bids (received_bids s.executions))) [
        | inl enough ↦ rw enough (
            answer_all-Advances b job.spec.deal.concurrency (active_executions s.executions)
              (in_state ExecutionStateType.ask_for_bid_accepted s.executions) clock
              (InState-in_state _ s.executions))
        | inr few ↦ rw few (stays IsQuiet merge b.store)
      ]

  pub cancel_all-Advances :
      (d : JobStore) (es : List ExecutionState) (reason : String) (clock : ℕ → ℕ)
      → Advances merge d (cancel_all merge d es reason clock).0
  unfolding cancel_all
  cancel_all-Advances d [] reason clock = stays IsQuiet merge d
  cancel_all-Advances d (e ∷ es) reason clock =
      elim (Bool-cases (ExecutionState.is_terminal e.state)) [
        | inl over ↦ rw (over, cancel_all) (cancel_all-Advances d es reason (λ n. clock (suc n)))
        | inr live ↦
            elim (Result-cases (update_execution merge d (cancel_request e reason) (clock 0))) [
              | inl (x, refused) ↦
                  rw (live, cancel_all, refused)
                    (cancel_all-Advances d es reason (λ n. clock (suc n)))
              | inr (d', granted) ↦
                  rw (live, cancel_all, granted)
                    (then_reaches IsQuiet merge d d' _
                      (granted_update IsQuiet merge d d' (cancel_request e reason) (clock 0)
                        ((cancel_request-KeepsId e reason, cancel_request-Moves e reason), refl)
                        granted)
                      (cancel_all-Advances d' es reason (λ n. clock (suc n))))
            ]
      ]

  pub stop_job-Advances :
      (d : JobStore) (id reason : String) (user : Bool) (clock : ℕ → ℕ)
      → Advances merge d (stop_job merge d id reason user clock).0
  unfolding stop_job
  stop_job-Advances d id reason user clock =
      elim (Result-cases (update_job_state d (stop_request id reason user) (clock 0))) [
        | inl (x, refused) ↦ rw (refused, stop_job) (stays IsQuiet merge d)
        | inr (d', granted) ↦
            let one =
              granted_job_update IsQuiet merge d d' (stop_request id reason user) (clock 0) (tt, tt)
                granted in
            elim (Result-cases (get_job_state d' id)) [
              | inl (x, missing) ↦ rw (granted, stop_job, missing) one
              | inr (s, found) ↦
                  rw (granted, stop_job, found)
                    (then_reaches IsQuiet merge d d' _ one
                      (cancel_all-Advances d' s.executions reason (λ n. clock (suc n))))
            ]
      ]

  pub verify_executions-Advances :
      (w : World) (b : Board) (rs : List VerifierResult)
      → Advances merge b.store (verify_executions merge w b rs).0.store
  unfolding verify_executions update_and_notify_result_accepted update_and_notify_result_rejected
      follows ExecutionState.same
  verify_executions-Advances w b [] = stays IsQuiet merge b.store
  verify_executions-Advances w b (r ∷ rs) = elim (Bool-cases r.verified) [
    | inl passed ↦
        let b' = update_and_notify_result_accepted merge b r (w 0).now in
        let one : Advances merge b.store b'.store =
          update_and_notify-Advances b _ (w 0).now _ (verdict_request-KeepsId r.execution_id _ true)
            (verdict_request-Moves r.execution_id _ true refl) refl in
        rw (passed, verify_executions)
          (then_reaches IsQuiet merge b.store b'.store _ one
            (verify_executions-Advances (λ i. w (suc i)) b' rs))
    | inr failed ↦
        let b' = update_and_notify_result_rejected merge b r (w 0).now in
        let one : Advances merge b.store b'.store =
          update_and_notify-Advances b _ (w 0).now _
            (verdict_request-KeepsId r.execution_id _ false)
            (verdict_request-Moves r.execution_id _ false refl) refl in
        rw (failed, verify_executions)
          (then_reaches IsQuiet merge b.store b'.store _ one
            (verify_executions-Advances (λ i. w (suc i)) b' rs))
  ]

  pub notify_ask_for_bid-Advances :
      (w : World) (b : Board) (job : Job) (ns : List NodeRank)
      → Advances merge b.store (notify_ask_for_bid w b job ns).store
  unfolding notify_ask_for_bid
  notify_ask_for_bid-Advances w b job [] = stays IsQuiet merge b.store
  notify_ask_for_bid-Advances w b job (n ∷ ns) =
      let e = asked (Job.id job) n.node_info.peer_id (w 0).uuid in
      elim (Result-cases (create_execution b.store e (w 0).now)) [
        | inl (x, refused) ↦ rw (refused, notify_ask_for_bid) (stays IsQuiet merge b.store)
        | inr (d, granted) ↦
            rw (granted, notify_ask_for_bid)
              (then_reaches IsQuiet merge b.store d _
                (granted_creation IsQuiet merge b.store d e (w 0).now
                  (asked_state (Job.id job) n.node_info.peer_id (w 0).uuid, tt) granted)
                (notify_ask_for_bid-Advances (λ i. w (suc i))
                  (send (with_store b d) (asks_for_bid (ExecutionState.id e))) job ns))
      ]

pub notify_cancels-store :
    (b : Board) (reason : String) (es : List ExecutionState)
    → (notify_cancels b reason es).store ≡ b.store
unfolding notify_cancels
notify_cancels-store b reason [] = refl
notify_cancels-store b reason (e ∷ es) =
    notify_cancels-store (send b (cancels (ExecutionState.id e) reason)) reason es

-- The notices leave the store as the stop of the job left it.
pub stop-store :
    (s : Scheduler) (w : World) (b : Board) (id reason : String) (user : Bool)
    → (stop s w b id reason user).store ≡ (stop_job s.merge b.store id reason user (clock w)).0
unfolding stop
stop-store s w b id reason user =
    elim (Result-cases (stop_job s.merge b.store id reason user (clock w)).1) [
      | inl (x, refused) ↦ rw refused refl
      | inr (es, stopped) ↦ rw stopped (notify_cancels-store _ reason es)
    ]

pub stop-Advances :
    (s : Scheduler) (w : World) (b : Board) (id reason : String) (user : Bool)
    → Advances s.merge b.store (stop s w b id reason user).store
stop-Advances s w b id reason user =
    subst (Advances s.merge b.store) (sym (stop-store s w b id reason user))
      (stop_job-Advances s.merge b.store id reason user (clock w))
