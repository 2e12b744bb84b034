-- ===== src/Requester/Bids.antt =====
-- The answers to pending bids (pkg/requester/scheduler_state.go, scheduler.go). The calls of the
-- compute nodes are the notices, in their order. Counts are of items in a slice, far below 2 ^ 63.
use bacalhau.Base.{
  ℕ, suc, ◌+◌, ◌-◌, ◌≤◌, ◌≡◌, List, [], ◌∷◌, ◌++◌, ltb, leb, arith, if◌then◌else◌, Bool-cases, inl,
  inr, ltb→lt,
}
use bacalhau.Base.Result.{Result-cases}
use bacalhau.Model.ExecutionState
use bacalhau.Model.ExecutionState.{
  ExecutionState, ExecutionStateType, ExecutionId, has_accepted_ask_for_bid, is_active,
}
use bacalhau.Model.JobState.{JobState}
use bacalhau.Model.Job.{Job}
use bacalhau.JobStore.Types.{UpdateExecutionRequest}
use bacalhau.JobStore.Executions.{Merge, update_execution}
use bacalhau.JobStore.Stop.{only_state}
use bacalhau.Requester.Messages.{Notice, accepts, rejects, Board, update_and_notify}

-- The update that an answer to a bid asks for.
unfoldable pub bid_request : ExecutionState → ExecutionStateType → UpdateExecutionRequest
unfolding only_state
bid_request e new_state = record {
  execution_id = ExecutionState.id e;
  condition = record {
    expected_state = e.state;
    expected_version = e.version;
    unexpected_states = [];
  };
  new_values = only_state new_state "";
  comment = "";
}

-- `executionsByState[state]`
unfoldable pub in_state : ExecutionStateType → List ExecutionState → List ExecutionState
in_state s [] = []
in_state s (e ∷ es) =
    let rest = in_state s es in if ExecutionState.same e.state s then e ∷ rest else rest

unfoldable pub received_bids : List ExecutionState → ℕ
received_bids [] = 0
received_bids (e ∷ es) =
    let rest = received_bids es in if has_accepted_ask_for_bid e then suc rest else rest

unfoldable pub active_executions : List ExecutionState → ℕ
active_executions [] = 0
active_executions (e ∷ es) =
    let rest = active_executions es in if is_active e.state then suc rest else rest

module _ (merge : Merge) where
  unfoldable pub update_and_notify_bid_accepted : Board → ExecutionState → ℕ → Board
  unfolding update_and_notify bid_request
  update_and_notify_bid_accepted b e now =
      update_and_notify merge b (bid_request e ExecutionStateType.bid_accepted) now
        (accepts (ExecutionState.id e))

  unfoldable pub update_and_notify_bid_rejected : Board → ExecutionState → ℕ → Board
  unfolding update_and_notify bid_request
  update_and_notify_bid_rejected b e now =
      update_and_notify merge b (bid_request e ExecutionStateType.bid_rejected) now
        (rejects (ExecutionState.id e))

  -- The loop over the candidates; `clock n` is the time of the n-th turn.
  unfoldable pub answer_all : Board → ℕ → ℕ → List ExecutionState → (ℕ → ℕ) → Board
  answer_all b concurrency active [] clock = b
  answer_all b concurrency active (e ∷ es) clock =
      let room = ltb active concurrency in
      answer_all
        (if room
          then update_and_notify_bid_accepted b e (clock 0)
          else update_and_notify_bid_rejected b e (clock 0))
        concurrency (if room then suc active else active) es (λ n. clock (suc n))

  -- `checkForPendingBids`
  unfoldable pub check_for_pending_bids : Board → Job → JobState → (ℕ → ℕ) → Board
  check_for_pending_bids b job s clock =
      if leb job.spec.deal.min_bids (received_bids s.executions)
      then answer_all b job.spec.deal.concurrency (active_executions s.executions)
          (in_state ExecutionStateType.ask_for_bid_accepted s.executions) clock
      else b

-- How many bids have been accepted.
unfoldable pub accepted : List Notice → ℕ
accepted [] = 0
accepted (n ∷ ns) = let rest = accepted ns in elim n [ accepts i ↦ suc rest | _ ↦ rest ]

accepted-append :
    (ns : List Notice) (n : Notice) → accepted (ns ++ n ∷ []) ≡ accepted ns + accepted (n ∷ [])
unfolding accepted
accepted-append [] n = omega arith
accepted-append (m ∷ ns) n = ground (arith, accepted-append ns n)

module _ (merge : Merge) where
  -- An update adds the notice it comes with, or nothing.
  notify_one :
      (b : Board) (r : UpdateExecutionRequest) (now : ℕ) (n : Notice)
      → accepted (update_and_notify merge b r now n).notices
        ≤ accepted b.notices + accepted (n ∷ [])
  unfolding update_and_notify
  notify_one b r now n = elim (Result-cases (update_execution merge b.store r now)) [
    | inl (x, refused) ↦ rw (refused, update_and_notify) (omega arith)
    | inr (d, granted) ↦
        rw (granted, update_and_notify) (omega (arith, accepted-append b.notices n))
  ]

  accept_one :
      (b : Board) (e : ExecutionState) (now : ℕ)
      → accepted (update_and_notify_bid_accepted merge b e now).notices ≤ suc (accepted b.notices)
  unfolding accepted update_and_notify_bid_accepted
  accept_one b e now = omega (arith, notify_one b _ now (accepts (ExecutionState.id e)))

  reject_one :
      (b : Board) (e : ExecutionState) (now : ℕ)
      → accepted (update_and_notify_bid_rejected merge b e now).notices ≤ accepted b.notices
  unfolding accepted update_and_notify_bid_rejected
  reject_one b e now = omega (arith, notify_one b _ now (rejects (ExecutionState.id e)))

  answer_all_bound :
      (b : Board) (concurrency active : ℕ) (es : List ExecutionState) (clock : ℕ → ℕ)
      → accepted (answer_all merge b concurrency active es clock).notices
        ≤ accepted b.notices + (concurrency - active)
  unfolding answer_all
  answer_all_bound b c a [] clock = omega arith
  answer_all_bound b c a (e ∷ es) clock = elim (Bool-cases (ltb a c)) [
    | inl room ↦
        let l = ltb→lt a c room in
        let one = accept_one b e (clock 0) in
        let rest =
          answer_all_bound (update_and_notify_bid_accepted merge b e (clock 0)) c (suc a) es
            (λ n. clock (suc n)) in
        rw (answer_all, room) (omega (arith, one, rest, l))
    | inr full ↦
        let one = reject_one b e (clock 0) in
        let rest =
          answer_all_bound (update_and_notify_bid_rejected merge b e (clock 0)) c a es
            (λ n. clock (suc n)) in
        rw (answer_all, full) (omega (arith, one, rest))
  ]

  -- A check of the pending bids accepts at most as many bids as the concurrency leaves beside the
  -- executions that are active in the state it was given.
  pub check_for_pending_bids_bound :
      (b : Board) (job : Job) (s : JobState) (clock : ℕ → ℕ)
      → accepted (check_for_pending_bids merge b job s clock).notices
        ≤ accepted b.notices + (job.spec.deal.concurrency - active_executions s.executions)
  unfolding check_for_pending_bids
  check_for_pending_bids_bound b job s clock =
      elim (Bool-cases (leb job.spec.deal.min_bids (received_bids s.executions))) [
        | inl enough ↦ rw enough (
            answer_all_bound b job.spec.deal.concurrency (active_executions s.executions)
              (in_state ExecutionStateType.ask_for_bid_accepted s.executions) clock)
        | inr few ↦ rw few (omega arith)
      ]
