-- ===== src/Compute/Stages/Requests.antt =====
-- Every request of the endpoint and every bid keeps the executions in their stages
-- (pkg/compute: endpoint.go, bidder.go).
use bacalhau.Base.{
  ℕ, ◌≡◌, refl, sym, ◌∙◌, subst, String, Option, none, some, Bool, true, false, inl, inr, ◌<>◌,
  Bool-cases, if◌then◌else◌, not, ◌&&◌,
}
use bacalhau.Base.Result.{ok, err, Result-cases}
use bacalhau.Compute.State.{Execution, ExecutionState, new_execution, is_terminal, is_executing}
use bacalhau.Compute.Store.{update_execution_state, create_execution, get_execution}
use bacalhau.Compute.Store.Invariant.{settle}
use bacalhau.Compute.Executor.{Node, send, request}
use bacalhau.Compute.Endpoint.{
  Executor, Answer, update_and_get, answered, then_call, bid_accepted, bid_rejected,
  result_accepted, result_rejected, mark_cancelled, cancel_execution,
}
use bacalhau.Compute.Bidder.{
  AskForBidRequest, Advice, BidStrategyResponse, do_bidding, respond, run_bidding,
}
use bacalhau.Compute.Stages.{IsStaged, IsNext, stages, ends_early, create_execution-IsStaged}
use bacalhau.Compute.Stages.Nodes.{granted-IsStaged}
use bacalhau.Model.ResourceUsage.{ResourceUsageData}

-- The executor queues what it is handed and leaves the store to its own goroutines.
pub record IsDeferred (x : Executor) : Type 0 where
  pub run_store : (n : Node) (e : Execution) → (x.run n e).0.store ≡ n.store
  pub publish_store : (n : Node) (e : Execution) → (x.publish n e).0.store ≡ n.store
  pub cancel_store : (n : Node) (e : Execution) → (x.cancel n e).0.store ≡ n.store

answered-store : (e : Execution) (p : Node × Option String) → (answered e p).0.store ≡ p.0.store
unfolding answered
answered-store e (n, none) = refl
answered-store e (n, some message) = refl

update_and_get-IsStaged :
    (n : Node) (id : String) (expected new_state : ExecutionState) (comment : String) (now : ℕ)
    → IsStaged n.store
    → IsNext (request id expected new_state comment)
    → IsStaged (update_and_get n id expected new_state comment now).0.store
unfolding update_and_get
update_and_get-IsStaged n id expected new_state comment now v next =
    let r = request id expected new_state comment in
    elim (Result-cases (update_execution_state n.store r now)) [
      | inl (x, refused) ↦ rw (refused, update_and_get) v
      | inr (d, granted) ↦
          let w = granted-IsStaged n.store d r now v next granted in
          elim (Result-cases (get_execution d id)) [
            | inl (x, missing) ↦ rw (granted, update_and_get, missing) w
            | inr (e, found) ↦ rw (granted, update_and_get, found) w
          ]
    ]

then_call-IsStaged :
    (a : Answer) (go : Node → Execution → Answer)
    → IsStaged a.0.store
    → ((n : Node) (e : Execution) → IsStaged n.store → IsStaged (go n e).0.store)
    → IsStaged (then_call a go).0.store
unfolding then_call
then_call-IsStaged (n, err r) go v keeps = v
then_call-IsStaged (n, ok e) go v keeps = keeps n e v

module _ (x : Executor) (deferred : IsDeferred x) where
  pub bid_accepted-IsStaged :
      (n : Node) (id : String) (now : ℕ)
      → IsStaged n.store
      → IsStaged (bid_accepted x n id now).0.store
  unfolding bid_accepted request stages ends_early
  bid_accepted-IsStaged n id now v =
      then_call-IsStaged _ _
        (update_and_get-IsStaged n id ExecutionState.created ExecutionState.bid_accepted "" now v
          (inr ((λ h. cc), refl, refl)))
        (λ m e w. subst IsStaged (sym (answered-store e (x.run m e) ∙ deferred.run_store m e)) w)

  pub result_accepted-IsStaged :
      (n : Node) (id : String) (now : ℕ)
      → IsStaged n.store
      → IsStaged (result_accepted x n id now).0.store
  unfolding result_accepted request stages ends_early
  result_accepted-IsStaged n id now v =
      then_call-IsStaged _ _
        (update_and_get-IsStaged n id ExecutionState.waiting_verification
          ExecutionState.result_accepted "" now v (inr ((λ h. cc), refl, refl)))
        (λ m e w.
          subst IsStaged (sym (answered-store e (x.publish m e) ∙ deferred.publish_store m e)) w)

pub bid_rejected-IsStaged :
    (n : Node) (id reason : String) (now : ℕ)
    → IsStaged n.store
    → IsStaged (bid_rejected n id reason now).0.store
unfolding bid_rejected request ends_early
bid_rejected-IsStaged n id reason now v =
    update_and_get-IsStaged n id ExecutionState.created ExecutionState.cancelled _ now v (inl refl)

pub result_rejected-IsStaged :
    (n : Node) (id reason : String) (now : ℕ)
    → IsStaged n.store
    → IsStaged (result_rejected n id reason now).0.store
unfolding result_rejected request ends_early
result_rejected-IsStaged n id reason now v =
    update_and_get-IsStaged n id ExecutionState.waiting_verification ExecutionState.failed _ now v
      (inl refl)

mark_cancelled-IsStaged :
    (n : Node) (e : Execution) (id reason : String) (now : ℕ)
    → IsStaged n.store
    → IsStaged (mark_cancelled n e id reason now).0.store
unfolding mark_cancelled request ends_early
mark_cancelled-IsStaged n e id reason now v =
    let r =
      request id ExecutionState.undefined ExecutionState.cancelled
        ("execution canceled due to: " <> reason) in
    elim (Result-cases (update_execution_state n.store r now)) [
      | inl (x, refused) ↦ rw (refused, mark_cancelled) v
      | inr (d, granted) ↦
          rw (granted, mark_cancelled) (granted-IsStaged n.store d r now v (inl refl) granted)
    ]

pub cancel_execution-IsStaged :
    (x : Executor)
    → IsDeferred x
    → (n : Node) (id reason : String) (now : ℕ) → IsStaged n.store
    → IsStaged (cancel_execution x n id reason now).0.store
unfolding cancel_execution
cancel_execution-IsStaged x deferred n id reason now v =
    elim (Result-cases (get_execution n.store id)) [
      | inl (r, missing) ↦ rw (missing, cancel_execution) v
      | inr (e, found) ↦ elim (Bool-cases (is_terminal e.state)) [
        | inl over ↦ rw (found, cancel_execution, over) v
        | inr live ↦ elim (Bool-cases (is_executing e.state)) [
          | inl executing ↦
              rw (found, cancel_execution, live, executing)
                (then_call-IsStaged (answered e (x.cancel n e)) _
                  (subst IsStaged
                    (sym (answered-store e (x.cancel n e) ∙ deferred.cancel_store n e)) v)
                  (λ m f w. mark_cancelled-IsStaged m f id reason now w))
          | inr waiting ↦
              rw (found, cancel_execution, live, waiting)
                (mark_cancelled-IsStaged n e id reason now v)
        ]
      ]
    ]

if-IsStaged :
    (b : Bool) (n m : Node)
    → IsStaged n.store
    → IsStaged m.store
    → IsStaged (if b then n else m).store
if-IsStaged true n m v w = v
if-IsStaged false n m v w = w

respond-IsStaged :
    (n : Node) (q : AskForBidRequest) (r : BidStrategyResponse) (usage : Option ResourceUsageData)
    (now later : ℕ)
    → IsStaged n.store
    → IsStaged (respond n q r usage now later).store
unfolding respond send
respond-IsStaged n q r none now later v =
    if-IsStaged (not r.should_bid && not r.should_wait) _ _ v v
respond-IsStaged n q r (some u) now later v =
    let x = new_execution q.execution_id q.job q.source_peer_id u now later in
    elim (Result-cases (create_execution n.store x)) [
      | inl (y, refused) ↦
          rw (refused, respond) (if-IsStaged (not r.should_bid && not r.should_wait) _ _ v v)
      | inr (d, created) ↦
          let w : IsStaged d =
            subst (λ z. IsStaged (settle n.store z)) created
              (create_execution-IsStaged n.store v x) in
          rw (created, respond)
            (if-IsStaged (not r.should_bid && not r.should_wait) _ _ v
              (if-IsStaged (not r.should_wait) _ _ w w))
    ]

pub run_bidding-IsStaged :
    (n : Node) (q : AskForBidRequest) (a : Advice) (now later : ℕ)
    → IsStaged n.store
    → IsStaged (run_bidding n q a now later).store
unfolding run_bidding send
run_bidding-IsStaged n q a now later v = elim (Result-cases (do_bidding a)) [
  | inl (message, failed) ↦ rw (failed, run_bidding) v
  | inr ((r, usage), given) ↦ rw (given, run_bidding) (respond-IsStaged n q r usage now later v)
]
