-- ===== src/Compute/Stages/Nodes.antt =====
-- Every request of the endpoint and every step of the executor and the bidder keeps the executions in
-- their stages (pkg/compute: endpoint.go, executor.go, bidder.go).
use bacalhau.Base.{
  ℕ, ◌≡◌, refl, sym, subst, String, [], ◌∷◌, Option, none, some, false, inl, inr, Option-cases, ◌≢◌,
  ◌++◌,
}
use bacalhau.Base.Map
use bacalhau.Base.Result.{Result, ok, err, Result-cases}
use bacalhau.Compute.State.{Execution, ExecutionState, Error, UpdateExecutionStateRequest}
use bacalhau.Compute.Store.{Store, update_execution_state}
use bacalhau.Compute.Store.Invariant.{settle}
use bacalhau.Compute.Executor.{
  Node, send, request, call_canceller, handle_failure, advance, start_run, finish_run, end_on_error,
  report_run, report_publish, start_publish, finish_publish, cancel,
}
use bacalhau.Compute.Stages.{IsStaged, IsNext, stages, ends_early, update_execution_state-IsStaged}

-- The node that a step ends with, whether it goes on or not.
abbrev pub node : Result Node Node → Node
node (ok n) = n
node (err n) = n

call_canceller-store : (n : Node) (id : String) → (call_canceller n id).store ≡ n.store
unfolding call_canceller
call_canceller-store n id = elim (Option-cases (Map.get n.cancellers id)) [
  | inl missing ↦ rw (missing, call_canceller) refl
  | inr (x, there) ↦ rw (there, call_canceller) refl
]

-- The executor's requests ask for the next stage.
request-IsNext :
    (id : String) (expected new_state : ExecutionState)
    → expected ≢ ExecutionState.undefined
    → ends_early new_state ≡ false
    → stages new_state ≡ stages expected ++ new_state ∷ []
    → IsNext (request id expected new_state "")
unfolding request
request-IsNext id expected new_state expects on e = inr (expects, on, e)

-- A granted request leads to a store whose executions are in their stages.
pub granted-IsStaged :
    (d d' : Store) (r : UpdateExecutionStateRequest) (now : ℕ)
    → IsStaged d
    → IsNext r
    → update_execution_state d r now ≡ ok d'
    → IsStaged d'
granted-IsStaged d d' r now v next granted =
    subst (λ z. IsStaged (settle d z)) granted (update_execution_state-IsStaged d v r now next)

module _ (text : Error → String) where
  handle_failure-IsStaged :
      (n : Node) (e : Execution) (message : String) (now : ℕ)
      → IsStaged n.store
      → IsStaged (handle_failure text n e message now).store
  unfolding handle_failure send request ends_early
  handle_failure-IsStaged n e message now v =
      let r = request e.id ExecutionState.undefined ExecutionState.failed message in
      elim (Result-cases (update_execution_state n.store r now)) [
        | inl (x, refused) ↦ rw (refused, handle_failure) v
        | inr (d, granted) ↦
            rw (granted, handle_failure) (granted-IsStaged n.store d r now v (inl refl) granted)
      ]

  advance-IsStaged :
      (n : Node) (e : Execution) (expected new_state : ExecutionState) (now : ℕ)
      → IsStaged n.store
      → IsNext (request e.id expected new_state "")
      → IsStaged (node (advance text n e expected new_state now)).store
  unfolding advance
  advance-IsStaged n e expected new_state now v next =
      let r = request e.id expected new_state "" in
      elim (Result-cases (update_execution_state n.store r now)) [
        | inl (x, refused) ↦ rw (refused, advance) (handle_failure-IsStaged n e (text x) now v)
        | inr (d, granted) ↦ rw (granted, advance) (granted-IsStaged n.store d r now v next granted)
      ]

  end_on_error-store :
      (e : Execution) (r : Result Node Node) → (node (end_on_error text e r)).store ≡ (node r).store
  unfolding end_on_error
  end_on_error-store e (err m) = call_canceller-store m e.id
  end_on_error-store e (ok m) = refl

  pub start_run-IsStaged :
      (n : Node) (e : Execution) (now : ℕ)
      → IsStaged n.store
      → IsStaged (node (start_run text n e now)).store
  unfolding start_run stages ends_early
  start_run-IsStaged n e now v =
      let m : Node = record n { cancellers = Map.put n.cancellers e.id tt } in
      subst IsStaged
        (sym (
          end_on_error-store e
            (advance text m e ExecutionState.bid_accepted ExecutionState.running now)))
        (advance-IsStaged m e ExecutionState.bid_accepted ExecutionState.running now v (
          request-IsNext e.id ExecutionState.bid_accepted ExecutionState.running (λ h. cc) refl
            refl))

  report_run-store :
      (e : Execution) (proposal : String) (r : Result Node Node)
      → (report_run text e proposal r).store ≡ (node r).store
  unfolding report_run send
  report_run-store e proposal (err m) = call_canceller-store m e.id
  report_run-store e proposal (ok m) = call_canceller-store _ e.id

  pub finish_run-IsStaged :
      (n : Node) (e : Execution) (outcome : Result String String) (now : ℕ)
      → IsStaged n.store
      → IsStaged (finish_run text n e outcome now).store
  unfolding finish_run stages ends_early
  finish_run-IsStaged n e (err message) now v =
      subst IsStaged (sym (call_canceller-store _ e.id)) (handle_failure-IsStaged n e message now v)
  finish_run-IsStaged n e (ok proposal) now v =
      subst IsStaged (sym (report_run-store e proposal _)) (
        advance-IsStaged n e ExecutionState.running ExecutionState.waiting_verification now v (
          request-IsNext e.id ExecutionState.running ExecutionState.waiting_verification (λ h. cc)
            refl refl))

  pub start_publish-IsStaged :
      (n : Node) (e : Execution) (now : ℕ)
      → IsStaged n.store
      → IsStaged (node (start_publish text n e now)).store
  unfolding start_publish stages ends_early
  start_publish-IsStaged n e now v =
      advance-IsStaged n e ExecutionState.result_accepted ExecutionState.publishing now v (
        request-IsNext e.id ExecutionState.result_accepted ExecutionState.publishing (λ h. cc) refl
          refl)

  report_publish-IsStaged :
      (e : Execution) (published : String) (removed : Option String) (now : ℕ)
      (r : Result Node Node)
      → IsStaged (node r).store
      → IsStaged (report_publish text e published removed now r).store
  unfolding report_publish send
  report_publish-IsStaged e published removed now (err m) v = v
  report_publish-IsStaged e published none now (ok m) v = v
  report_publish-IsStaged e published (some message) now (ok m) v =
      handle_failure-IsStaged _ e message now v

  pub finish_publish-IsStaged :
      (n : Node) (e : Execution) (outcome : Result String String) (removed : Option String)
      (now : ℕ)
      → IsStaged n.store
      → IsStaged (finish_publish text n e outcome removed now).store
  unfolding finish_publish stages ends_early
  finish_publish-IsStaged n e (err message) removed now v =
      handle_failure-IsStaged n e message now v
  finish_publish-IsStaged n e (ok published) removed now v =
      report_publish-IsStaged e published removed now
        (advance text n e ExecutionState.publishing ExecutionState.completed now)
        (advance-IsStaged n e ExecutionState.publishing ExecutionState.completed now v (
          request-IsNext e.id ExecutionState.publishing ExecutionState.completed (λ h. cc) refl
            refl))

pub cancel-store : (n : Node) (e : Execution) → (cancel n e).store ≡ n.store
unfolding cancel send
cancel-store n e = call_canceller-store n e.id
