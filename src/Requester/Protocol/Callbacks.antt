-- ===== src/Requester/Protocol/Callbacks.antt =====
-- The callbacks of the compute nodes, as orderly calls of the job store
-- (pkg/requester/scheduler.go).
use bacalhau.Base.{ℕ, ◌≡◌, refl, sym, subst, String, inl, inr, Bool-cases}
use bacalhau.Base.Result.{Result-cases}
use bacalhau.Model.ExecutionState.{ExecutionId}
use bacalhau.JobStore.Types.{UpdateExecutionRequest}
use bacalhau.JobStore.Executions.{update_execution}
use bacalhau.JobStore.Invariant.Updates.{KeepsId}
use bacalhau.Requester.World.{Scheduler, World, late}
use bacalhau.Requester.Messages.{
  Board, send, with_store, emits, run_complete, publish_complete, compute_failure,
}
use bacalhau.Requester.Callbacks.{
  Report, of_bid, of_run, of_publish, of_failure, update_and_emit, emit_bid, report, BidResult,
  RunResult, PublishResult, update_then_transition, on_bid_complete, on_run_complete,
  on_publish_complete, handle_execution_failure, bid_update, run_update, publish_update,
  failure_update,
}
use bacalhau.Requester.Protocol.{IsOrderly, Moves, Reaches, stays, granted_update}
use bacalhau.Requester.Protocol.Requests.{
  bid_update-Moves, bid_update-KeepsId, run_update-Moves, run_update-KeepsId, publish_update-Moves,
  publish_update-KeepsId, failure_update-Moves, failure_update-KeepsId,
}
use bacalhau.Requester.Protocol.Transitions.{After, then-After, quiet-After, transition-Advances}

-- The events are not in the store.
silent_bid : (r : BidResult) (c : Board) → (emit_bid r c).store ≡ c.store
silent_bid r c = elim (Bool-cases r.accepted) [ inl a ↦ rw a refl | inr a ↦ rw a refl ]

module _ (s : Scheduler) where
  update_and_emit-Reaches :
      (w : World) (b : Board) (r : UpdateExecutionRequest) (emit : Board → Board)
      → KeepsId r
      → Moves r
      → ((c : Board) → (emit c).store ≡ c.store)
      → Reaches s.merge b.store (update_and_emit s w b r emit).store
  unfolding update_and_emit
  update_and_emit-Reaches w b r emit k m silent =
      elim (Result-cases (update_execution s.merge b.store r (w 0).now)) [
        | inl (e, refused) ↦ rw (refused, update_and_emit) (stays IsOrderly s.merge b.store)
        | inr (d, granted) ↦
            rw (granted, update_and_emit)
              (subst (Reaches s.merge b.store) (sym (silent (with_store b d)))
                (granted_update IsOrderly s.merge b.store d r (w 0).now (k, m) granted))
      ]

  pub report-Reaches :
      (w : World) (b : Board) (r : Report) → Reaches s.merge b.store (report s w b r).store
  unfolding report
  report-Reaches w b (of_bid r) =
      update_and_emit-Reaches w b (bid_update r) (emit_bid r) (bid_update-KeepsId r)
        (bid_update-Moves r) (silent_bid r)
  report-Reaches w b (of_run r) =
      update_and_emit-Reaches w (send b (emits (run_complete r.execution_id))) (run_update r)
        (λ c. c) (run_update-KeepsId r) (run_update-Moves r) (λ c. refl)
  report-Reaches w b (of_publish r) =
      update_and_emit-Reaches w (send b (emits (publish_complete r.execution_id)))
        (publish_update r) (λ c. c) (publish_update-KeepsId r) (publish_update-Moves r) (λ c. refl)
  report-Reaches w b (of_failure i m) =
      update_and_emit-Reaches w b (failure_update i m) (λ c. send c (emits (compute_failure i m)))
        (failure_update-KeepsId i m) (failure_update-Moves i m) (λ c. refl)

module _ (fuel : ℕ) (s : Scheduler) where
  update_then_transition-Reaches :
      (w : World) (b : Board) (r : UpdateExecutionRequest) (emit : Board → Board)
      → KeepsId r
      → Moves r
      → ((c : Board) → (emit c).store ≡ c.store)
      → After IsOrderly s b (update_then_transition fuel s w b r emit)
  unfolding update_then_transition
  update_then_transition-Reaches w b r emit k m silent =
      elim (Result-cases (update_execution s.merge b.store r (w 0).now)) [
        | inl (e, refused) ↦ rw (refused, update_then_transition) (stays IsOrderly s.merge b.store)
        | inr (d, granted) ↦
            let c = emit (with_store b d) in
            let one = granted_update IsOrderly s.merge b.store d r (w 0).now (k, m) granted in
            rw (granted, update_then_transition)
              (then-After IsOrderly s b c _ (subst (Reaches s.merge b.store) (sym (silent _)) one)
                (quiet-After s c _ (transition-Advances s fuel (late w) c r.execution_id.job_id)))
      ]

  pub on_bid_complete-Reaches :
      (w : World) (b : Board) (r : BidResult) → After IsOrderly s b (on_bid_complete fuel s w b r)
  unfolding on_bid_complete
  on_bid_complete-Reaches w b r =
      update_then_transition-Reaches w b (bid_update r) (emit_bid r) (bid_update-KeepsId r)
        (bid_update-Moves r) (silent_bid r)

  pub on_run_complete-Reaches :
      (w : World) (b : Board) (r : RunResult) → After IsOrderly s b (on_run_complete fuel s w b r)
  unfolding on_run_complete
  on_run_complete-Reaches w b r =
      update_then_transition-Reaches w _ (run_update r) (λ c. c) (run_update-KeepsId r)
        (run_update-Moves r) (λ c. refl)

  pub on_publish_complete-Reaches :
      (w : World) (b : Board) (r : PublishResult)
      → After IsOrderly s b (on_publish_complete fuel s w b r)
  unfolding on_publish_complete
  on_publish_complete-Reaches w b r =
      update_then_transition-Reaches w _ (publish_update r) (λ c. c) (publish_update-KeepsId r)
        (publish_update-Moves r) (λ c. refl)

  pub handle_execution_failure-Reaches :
      (w : World) (b : Board) (i : ExecutionId) (m : String)
      → After IsOrderly s b (handle_execution_failure fuel s w b i m)
  unfolding handle_execution_failure
  handle_execution_failure-Reaches w b i m =
      update_then_transition-Reaches w b (failure_update i m)
        (λ c. send c (emits (compute_failure i m))) (failure_update-KeepsId i m)
        (failure_update-Moves i m) (λ c. refl)
