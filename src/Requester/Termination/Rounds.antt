-- ===== src/Requester/Termination/Rounds.antt =====
-- A round of the transition of a job (pkg/requester/scheduler_state.go).
use bacalhau.Base.{
  ℕ, suc, ◌≤◌, ◌<◌, ◌≡◌, refl, sym, subst, inl, inr, String, Bool, true, false, List, ◌∷◌, some,
  arith, Bool-cases, if◌then◌else◌,
}
use bacalhau.Base.Map
use bacalhau.Base.Result.{ok}
use bacalhau.Model.ExecutionState.{ExecutionState, ExecutionStateType, ExecutionId, same}
use bacalhau.Model.JobState.{JobState}
use bacalhau.JobStore.InMemory.{JobStore}
use bacalhau.JobStore.Executions.{Merge, find_execution, update_execution}
use bacalhau.JobStore.Stop.{only_state}
use bacalhau.JobStore.Merge.{Fills}
use bacalhau.JobStore.Invariant.{IsConsistent}
use bacalhau.Requester.World.{World, VerifierResult}
use bacalhau.Requester.Messages.{Board, update_and_notify, Notice, accepts_result, rejects_result}
use bacalhau.Requester.Results.{
  verify_executions, update_and_notify_result_accepted, update_and_notify_result_rejected,
  verdict_request,
}
use bacalhau.Requester.Protocol.{Advances, follows}
use bacalhau.Requester.Protocol.Requests.{verdict_request-KeepsId, verdict_request-Moves}
use bacalhau.Requester.Protocol.Executions.{update_and_notify-Advances, verify_executions-Advances}
use bacalhau.Requester.Termination.Shrinks.{Shrinks-count, proposals, is_proposed}
use bacalhau.Requester.Termination.Calls.{advances_lem}
use bacalhau.Requester.Termination.Verdicts.{left, verdict_granted}

either : (P : Board → Type 0) (v : Bool) (a c : Board) → P a → P c → P (if v then a else c)
either P true a c p q = p
either P false a c p q = q

pub left-known :
    (d : JobStore) (k : String) (s : JobState)
    → Map.get d.states k ≡ some s
    → left d k ≡ proposals s.executions
unfolding left
left-known d k s h = rw (h, left) refl

module _ (merge : Merge) (fills : Fills merge) where
  -- Quiet calls leave no more proposals.
  pub left_mono :
      (d d' : JobStore) (k : String) (s : JobState)
      → IsConsistent d
      → Advances merge d d'
      → Map.get d.states k ≡ some s
      → left d' k ≤ proposals s.executions
  left_mono d d' k s v a found =
      let (v', shrunk) = advances_lem merge fills k d d' v a in
      let (t, there, less) = shrunk s found in
      omega (arith, left-known d' k t there, Shrinks-count less)

  -- An update that is granted leads to the store that is granted.
  notified-store :
      (b : Board) (i : ExecutionId) (t : ExecutionStateType) (passed : Bool) (now : ℕ) (n : Notice)
      (d : JobStore)
      → update_execution merge b.store (verdict_request i t passed) now ≡ ok d
      → (update_and_notify merge b (verdict_request i t passed) now n).store ≡ d
  unfolding update_and_notify
  notified-store b i t passed now n d h = rw (h, update_and_notify) refl

  -- What is known of a key once its proposals are fewer.
  abbrev pub Below : Board → String → ℕ → Type 0
  Below b k bound =
      IsConsistent b.store
      × ((t : JobState) × (Map.get b.store.states k ≡ some t))
      × (left b.store k < bound)

  after_verdict :
      (b : Board) (i : ExecutionId) (to : ExecutionStateType) (passed : Bool) (now : ℕ)
      (notice : Notice) (s : JobState) (n : ℕ) (x : ExecutionState)
      → IsConsistent b.store
      → Map.get b.store.states i.job_id ≡ some s
      → find_execution i s.executions ≡ some (n, x)
      → is_proposed x ≡ true
      → follows ExecutionStateType.result_proposed to ≡ true
      → same to ExecutionStateType.result_proposed ≡ false
      → Below
          (update_and_notify merge b (verdict_request i to passed) now notice)
          i.job_id
          (proposals s.executions)
  unfolding verdict_request only_state
  after_verdict b i to passed now notice s n x v stored there proposed next calm =
      let r = verdict_request i to passed in
      let c = update_and_notify merge b r now notice in
      let (d, granted, less) =
        verdict_granted merge fills b.store i to passed now s n x stored there proposed next in
      let a =
        update_and_notify-Advances merge b r now notice (verdict_request-KeepsId i to passed)
          (verdict_request-Moves i to passed next) calm in
      let (v', shrunk) = advances_lem merge fills i.job_id b.store c.store v a in
      let (t, known, _) = shrunk s stored in
      (
        v',
        (t, known),
        subst (λ e. left e i.job_id < proposals s.executions)
            (sym (notified-store b i to passed now notice d granted)) less,
      )

  rest-Below :
      (w : World) (b : Board) (k : String) (bound : ℕ) (rs : List VerifierResult)
      → Below b k bound
      → Below (verify_executions merge w b rs).0 k bound
  rest-Below w b k bound rs (v, (t, known), less) =
      let c = (verify_executions merge w b rs).0 in
      let a = verify_executions-Advances merge w b rs in
      let (v', shrunk) = advances_lem merge fills k b.store c.store v a in
      let (u, there, _) = shrunk t known in
      (
        v',
        (u, there),
        omega (arith, less, left-known b.store k t known, left_mono b.store c.store k t v a known),
      )

  -- The state after a first verdict and the rest.
  verify_cons :
      (w : World) (b : Board) (r : VerifierResult) (rs : List VerifierResult)
      → (verify_executions merge w b (r ∷ rs)).0
        ≡ (verify_executions merge
            (λ j. w (suc j))
            (if r.verified
              then update_and_notify_result_accepted merge b r (w 0).now
              else update_and_notify_result_rejected merge b r (w 0).now)
            rs).0
  unfolding verify_executions
  verify_cons w b r rs = elim (Bool-cases r.verified) [
    | inl passed ↦ rw (passed, verify_executions) refl
    | inr failed ↦ rw (failed, verify_executions) refl
  ]

  first_verdict :
      (w : World) (b : Board) (r : VerifierResult) (s : JobState) (n : ℕ) (x : ExecutionState)
      → IsConsistent b.store
      → Map.get b.store.states r.execution_id.job_id ≡ some s
      → find_execution r.execution_id s.executions ≡ some (n, x)
      → is_proposed x ≡ true
      → Below
          (if r.verified
            then update_and_notify_result_accepted merge b r (w 0).now
            else update_and_notify_result_rejected merge b r (w 0).now)
          r.execution_id.job_id
          (proposals s.executions)
  unfolding update_and_notify_result_accepted update_and_notify_result_rejected follows same
  first_verdict w b r s n x v stored there proposed =
      let i = r.execution_id in
      let accepted =
        after_verdict b i ExecutionStateType.result_accepted true (w 0).now (accepts_result i) s n x
          v stored there proposed refl refl in
      let rejected =
        after_verdict b i ExecutionStateType.result_rejected false (w 0).now (rejects_result i) s n
          x v stored there proposed refl refl in
      either (λ c. Below c i.job_id (proposals s.executions)) r.verified _ _ accepted rejected

  -- The results of a verifier, the first of which is on a proposed result, take a proposal away.
  pub verified-Below :
      (w : World) (b : Board) (r : VerifierResult) (rs : List VerifierResult) (s : JobState) (n : ℕ)
      (x : ExecutionState)
      → IsConsistent b.store
      → Map.get b.store.states r.execution_id.job_id ≡ some s
      → find_execution r.execution_id s.executions ≡ some (n, x)
      → is_proposed x ≡ true
      → Below
          (verify_executions merge w b (r ∷ rs)).0
          r.execution_id.job_id
          (proposals s.executions)
  verified-Below w b r rs s n x v stored there proposed =
      let i = r.execution_id in
      subst (λ c. Below c i.job_id (proposals s.executions)) (sym (verify_cons w b r rs))
        (rest-Below (λ j. w (suc j)) _ i.job_id (proposals s.executions) rs
          (first_verdict w b r s n x v stored there proposed))
