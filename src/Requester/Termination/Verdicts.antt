-- ===== src/Requester/Termination/Verdicts.antt =====
-- A verdict on a proposed result takes the proposal away (pkg/requester/scheduler.go).
use bacalhau.Base.{
  zero, take, Option-cases, ℕ, suc, ◌<◌, ◌≡◌, refl, sym, ap, ◌∙◌, inl, inr, String, Bool, true,
  false, List, [], ◌∷◌, none, some, arith, eq_iff, Bool-cases, if◌then◌else◌,
}
use bacalhau.Base.Map
use bacalhau.Base.Map.{Map}
use bacalhau.Base.Result.{ok}
use bacalhau.Model.ExecutionState
use bacalhau.Model.ExecutionState.{
  ExecutionState, ExecutionStateType, ExecutionId, same, same_id, same_id_iff, same_iff,
  is_terminal,
}
use bacalhau.Model.JobState.{JobState}
use bacalhau.JobStore.Types.{validate_execution, execution_state_among}
use bacalhau.JobStore.InMemory.{JobStore}
use bacalhau.JobStore.Executions.{
  Merge, find_execution, set_execution, update_defaults, update_execution, write_execution,
}
use bacalhau.JobStore.Stop.{only_state}
use bacalhau.JobStore.Ids.{ids, Owned, Distinct, Fresh, found-id, found_cons, same_id_sym}
use bacalhau.JobStore.Merge.{Fills, filled_state}
use bacalhau.JobStore.Invariant.Updates.{merged_id}
use bacalhau.Requester.Bids.{in_state}
use bacalhau.Requester.Results.{verdict_request}
use bacalhau.Requester.Protocol.{follows, ends}
use bacalhau.Requester.Protocol.Requests.{verdict_request-KeepsId}
use bacalhau.Requester.Termination.Shrinks.{is_proposed, proposals, Shrinks-set}

-- What the search finds has another ID than a fresh one.
found-Fresh :
    (i j : ExecutionId) (es : List ExecutionState) (n : ℕ) (x : ExecutionState)
    → find_execution i es ≡ some (n, x)
    → Fresh j (ids es)
    → same_id j i ≡ false
unfolding find_execution
found-Fresh i j [] n x h f = absurd (cc)
found-Fresh i j (e ∷ es) n x h f = elim (found_cons i e es n x h) [
  | inl (first, here, hit) ↦ same_id_sym j i ∙ ap (λ a. same_id a j) (sym hit) ∙ f.0
  | inr (m, next, miss, later) ↦ found-Fresh i j es m x later f.1
]

-- What is found among the executions in a state is found among all, and is in that state.
pub found-in_state :
    (s : ExecutionStateType) (i : ExecutionId) (es : List ExecutionState) (n : ℕ)
    (x : ExecutionState)
    → Distinct (ids es)
    → find_execution i (in_state s es) ≡ some (n, x)
    → (m : ℕ) × (find_execution i es ≡ some (m, x)) × (same x.state s ≡ true)
unfolding in_state find_execution
found-in_state s i [] n x d h = absurd (cc)
found-in_state s i (e ∷ es) n x d h = elim (Bool-cases (same e.state s)) [
  | inl here ↦
      let h' : find_execution i (e ∷ in_state s es) ≡ some (n, x) =
        ap (λ b. find_execution i (if b then e ∷ in_state s es else in_state s es)) (sym here)
        ∙ h in
      elim (found_cons i e (in_state s es) n x h') [
        | inl (first, this, hit) ↦ (
          0,
          rw (this, (same_id_iff (ExecutionState.id e) i).1 hit, find_execution) refl,
          ap (λ (y : ExecutionState). same y.state s) this ∙ here,
        )
        | inr (m, next, miss, later) ↦
            let (k, found, state) = found-in_state s i es m x d.1 later in
            (suc k, rw (miss, find_execution, found) refl, state)
      ]
  | inr other ↦
      let h' : find_execution i (in_state s es) ≡ some (n, x) =
        ap (λ b. find_execution i (if b then e ∷ in_state s es else in_state s es)) (sym other)
        ∙ h in
      let (k, found, state) = found-in_state s i es n x d.1 h' in
      (
        suc k,
        rw (found-Fresh i (ExecutionState.id e) es k x found d.0, find_execution, found) refl,
        state,
      )
]

-- What is found in the front of the executions is found in all of them.
pub found-take :
    (s : ExecutionStateType) (i : ExecutionId) (k : ℕ) (es : List ExecutionState) (n : ℕ)
    (x : ExecutionState)
    → find_execution i (in_state s (take k es)) ≡ some (n, x)
    → find_execution i (in_state s es) ≡ some (n, x)
unfolding in_state find_execution
found-take s i zero es n x h = absurd (cc)
found-take s i (suc k) [] n x h = absurd (cc)
found-take s i (suc k) (e ∷ es) n x h = elim (Bool-cases (same e.state s)) [
  | inr other ↦ ground (arith, other, found-take s i k es n x (ground (arith, h, other)))
  | inl here ↦ elim (Bool-cases (same_id (ExecutionState.id e) i)) [
    | inl hit ↦ ground (arith, h, here, hit)
    | inr miss ↦ elim (Option-cases (find_execution i (in_state s (take k es)))) [
      | inl lost ↦ absurd (ground (arith, h, here, miss, lost))
      | inr ((m, y), found) ↦
          let rest = found-take s i k es m y found in ground (arith, h, here, miss, found, rest)
    ]
  ]
]

pub found-Owned :
    (k : String) (i : ExecutionId) (es : List ExecutionState) (n : ℕ) (x : ExecutionState)
    → find_execution i es ≡ some (n, x)
    → Owned k (ids es)
    → i.job_id ≡ k
unfolding find_execution
found-Owned k i [] n x h o = absurd (cc)
found-Owned k i (e ∷ es) n x h o = elim (found_cons i e es n x h) [
  | inl (first, here, hit) ↦ ap (λ j. j.job_id) (sym hit) ∙ o.0
  | inr (m, next, miss, later) ↦ found-Owned k i es m x later o.1
]

-- How many results are proposed under a key.
unfoldable pub left : JobStore → String → ℕ
left d k = elim (Map.get d.states k) [ none ↦ 0 | some s ↦ proposals s.executions ]

verdict_valid :
    (i : ExecutionId) (t : ExecutionStateType) (passed : Bool) (x : ExecutionState)
    → is_proposed x ≡ true
    → (validate_execution (verdict_request i t passed).condition x ≡ ok tt)
      × (is_terminal x.state ≡ false)
unfolding verdict_request validate_execution execution_state_among is_proposed same is_terminal
verdict_valid i t passed x h = ground arith

verdict_settles :
    (t current previous : ExecutionStateType)
    → follows ExecutionStateType.result_proposed t ≡ true
    → current ≡ filled_state t previous
    → same current ExecutionStateType.result_proposed ≡ false
unfolding follows ends same
verdict_settles t current previous f e = ground arith

module _ (merge : Merge) (fills : Fills merge) where
  -- A verdict on an execution whose result is proposed is granted, and leaves one proposal less.
  pub verdict_granted :
      (d : JobStore) (i : ExecutionId) (t : ExecutionStateType) (passed : Bool) (now : ℕ)
      (s : JobState) (n : ℕ) (x : ExecutionState)
      → Map.get d.states i.job_id ≡ some s
      → find_execution i s.executions ≡ some (n, x)
      → is_proposed x ≡ true
      → follows ExecutionStateType.result_proposed t ≡ true
      → (d' : JobStore) × (update_execution merge d (verdict_request i t passed) now ≡ ok d')
        × (left d' i.job_id < proposals s.executions)
  unfolding update_execution write_execution left verdict_request is_proposed update_defaults
      only_state ExecutionState.id
  verdict_granted d i t passed now s n x stored there proposed next =
      let r = verdict_request i t passed in
      let (valid, live) = verdict_valid i t passed x proposed in
      let (e, merged, filled) = fills (update_defaults r.new_values x now) x in
      let named = found-id i s.executions n x there in
      let id = merged_id merge fills r now x e (verdict_request-KeepsId i t passed) named merged in
      let less =
        (Shrinks-set i s.executions n x e there (id ∙ sym named)
            (verdict_settles t e.state x.state next filled.state)).1
          proposed in
      let u = record s { executions = set_execution s.executions n e } in
      let here : Map.get (Map.put (Map.put d.states i.job_id u) e.job_id u) i.job_id ≡ some u =
        Map.get-put_same _ e.job_id i.job_id u
          ((eq_iff e.job_id i.job_id).1 (ap (λ j. j.job_id) id)) in
      (
        write_execution d s n x e r,
        rw (stored, update_execution, there, valid, live, merged) refl,
        rw (here, left) less,
      )
