-- ===== src/Compute/Stages.antt =====
-- The stages that an execution goes through on a compute node, as the endpoint and the executor move
-- it (pkg/compute: endpoint.go, executor.go, bidder.go).
pub mod Nodes
pub mod Requests
pub mod Steps
mod Examples
use bacalhau.Base.{
  ℕ, ◌≡◌, ◌≢◌, refl, sym, ap, ◌∙◌, subst, String, List, [], ◌∷◌, ◌++◌, Option, none, some, some_eq,
  Bool, true, false, arith, str_eq, eq_iff, map, Bool-cases, inl, inr, ◌⊎◌,
}
use mathlib.Core.List.{map-append}
use bacalhau.Base.Map
use bacalhau.Base.Map.{get_or-here}
use bacalhau.Base.Result.{ok, err}
use bacalhau.Compute.State.{
  Execution, ExecutionState, ExecutionHistory, UpdateExecutionStateRequest, is_terminal, undefined,
  created, bid_accepted, running, waiting_verification, result_accepted, publishing, completed,
  failed, cancelled,
}
use bacalhau.Compute.Store.{
  Store, new_store, add_execution, create_execution, write_execution, updated, history_entry,
  append_history, update_execution_state, check_update, new_execution_comment,
}
use bacalhau.Compute.Store.Cases.{
  create_execution_cases, update_execution_state_cases, check_update_granted,
}
use bacalhau.Compute.Store.Invariant.{
  IsConsistent, Told, absent, present, settle, append_history_here, new_store-IsConsistent,
}
use bacalhau.Compute.Store.Invariant.Updates.{
  known_execution, create_execution-IsConsistent, update_execution_state-IsConsistent,
}

-- The states that an execution has been in, up to this one, if nothing has ended it early.
unfoldable pub stages : ExecutionState → List ExecutionState
stages undefined = []
stages created = created ∷ []
stages bid_accepted = created ∷ bid_accepted ∷ []
stages running = created ∷ bid_accepted ∷ running ∷ []
stages waiting_verification = created ∷ bid_accepted ∷ running ∷ waiting_verification ∷ []
stages result_accepted =
    created ∷ bid_accepted ∷ running ∷ waiting_verification ∷ result_accepted ∷ []
stages publishing =
    created ∷ bid_accepted ∷ running ∷ waiting_verification ∷ result_accepted ∷ publishing ∷ []
stages completed =
    created ∷ bid_accepted ∷ running ∷ waiting_verification ∷ result_accepted ∷ publishing
    ∷ completed ∷ []
stages failed = failed ∷ []
stages cancelled = cancelled ∷ []

-- The state is an early end.
unfoldable pub ends_early : ExecutionState → Bool
ends_early failed = true
ends_early cancelled = true
ends_early s = false

-- The states of a history are the stages up to the state, or, for an early end, the stages up to a
-- state that is not terminal, and the end.
abbrev pub Staged : ExecutionState → List ExecutionState → Type 0
Staged t l =
    ((ends_early t ≡ false) × (l ≡ stages t))
    ⊎ ((ends_early t ≡ true)
        × ((s : ExecutionState) × (is_terminal s ≡ false) × (l ≡ stages s ++ t ∷ [])))

-- The states that the entries report.
abbrev pub reported : List ExecutionHistory → List ExecutionState
reported hs = map (λ (h : ExecutionHistory). h.new_state) hs

-- A consistent store in which every execution went through the stages in their order.
pub record IsStaged (d : Store) : Type 0 where
  pub consistent : IsConsistent d
  pub staged :
      (k : String) (e : Execution) (hs : List ExecutionHistory)
      → Map.get d.executions k ≡ some e
      → Map.get d.history k ≡ some hs
      → Staged e.state (reported hs)

pub new_store-IsStaged : IsStaged new_store
unfolding new_store Map.get
new_store-IsStaged = record {
  consistent = new_store-IsConsistent;
  staged = λ k e hs a b. absurd (cc);
}

-- The request ends an execution early, or it expects a state and asks for the next stage.
abbrev pub IsNext : UpdateExecutionStateRequest → Type 0
IsNext r =
    (ends_early r.new_state ≡ true)
    ⊎ ((r.expected_state ≢ undefined)
        × (ends_early r.new_state ≡ false)
        × (stages r.new_state ≡ stages r.expected_state ++ r.new_state ∷ []))

running_stages :
    (s : ExecutionState) (l : List ExecutionState)
    → is_terminal s ≡ false
    → Staged s l
    → l ≡ stages s
unfolding ends_early is_terminal
running_stages s l live (inl (a, b)) = b
running_stages s l live (inr (a, b)) = absurd (ground (arith, a, live))

next-Staged :
    (r : UpdateExecutionStateRequest) (s : ExecutionState) (l : List ExecutionState)
    → IsNext r
    → (r.expected_state ≡ undefined) ⊎ (s ≡ r.expected_state)
    → is_terminal s ≡ false
    → l ≡ stages s
    → Staged r.new_state (l ++ r.new_state ∷ [])
next-Staged r s l (inl early) given live e = inr (early, (s, live, rw e refl))
next-Staged r s l (inr (expects, on, next)) (inl free) live e = absurd (expects free)
next-Staged r s l (inr (expects, on, next)) (inr at) live e = inl (on, e' ∙ sym next)
  where
    e' : l ++ r.new_state ∷ [] ≡ stages r.expected_state ++ r.new_state ∷ []
    e' = ap (λ x. x ++ r.new_state ∷ []) (e ∙ ap stages at)

-- An ID without an execution has no history.
no_history :
    (d : Store)
    → IsConsistent d
    → (k : String) → Map.get d.executions k ≡ none
    → Map.get_or d.history k [] ≡ []
unfolding Map.get_or
no_history d v k fresh = elim (v.told k) [
  | absent a b ↦ rw (b, Map.get_or) refl
  | present x hs a b c g ↦ absurd (cc)
]

created-Staged : (s : ExecutionState) → s ≡ created → Staged s (s ∷ [])
unfolding stages ends_early
created-Staged s h = subst (λ t. Staged t (t ∷ [])) (sym h) (inl (refl, refl))

reported_entry :
    (old : List ExecutionHistory) (f : Execution) (s : ExecutionState) (comment : String)
    → reported (old ++ history_entry f s comment ∷ []) ≡ reported old ++ f.state ∷ []
unfolding history_entry
reported_entry old f s comment = map-append _ old (history_entry f s comment ∷ [])

module _ (d : Store) (v : IsStaged d) where
  create-Staged :
      (x : Execution) (k : String) (e : Execution) (hs : List ExecutionHistory)
      → Map.get d.executions x.id ≡ none
      → x.state ≡ created
      → Map.get (add_execution d x).executions k ≡ some e
      → Map.get (add_execution d x).history k ≡ some hs
      → Staged e.state (reported hs)
  unfolding add_execution
  create-Staged x k e hs fresh new a b = elim (Bool-cases (str_eq x.id k)) [
    | inr other ↦
        v.staged k e hs (sym (Map.get-put_other d.executions x.id k x other) ∙ a)
          (sym (Map.get-put_other d.history x.id k _ other) ∙ b)
    | inl this ↦
        let one : x ≡ e = some_eq (sym (Map.get-put_same d.executions x.id k x this) ∙ a) in
        let grown =
          append_history_here d.history x k [] undefined new_execution_comment this
            (no_history d v.consistent x.id fresh) in
        let all : history_entry x undefined new_execution_comment ∷ [] ≡ hs =
          some_eq (sym grown ∙ b) in
        subst (λ (y : Execution). Staged y.state (reported hs)) one
          (subst (λ gs. Staged x.state (reported gs)) all (created-Staged x.state new))
  ]

  -- A granted update to the next stage, or to an early end.
  update-Staged :
      (r : UpdateExecutionStateRequest) (now : ℕ) (x : Execution) (k : String) (e : Execution)
      (hs : List ExecutionHistory)
      → IsNext r
      → Map.get d.executions r.execution_id ≡ some x
      → check_update x r ≡ ok tt
      → Map.get (write_execution d x r now).executions k ≡ some e
      → Map.get (write_execution d x r now).history k ≡ some hs
      → Staged e.state (reported hs)
  unfolding write_execution updated
  update-Staged r now x k e hs next found good a b = elim (Bool-cases (str_eq x.id k)) [
    | inr other ↦
        v.staged k e hs (sym (Map.get-put_other d.executions x.id k _ other) ∙ a)
          (sym (Map.get-put_other d.history x.id k _ other) ∙ b)
    | inl this ↦
        let (old, h, same, chain) = known_execution d v.consistent r.execution_id x found in
        let f = updated x r.new_state now in
        let one : f ≡ e = some_eq (sym (Map.get-put_same d.executions x.id k f this) ∙ a) in
        let grown = append_history_here d.history f k old x.state r.comment this (
          subst (λ i. Map.get_or d.history i [] ≡ old) (sym same)
            (get_or-here d.history r.execution_id [] old h)) in
        let all : old ++ history_entry f x.state r.comment ∷ [] ≡ hs = some_eq (sym grown ∙ b) in
        let (given, _, live) = check_update_granted x r good in
        let before =
          running_stages x.state (reported old) live (v.staged r.execution_id x old found h) in
        subst (λ (y : Execution). Staged y.state (reported hs)) one
          (subst (λ gs. Staged r.new_state (reported gs)) all
            (subst (Staged r.new_state) (sym (reported_entry old f x.state r.comment))
              (next-Staged r x.state (reported old) next given live before)))
  ]

  pub create_execution-IsStaged : (x : Execution) → IsStaged (settle d (create_execution d x))
  create_execution-IsStaged x = elim (create_execution_cases d x) [
    | inl (y, refused) ↦ rw refused v
    | inr (fresh, new, first, written) ↦ record {
      consistent = create_execution-IsConsistent d v.consistent x;
      staged = λ k e hs a b.
          create-Staged x k e hs fresh new
            (ap (λ s. Map.get (settle d s).executions k) (sym written) ∙ a)
            (ap (λ s. Map.get (settle d s).history k) (sym written) ∙ b);
    }
  ]

  pub update_execution_state-IsStaged :
      (r : UpdateExecutionStateRequest) (now : ℕ)
      → IsNext r
      → IsStaged (settle d (update_execution_state d r now))
  update_execution_state-IsStaged r now next = elim (update_execution_state_cases d r now) [
    | inl (y, refused) ↦ rw refused v
    | inr (x, found, good, written) ↦ record {
      consistent = update_execution_state-IsConsistent d v.consistent r now;
      staged = λ k e hs a b.
          update-Staged r now x k e hs next found good
            (ap (λ s. Map.get (settle d s).executions k) (sym written) ∙ a)
            (ap (λ s. Map.get (settle d s).history k) (sym written) ∙ b);
    }
  ]
