-- ===== src/Compute/Store/Invariant/Updates.antt =====
-- An update of an execution keeps the maps of the compute node's store in agreement
-- (pkg/compute/store/inmemory/store.go).
use bacalhau.Base.{
  ℕ, ◌≡◌, refl, sym, ◌∙◌, subst, String, List, [], ◌∷◌, ◌++◌, some, arith, str_eq, eq_iff,
  Bool-cases, inl, inr, some_eq,
}
use bacalhau.Base.Map
use bacalhau.Base.Map.{Map, get-put}
use bacalhau.Compute.State.{
  Execution, ExecutionState, ExecutionHistory, UpdateExecutionStateRequest,
}
use bacalhau.Compute.Store.{
  Store, history_entry, create_execution, updated, write_execution, update_execution_state,
}
use bacalhau.Compute.Store.Lists.{count}
use bacalhau.Compute.Store.Cases.{create_execution_cases, update_execution_state_cases}
use bacalhau.Compute.Store.Invariant.{
  Told, Chain, absent, present, held, Chain-append, IsConsistent, settle, append_history_here,
  add_execution-IsConsistent,
}

-- What is known of a stored execution.
pub known_execution :
    (d : Store) (v : IsConsistent d) (k : String) (e : Execution)
    → Map.get d.executions k ≡ some e
    → (hs : List ExecutionHistory) × (Map.get d.history k ≡ some hs)
      × (e.id ≡ k)
      × Chain k ExecutionState.undefined 0 hs e.state e.version
known_execution d v k e found = elim (v.told k) [
  | absent a b ↦ absurd (cc)
  | present x hs a b c g ↦
      let (p, q) =
        subst (λ y. (y.id ≡ k) × Chain k ExecutionState.undefined 0 hs y.state y.version)
          (some_eq (sym a ∙ found)) (c, g) in
      (hs, b, p, q)
]

module _ (d : Store) (v : IsConsistent d) (e : Execution) (r : UpdateExecutionStateRequest)
    (now : ℕ) (found : Map.get d.executions r.execution_id ≡ some e) where
  write_execution-told :
      (k : String)
      → Told k
          (Map.get (write_execution d e r now).executions k)
          (Map.get (write_execution d e r now).history k)
  unfolding write_execution updated history_entry Map.get_or
  write_execution-told k =
      let (hs, h, same, chain) = known_execution d v r.execution_id e found in
      let f = updated e r.new_state now in
      elim (Bool-cases (str_eq e.id k)) [
        | inl this ↦
            let at : e.id ≡ k = (eq_iff e.id k).0 this in
            let here : r.execution_id ≡ k = sym same ∙ at in
            present f (hs ++ history_entry f e.state r.comment ∷ [])
              (Map.get-put_same d.executions e.id k f this)
              (append_history_here d.history f k hs e.state r.comment this
                (ground (arith, h, same)))
              at
              (Chain-append k _ _ hs e.state e.version (history_entry f e.state r.comment)
                (subst (λ i. Chain i ExecutionState.undefined 0 hs e.state e.version) here chain) at
                refl refl)
        | inr other ↦
            rw
              (
                Map.get-put_other d.executions e.id k f other,
                Map.get-put_other d.history e.id k _ other,
              )
              (v.told k)
      ]

  write_execution-listed :
      (k j : String)
      → count k (Map.get_or (write_execution d e r now).jobs j [])
        ≡ held (Map.get (write_execution d e r now).executions k) j
  unfolding write_execution updated
  write_execution-listed k j =
      let (hs, h, same, chain) = known_execution d v r.execution_id e found in
      ground (
        arith,
        v.listed k j,
        found,
        same,
        get-put d.executions e.id (updated e r.new_state now) k,
        eq_iff e.id k,
      )

  write_execution-IsConsistent : IsConsistent (write_execution d e r now)
  unfolding write_execution
  write_execution-IsConsistent = record {
    told = write_execution-told;
    listed = write_execution-listed;
    filled = v.filled;
  }

module _ (d : Store) (v : IsConsistent d) where
  pub create_execution-IsConsistent :
      (e : Execution) → IsConsistent (settle d (create_execution d e))
  create_execution-IsConsistent e = elim (create_execution_cases d e) [
    | inl (x, refused) ↦ rw refused v
    | inr (fresh, new, first, written) ↦ rw written (add_execution-IsConsistent d v e fresh first)
  ]

  pub update_execution_state-IsConsistent :
      (r : UpdateExecutionStateRequest) (now : ℕ)
      → IsConsistent (settle d (update_execution_state d r now))
  update_execution_state-IsConsistent r now = elim (update_execution_state_cases d r now) [
    | inl (x, refused) ↦ rw refused v
    | inr (e, found, good, written) ↦ rw written (write_execution-IsConsistent d v e r now found)
  ]
