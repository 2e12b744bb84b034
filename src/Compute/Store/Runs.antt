-- ===== src/Compute/Store/Runs.antt =====
-- Sequences of calls of the compute node's store (pkg/compute/store/inmemory/store.go).
use bacalhau.Base.{
  ℕ, ◌≡◌, ◌≢◌, sym, ap, ◌∙◌, String, List, [], ◌∷◌, some, some_eq, true, false, arith, str_eq,
  eq_iff, Bool-cases, Option-cases, inl, inr, All, incr,
}
use bacalhau.Base.Map
use bacalhau.Base.Result.{ok, err, ok_eq}
use bacalhau.Compute.State.{Execution, UpdateExecutionStateRequest, Error, is_terminal}
use bacalhau.Compute.Store.{
  Store, new_store, create_execution, add_execution, write_execution, updated,
  update_execution_state, delete_execution,
}
use bacalhau.Compute.Store.Cases.{
  create_execution_cases, update_execution_state_cases, check_update_granted,
}
use bacalhau.Compute.Store.Invariant.{IsConsistent, settle, new_store-IsConsistent}
use bacalhau.Compute.Store.Invariant.Updates.{
  known_execution, create_execution-IsConsistent, update_execution_state-IsConsistent,
}
use bacalhau.Compute.Store.Invariant.Deletes.{delete_execution-IsConsistent}

pub data Call : Type 0 where
  creates : Execution → Call
  updates : UpdateExecutionStateRequest → ℕ → Call
  deletes : String → Call

unfoldable pub call : Store → Call → Store
unfolding create_execution update_execution_state delete_execution
call d (creates e) = settle d (create_execution d e)
call d (updates r now) = settle d (update_execution_state d r now)
call d (deletes id) = delete_execution d id

unfoldable pub run : Store → List Call → Store
unfolding call
run d [] = d
run d (c ∷ cs) = run (call d c) cs

pub call-IsConsistent : (d : Store) (c : Call) → IsConsistent d → IsConsistent (call d c)
unfolding call
call-IsConsistent d (creates e) v = create_execution-IsConsistent d v e
call-IsConsistent d (updates r now) v = update_execution_state-IsConsistent d v r now
call-IsConsistent d (deletes id) v = delete_execution-IsConsistent d v id

pub run_from-IsConsistent : (d : Store) (cs : List Call) → IsConsistent d → IsConsistent (run d cs)
unfolding run
run_from-IsConsistent d [] v = v
run_from-IsConsistent d (c ∷ cs) v = run_from-IsConsistent (call d c) cs (call-IsConsistent d c v)

-- After any sequence of calls on a new store its maps agree: an ID has an execution of that ID and a
-- history that leads, entry by entry and version by version, from no state to that execution's state
-- and version, or it has neither; an execution stands once in the list of its own job and in no
-- other; no job has an empty list.
pub run_new-IsConsistent : (cs : List Call) → IsConsistent (run new_store cs)
run_new-IsConsistent cs = run_from-IsConsistent new_store cs new_store-IsConsistent

-- The call does not delete this execution.
abbrev pub Spares : String → Call → Type 0
Spares k (creates e) = Unit
Spares k (updates r now) = Unit
Spares k (deletes id) = str_eq id k ≡ false

module _ (d : Store) (v : IsConsistent d) (k : String) (e : Execution)
    (found : Map.get d.executions k ≡ some e) where
  create_execution-keeps :
      (x : Execution) → Map.get (settle d (create_execution d x)).executions k ≡ some e
  unfolding add_execution
  create_execution-keeps x = elim (create_execution_cases d x) [
    | inl (y, refused) ↦ rw refused found
    | inr (fresh, new, first, written) ↦ elim (Bool-cases (str_eq x.id k)) [
      | inl this ↦ absurd (cc (fresh, found, ap (Map.get d.executions) ((eq_iff x.id k).0 this)))
      | inr other ↦ rw written (Map.get-put_other d.executions x.id k x other ∙ found)
    ]
  ]

  update_execution_state-keeps :
      (r : UpdateExecutionStateRequest) (now : ℕ)
      → is_terminal e.state ≡ true
      → Map.get (settle d (update_execution_state d r now)).executions k ≡ some e
  unfolding write_execution updated
  update_execution_state-keeps r now over = elim (update_execution_state_cases d r now) [
    | inl (y, refused) ↦ rw refused found
    | inr (x, there, good, written) ↦
        let (hs, h, same, chain) = known_execution d v r.execution_id x there in
        elim (Bool-cases (str_eq x.id k)) [
          | inl this ↦
              let here : r.execution_id ≡ k = sym same ∙ (eq_iff x.id k).0 this in
              let one : x ≡ e = some_eq (sym there ∙ ap (Map.get d.executions) here ∙ found) in
              absurd
                (cc (over, (check_update_granted x r good).2, ap (λ y. is_terminal y.state) one))
          | inr other ↦ rw written (Map.get-put_other d.executions x.id k _ other ∙ found)
        ]
  ]

  delete_execution-keeps :
      (id : String) → str_eq id k ≡ false → Map.get (delete_execution d id).executions k ≡ some e
  unfolding delete_execution
  delete_execution-keeps id other = elim (Option-cases (Map.get d.executions id)) [
    | inl missing ↦ rw (missing, delete_execution) found
    | inr (x, there) ↦
        rw (there, delete_execution) (Map.get-remove_other d.executions id k other ∙ found)
  ]

-- An execution that a consistent store holds in a terminal state is still held, unchanged in every
-- field, after any sequence of calls that does not delete it.
pub terminal_execution_kept :
    (d : Store) (cs : List Call) (k : String) (e : Execution)
    → IsConsistent d
    → All (Spares k) cs
    → Map.get d.executions k ≡ some e
    → is_terminal e.state ≡ true
    → Map.get (run d cs).executions k ≡ some e
unfolding run call
terminal_execution_kept d [] k e v spared found over = found
terminal_execution_kept d (creates x ∷ cs) k e v spared found over =
    terminal_execution_kept (call d (creates x)) cs k e (call-IsConsistent d (creates x) v) spared.1
      (create_execution-keeps d v k e found x) over
terminal_execution_kept d (updates r now ∷ cs) k e v spared found over =
    terminal_execution_kept (call d (updates r now)) cs k e (call-IsConsistent d (updates r now) v)
      spared.1 (update_execution_state-keeps d v k e found r now over) over
terminal_execution_kept d (deletes id ∷ cs) k e v spared found over =
    terminal_execution_kept (call d (deletes id)) cs k e (call-IsConsistent d (deletes id) v)
      spared.1 (delete_execution-keeps d v k e found id spared.0) over

incr_other : (n : ℕ) → incr n ≢ n
incr_other n h = omega (arith, h)

-- In a consistent store, once an update of an execution that expects a version (not 0) is granted,
-- every update of the same execution that expects that version is refused.
pub stale_version_refused :
    (d d' : Store) (r q : UpdateExecutionStateRequest) (now later : ℕ)
    → IsConsistent d
    → update_execution_state d r now ≡ ok d'
    → r.expected_version ≢ 0
    → q.execution_id ≡ r.execution_id
    → q.expected_version ≡ r.expected_version
    → (x : Error) × (update_execution_state d' q later ≡ err x)
unfolding write_execution updated
stale_version_refused d d' r q now later v granted given same_execution same_version =
    elim (update_execution_state_cases d' q later) [
      | inl refused ↦ refused
      | inr (y, there, again, _) ↦ elim (update_execution_state_cases d r now) [
        | inl (x, refused) ↦ absurd (cc)
        | inr (x, found, good, written) ↦
            let (hs, h, same, chain) = known_execution d v r.execution_id x found in
            let at : str_eq x.id q.execution_id ≡ true =
              (eq_iff x.id q.execution_id).1 (same ∙ sym same_execution) in
            let here : Map.get d'.executions q.execution_id ≡ some (updated x r.new_state now) =
              ap (λ s. Map.get s.executions q.execution_id) (ok_eq (sym granted ∙ written))
              ∙ Map.get-put_same d.executions x.id q.execution_id (updated x r.new_state now) at in
            let one : y ≡ updated x r.new_state now = some_eq (sym there ∙ here) in
            let bumped : y.version ≡ incr x.version = ap (λ s. s.version) one in
            let a = (check_update_granted y q again).1 in
            let b = (check_update_granted x r good).1 in
            absurd (ground (arith, incr_other x.version))
      ]
    ]
