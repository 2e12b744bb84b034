-- ===== src/Compute/Store/Invariant.antt =====
-- What holds of the compute node's store between two calls: its three maps agree, and the history of
-- an execution records how it came to its state (pkg/compute/store/inmemory/store.go).
pub mod Updates
pub mod Deletes
use bacalhau.Base.{
  ℕ, ◌+◌, zero, suc, ◌≡◌, ◌≢◌, refl, sym, ap, ◌∙◌, subst, String, List, [], ◌∷◌, ◌++◌, Option, none,
  some, Bool, true, false, arith, ◌==◌, length, if◌then◌else◌, incr, str_eq, eq_iff, Bool-cases,
  Option-cases, inl, inr, ◌⊎◌, some_eq, Bool,
}
use bacalhau.Base.Map
use bacalhau.Base.Map.{Map, get-put, get-remove, get_or-put, get_or-remove}
use bacalhau.Base.Result.{Result, ok, err, Result-cases}
use bacalhau.Model.Job
use bacalhau.Compute.State.{
  Execution, ExecutionState, ExecutionHistory, UpdateExecutionStateRequest, Error, same_iff,
  execution_not_found, execution_already_exists, validate_new_execution, is_terminal,
}
use bacalhau.Compute.Store.{
  Store, new_store, history_entry, append_history, add_execution, create_execution, check_update,
  updated, write_execution, update_execution_state, cut, drop_execution, delete_execution,
}
use bacalhau.Compute.Store.Lists.{count, count-append}

-- The entries lead from one state and version to another, each from where the last one ended, one
-- version up, and all are about the same execution.
abbrev pub Chain : String → ExecutionState → ℕ → List ExecutionHistory → ExecutionState → ℕ → Type 0
Chain k s n [] t m = (s ≡ t) × (n ≡ m)
Chain k s n (h ∷ hs) t m =
    (h.execution_id ≡ k)
    × (h.previous_state ≡ s)
    × (h.new_version ≡ incr n)
    × Chain k h.new_state h.new_version hs t m

pub Chain-append :
    (k : String) (s : ExecutionState) (n : ℕ) (hs : List ExecutionHistory) (t : ExecutionState)
    (m : ℕ) (h : ExecutionHistory)
    → Chain k s n hs t m
    → h.execution_id ≡ k
    → h.previous_state ≡ t
    → h.new_version ≡ incr m
    → Chain k s n (hs ++ h ∷ []) h.new_state h.new_version
Chain-append k s n [] t m h c a b d = (a, b ∙ sym c.0, d ∙ ap incr (sym c.1), (refl, refl))
Chain-append k s n (x ∷ hs) t m h c a b d =
    (c.0, c.1, c.2, Chain-append k x.new_state x.new_version hs t m h c.3 a b d)

-- An ID has no execution and no history, or an execution of that ID and the history of it.
pub data Told (k : String) (o : Option Execution) (h : Option (List ExecutionHistory))
    : Type 0 where
  absent : o ≡ none → h ≡ none → Told k o h
  present :
      (e : Execution) (hs : List ExecutionHistory)
      → o ≡ some e
      → h ≡ some hs
      → e.id ≡ k
      → Chain k ExecutionState.undefined 0 hs e.state e.version
      → Told k o h

-- How often an execution's ID stands in the list of the job.
abbrev pub held : Option Execution → String → ℕ
held none j = 0
held (some e) j = if str_eq (Job.id e.job) j then 1 else 0

-- The maps agree: every execution stands once in the list of its own job and in no other list, no
-- list names a missing execution or is empty, and histories and executions go together.
pub record IsConsistent (d : Store) : Type 0 where
  pub told : (k : String) → Told k (Map.get d.executions k) (Map.get d.history k)
  pub listed : (k j : String) → count k (Map.get_or d.jobs j []) ≡ held (Map.get d.executions k) j
  pub filled : (j : String) → Map.get d.jobs j ≢ some []

pub new_store-IsConsistent : IsConsistent new_store
unfolding new_store Map.get Map.get_or count
new_store-IsConsistent = record {
  told = λ k. absent refl refl;
  listed = λ k j. refl;
  filled = λ j e. cc;
}

-- The store after a call: an error leaves it as it was.
abbrev pub settle : Store → Result Error Store → Store
settle d (ok d') = d'
settle d (err _) = d

-- The history of the execution after an entry is added.
pub append_history_here :
    (h : Map (List ExecutionHistory)) (e : Execution) (k : String) (hs : List ExecutionHistory)
    (previous : ExecutionState) (comment : String)
    → str_eq e.id k ≡ true
    → Map.get_or h e.id [] ≡ hs
    → Map.get (append_history h e previous comment) k
      ≡ some (hs ++ history_entry e previous comment ∷ [])
unfolding append_history
append_history_here h e k hs previous comment this old =
    Map.get-put_same h e.id k _ this
    ∙ ap (λ x. some (x ++ history_entry e previous comment ∷ [])) old

append_not_nil : (x : String) (xs : List String) → xs ++ x ∷ [] ≢ []
append_not_nil x [] h = cc
append_not_nil x (y ∷ ys) h = cc

module _ (d : Store) (v : IsConsistent d) where
  add_execution-told :
      (e : Execution) (k : String)
      → Map.get d.executions e.id ≡ none
      → e.version ≡ 1
      → Told k (Map.get (add_execution d e).executions k) (Map.get (add_execution d e).history k)
  unfolding add_execution append_history history_entry Map.get_or
  add_execution-told e k fresh first = elim (Bool-cases (str_eq e.id k)) [
    | inl this ↦ elim (v.told e.id) [
      | absent a b ↦
          present e (history_entry e ExecutionState.undefined "Execution created" ∷ [])
            (Map.get-put_same d.executions e.id k e this)
            (append_history_here d.history e k [] _ _ this (ground (arith, b)))
            ((eq_iff e.id k).0 this) ((eq_iff e.id k).0 this, refl, first, (refl, refl))
      | present x hs a b c g ↦ absurd (cc)
    ]
    | inr other ↦
        rw
          (
            Map.get-put_other d.executions e.id k e other,
            Map.get-put_other d.history e.id k _ other,
          )
          (v.told k)
  ]

  add_execution-listed :
      (e : Execution) (k j : String)
      → Map.get d.executions e.id ≡ none
      → count k (Map.get_or (add_execution d e).jobs j [])
        ≡ held (Map.get (add_execution d e).executions k) j
  unfolding add_execution
  add_execution-listed e k j fresh = ground (
    arith,
    v.listed k j,
    get-put d.executions e.id e k,
    get_or-put d.jobs (Job.id e.job) j [] (Map.get_or d.jobs (Job.id e.job) [] ++ e.id ∷ []),
    eq_iff e.id k,
    eq_iff (Job.id e.job) j,
    count-append k e.id (Map.get_or d.jobs (Job.id e.job) []),
  )

  add_execution-filled : (e : Execution) (j : String) → Map.get (add_execution d e).jobs j ≢ some []
  unfolding add_execution
  add_execution-filled e j h = ground (
    arith,
    v.filled j,
    append_not_nil e.id (Map.get_or d.jobs (Job.id e.job) []),
    get-put d.jobs (Job.id e.job) (Map.get_or d.jobs (Job.id e.job) [] ++ e.id ∷ []) j,
  )

  pub add_execution-IsConsistent :
      (e : Execution)
      → Map.get d.executions e.id ≡ none
      → e.version ≡ 1
      → IsConsistent (add_execution d e)
  unfolding add_execution
  add_execution-IsConsistent e fresh first = record {
    told = λ k. add_execution-told e k fresh first;
    listed = λ k j. add_execution-listed e k j fresh;
    filled = λ j. add_execution-filled e j;
  }
