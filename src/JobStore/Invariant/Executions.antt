-- ===== src/JobStore/Invariant/Executions.antt =====
-- The operations on executions keep the maps of the store in agreement
-- (pkg/jobstore/inmemory/inmemory.go).
use mathlib.Core.List.{map-append}
use bacalhau.Base.{
  ℕ, ◌≡◌, refl, subst, ◌⊎◌, inl, inr, String, List, [], ◌∷◌, ◌++◌, none, some, eq_iff, false,
  str_eq, Bool-cases, Option-cases,
}
use bacalhau.Base.Map
use bacalhau.Base.Map.{Map, get-put_other}
use bacalhau.Base.Result.{ok, err}
use bacalhau.Model.ExecutionState
use bacalhau.Model.ExecutionState.{ExecutionState, ExecutionStateType, ExecutionId}
use bacalhau.Model.JobState.{JobState}
use bacalhau.JobStore.Types.{Error, job_not_found, execution_already_exists}
use bacalhau.JobStore.InMemory.{JobStore, append_history, execution_entry}
use bacalhau.JobStore.Executions.{find_execution, with_defaults, create_execution}
use bacalhau.JobStore.Ids.{ids, Owned, Distinct, All-append, Distinct-append, find_none-Fresh}
use bacalhau.JobStore.History.{
  Records, Records-execution_entry, append_history_here, append_history_other, get_or_found,
}
use bacalhau.JobStore.Invariant.{IsConsistent, Slot, Slot-elsewhere, known, known_state}
use bacalhau.JobStore.Invariant.Jobs.{settle}

-- What `CreateExecution` writes, behind its checks.
abbrev pub created : JobStore → JobState → ExecutionState → JobStore
created d s f = record d {
  states = Map.put d.states f.job_id (record s { executions = s.executions ++ f ∷ [] });
  history = append_history d.history f.job_id (execution_entry f ExecutionStateType.new "");
}

-- `CreateExecution` refuses, or it adds an execution with a new ID to a known job.
pub create_execution_cases :
    (d : JobStore) (e : ExecutionState) (now : ℕ)
    → ((x : Error) × (create_execution d e now ≡ err x))
      ⊎ ((s : JobState) × (Map.get d.states e.job_id ≡ some s)
          × (find_execution (ExecutionState.id e) s.executions ≡ none)
          × (create_execution d e now ≡ ok (created d s (with_defaults e now))))
unfolding create_execution
create_execution_cases d e now = elim (Option-cases (Map.get d.states e.job_id)) [
  | inl missing ↦ inl (job_not_found e.job_id, rw (missing, create_execution))
  | inr (s, found) ↦ elim (Option-cases (find_execution (ExecutionState.id e) s.executions)) [
    | inl fresh ↦ inr (s, found, fresh, rw (found, create_execution, fresh))
    | inr (x, there) ↦
        inl (execution_already_exists (ExecutionState.id e), rw (found, create_execution, there))
  ]
]

module _ (d : JobStore) (v : IsConsistent d) where
  -- New executions of a known job, with an entry about one of them in its history.
  pub executions_here :
      (k : String) (s : JobState) (es : List ExecutionState) (states : Map JobState)
      (e : ExecutionState) (previous : ExecutionStateType) (comment : String)
      → Map.get d.states k ≡ some s
      → Map.get states k ≡ some (record s { executions = es })
      → e.job_id ≡ k
      → Owned k (ids es)
      → Distinct (ids es)
      → Slot k (record d {
        states = states;
        history = append_history d.history e.job_id (execution_entry e previous comment);
      })
  executions_here k s es states e previous comment found put same owned distinct =
      let (j, hs, ej, eh, g) = known_state d k s (v k) found in
      let hs' = hs ++ execution_entry e previous comment ∷ [] in
      let r : Records hs' s = Records-execution_entry hs s g.recorded e previous comment in
      known j (record s { executions = es }) hs' ej put
        (append_history_here d.history hs _ same (get_or_found _ _ _ eh))
        (record {
          job_key = g.job_key;
          state_key = g.state_key;
          tracked = g.tracked;
          recorded = record { linked = r.linked; replayed = r.replayed; counted = r.counted };
          owned = owned;
          distinct = distinct;
        })

  created_here :
      (s : JobState) (f : ExecutionState)
      → Map.get d.states f.job_id ≡ some s
      → find_execution (ExecutionState.id f) s.executions ≡ none
      → Slot f.job_id (created d s f)
  unfolding ExecutionState.id
  created_here s f found fresh =
      let (j, hs, ej, eh, g) = known_state d f.job_id s (v f.job_id) found in
      let e : ids (s.executions ++ f ∷ []) ≡ ids s.executions ++ ExecutionState.id f ∷ [] =
        map-append ExecutionState.id s.executions (f ∷ []) in
      executions_here f.job_id s (s.executions ++ f ∷ []) _ f ExecutionStateType.new "" found
        (Map.get-put_self d.states _ _) refl
        (rw e (All-append _ (ids s.executions) _ g.owned (refl, tt)))
        (rw e (Distinct-append _ _ g.distinct (find_none-Fresh _ _ fresh)))

  created_elsewhere :
      (s : JobState) (f : ExecutionState) (k : String)
      → str_eq f.job_id k ≡ false
      → Slot k (created d s f)
  created_elsewhere s f k other =
      Slot-elsewhere d _ k refl (get-put_other d.states _ k _ other) refl
        (append_history_other d.history _ k _ other) (v k)

  -- `CreateExecution` keeps the maps in agreement, whether it writes or refuses.
  pub create_execution-IsConsistent :
      (e : ExecutionState) (now : ℕ) → IsConsistent (settle d (create_execution d e now))
  unfolding with_defaults ExecutionState.id
  create_execution-IsConsistent e now k = elim (create_execution_cases d e now) [
    | inl (x, refused) ↦ rw refused (v k)
    | inr (s, found, fresh, written) ↦ rw written (elim (Bool-cases (str_eq e.job_id k)) [
      | inl this ↦
          subst (λ x. Slot x (created d s (with_defaults e now))) ((eq_iff _ _).0 this)
            (created_here s (with_defaults e now) found fresh)
      | inr other ↦ created_elsewhere s (with_defaults e now) k other
    ])
  ]
