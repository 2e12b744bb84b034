-- ===== src/JobStore/Stop/Effect.antt =====
-- What `StopJob` does (pkg/jobstore/utils.go).
use mathlib.Core.List.{append_assoc, append-nil}
use bacalhau.Base.{
  some_eq, ℕ, suc, ◌≡◌, refl, sym, ap, subst, ◌∙◌, List, [], ◌∷◌, ◌++◌, some, none, arith, true,
  false, length, All, String, if◌then◌else◌, Bool, eq_iff, Bool-cases, inl, inr, ◌⊎◌,
}
use bacalhau.Base.Map
use bacalhau.Base.Result.{ok, err}
use bacalhau.Model.ExecutionState
use bacalhau.Model.ExecutionState.{
  ExecutionState, ExecutionStateType, ExecutionId, failed, completed, canceled,
}
use bacalhau.Model.JobState
use bacalhau.Model.JobState.{JobState, JobStateType}
use bacalhau.JobStore.Types.{
  Error, validate_execution, execution_state_among, validate_job, job_state_among,
}
use bacalhau.JobStore.InMemory.{JobStore, update_job_state, write_job_state, updated_state}
use bacalhau.JobStore.Executions.{
  Merge, set_execution, update_execution, update_defaults, write_execution,
}
use bacalhau.JobStore.Queries.{get_job_state}
use bacalhau.JobStore.Merge.{Fills, IsFilled}
use bacalhau.JobStore.Ids.{ids, Distinct, Owned, All-append}
use bacalhau.JobStore.Invariant.{IsConsistent, known_state}
use bacalhau.JobStore.Invariant.Jobs.{update_job_state_cases}
use bacalhau.JobStore.Stop.{only_state, stop_request, cancel_request, cancel_all, stop_job}
use bacalhau.JobStore.Stop.Middle.{find-middle, set-middle, ids-middle, Fresh-middle, Owned-middle}

-- The executions that are not terminal.
abbrev pub live : List ExecutionState → List ExecutionState
live [] = []
live (e ∷ es) = if ExecutionState.is_terminal e.state then live es else e ∷ live es

abbrev pub AllTerminal : List ExecutionState → Type 0
AllTerminal = All (λ e. ExecutionState.is_terminal e.state ≡ true)

cancel_valid :
    (e : ExecutionState) (reason : String)
    → ExecutionState.is_terminal e.state ≡ false
    → validate_execution (cancel_request e reason).condition e ≡ ok tt
unfolding cancel_request validate_execution execution_state_among ExecutionState.is_terminal
    ExecutionState.same
cancel_valid e reason h = ground arith

-- The merged value keeps the ID and is cancelled.
cancelled_value :
    (e f : ExecutionState) (reason : String) (now : ℕ)
    → IsFilled (update_defaults (only_state canceled reason) e now) e f
    → (ExecutionState.id f ≡ ExecutionState.id e) × (f.state ≡ canceled)
unfolding update_defaults only_state ExecutionState.id ExecutionState.same
cancelled_value e f reason now g = (
  λ i. record { job_id = g.job_id i; node_id = g.node_id i; execution_id = g.compute_reference i },
  g.state,
)

-- What the loop knows of the store: the job's executions, and that their IDs are the job's and
-- distinct.
abbrev pub Holds : JobStore → String → JobState → List ExecutionState → Type 0
Holds d k s es =
    (Map.get d.states k ≡ some (record s { executions = es }))
    × Owned k (ids es)
    × Distinct (ids es)

module _ (merge : Merge) (fills : Fills merge) (k : String) (s : JobState) (reason : String) where
  -- The loop's update of a live execution is granted.
  cancel_granted :
      (d : JobStore) (before : List ExecutionState) (e : ExecutionState)
      (rest : List ExecutionState) (now : ℕ)
      → Holds d k s (before ++ e ∷ rest)
      → ExecutionState.is_terminal e.state ≡ false
      → (d' : JobStore) × (f : ExecutionState) × (update_execution merge d
            (cancel_request e reason)
            now
          ≡ ok d')
        × (f.state ≡ canceled)
        × Holds d' k s (before ++ f ∷ rest)
  unfolding update_execution write_execution cancel_request ExecutionState.id
  cancel_granted d before e rest now (at, owned, distinct) running =
      let all = before ++ e ∷ rest in
      let (f, merged, g) = fills (update_defaults (only_state canceled reason) e now) e in
      let (same, stopped) = cancelled_value e f reason now g in
      let mine : e.job_id ≡ k = Owned-middle e rest k before owned in
      let at' : Map.get d.states e.job_id ≡ some (record s { executions = all }) =
        ap (Map.get d.states) mine ∙ at in
      let there = find-middle e rest before (Fresh-middle e rest before distinct) in
      let kept : ids (before ++ f ∷ rest) ≡ ids all = ids-middle e rest before f same in
      let t = record s { executions = set_execution all (length before) f } in
      (
        write_execution d (record s { executions = all }) (length before) e f
            (cancel_request e reason),
        f,
        rw (at', update_execution, there, cancel_valid e reason running, running, merged),
        stopped,
        (
          Map.get-put_same _ f.job_id k t ((eq_iff _ _).1 (ap (λ i. i.job_id) same ∙ mine))
              ∙ ap (λ es. some (record s { executions = es })) (set-middle e rest before f),
          subst (Owned k) (sym kept) owned,
          subst Distinct (sym kept) distinct,
        ),
      )

  -- The loop leaves every execution terminal, and returns those that were not.
  pub cancel_all_effect :
      (d : JobStore) (before es : List ExecutionState) (clock : ℕ → ℕ)
      → Holds d k s (before ++ es)
      → AllTerminal before
      → ((fs : List ExecutionState) × Holds (cancel_all merge d es reason clock).0 k s fs
          × AllTerminal fs)
        × ((cancel_all merge d es reason clock).1 ≡ live es)
  unfolding cancel_all
  cancel_all_effect d before [] clock h over =
      ((before, subst (Holds d k s) (append-nil before) h, over), refl)
  cancel_all_effect d before (e ∷ es) clock h over =
      elim (Bool-cases (ExecutionState.is_terminal e.state)) [
        | inl done ↦
            rw (done, cancel_all)
              (cancel_all_effect d (before ++ e ∷ []) es (λ n. clock (suc n))
                (subst (Holds d k s) (sym (append_assoc before (e ∷ []) es)) h)
                (All-append _ before (e ∷ []) over (done, tt)))
        | inr running ↦
            let (d', f, granted, stopped, h') = cancel_granted d before e es (clock 0) h running in
            let over' : ExecutionState.is_terminal f.state ≡ true =
              unfold ExecutionState.is_terminal ExecutionState.same in rw stopped in
            let next =
              cancel_all_effect d' (before ++ f ∷ []) es (λ n. clock (suc n))
                (subst (Holds d' k s) (sym (append_assoc before (f ∷ []) es)) h')
                (All-append _ before (f ∷ []) over (over', tt)) in
            rw (running, cancel_all, granted) (next.0, ap (λ l. e ∷ l) next.1)
      ]

abbrev pub stopped_state : Bool → JobStateType
stopped_state user_requested = if user_requested then JobStateType.cancelled else JobStateType.error

stop_valid :
    (k reason : String) (user_requested : Bool) (s : JobState)
    → JobState.is_terminal s.state ≡ false
    → validate_job (stop_request k reason user_requested).condition s ≡ ok tt
unfolding stop_request validate_job job_state_among JobState.is_terminal JobState.same
stop_valid k reason user_requested s h = ground arith

module _ (merge : Merge) (fills : Fills merge) (d : JobStore) (v : IsConsistent d)
    (k reason : String) (user_requested : Bool) (clock : ℕ → ℕ) where
  -- Stopping a stored job that is not terminal succeeds and returns the executions that were live.
  -- The job is then cancelled (at a user's request) or failed (otherwise), at the next version, and
  -- all its executions are terminal.
  pub stop_job_effect :
      (s : JobState)
      → Map.get d.states k ≡ some s
      → JobState.is_terminal s.state ≡ false
      → ((stop_job merge d k reason user_requested clock).1 ≡ ok (live s.executions))
        × ((fs : List ExecutionState) × Holds
              (stop_job merge d k reason user_requested clock).0
              k
              (updated_state s (stopped_state user_requested) (clock 0))
              fs
            × AllTerminal fs)
  unfolding stop_job update_job_state write_job_state stop_request get_job_state
  stop_job_effect s found running =
      let (j, hs, ej, eh, g) = known_state d k s (v k) found in
      let r = stop_request k reason user_requested in
      let d1 = write_job_state d s r (clock 0) in
      let t = updated_state s (stopped_state user_requested) (clock 0) in
      let granted : update_job_state d r (clock 0) ≡ ok d1 =
        rw (found, update_job_state, stop_valid k reason user_requested s running, running) in
      let at : Map.get d1.states k ≡ some t = Map.get-put_self d.states k t in
      let (loop, listed) =
        cancel_all_effect merge fills k t reason d1 [] s.executions (λ n. clock (suc n))
          (at, g.owned, g.distinct) tt in
      rw (granted, stop_job, at) (ap ok listed, loop)

  -- Otherwise it fails and changes nothing.
  pub stop_job_refused :
      (Map.get d.states k ≡ none)
        ⊎ ((s : JobState) × (Map.get d.states k ≡ some s) × (JobState.is_terminal s.state ≡ true))
      → (e : Error) × (stop_job merge d k reason user_requested clock ≡ (d, err e))
  unfolding stop_job stop_request
  stop_job_refused h =
      elim (update_job_state_cases d (stop_request k reason user_requested) (clock 0)) [
        | inl (e, refused) ↦ (e, rw (refused, stop_job))
        | inr (s, found, _, running, _) ↦ elim h [
          | inl missing ↦ absurd (cc (sym missing ∙ found))
          | inr (t, at, over) ↦
              absurd (cc (ap (λ x. JobState.is_terminal x.state) (some_eq (sym at ∙ found))))
        ]
      ]
