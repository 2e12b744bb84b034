-- ===== src/JobStore/Invariant.antt =====
-- What holds of the in-memory job store between two calls: the four maps agree with one another, and
-- the history of a job records how it came to its state (pkg/jobstore/inmemory/inmemory.go).
pub mod Jobs
pub mod Executions
pub mod Updates
use bacalhau.Base.{
  map, some_eq, subst, All, ℕ, sym, ap, ◌∙◌, length, length-append, zero, suc, ◌+◌, ◌%◌, ◌^◌, ◌≡◌,
  refl, String, List, [], ◌∷◌, ◌++◌, Option, none, some, arith, if◌then◌else◌, eq_iff, Bool, true,
  false,
}
use mathlib.Core.List.{append-nil}
use bacalhau.Base.Map
use bacalhau.Base.Map.{Map, get-put, get-remove}
use bacalhau.Base.Result.{Result, ok, err}
use bacalhau.Model.JobState.{JobStateType, JobState, JobHistory, StateChange, is_terminal}
use bacalhau.Model.Job.{Job}
use bacalhau.Model.Job
use bacalhau.JobStore.Ids.{Owned, Distinct}
use bacalhau.JobStore.History.{Records}
use bacalhau.JobStore.Types.{UpdateJobStateRequest, validate_job}
use bacalhau.Model.ExecutionState.{ExecutionStateType, ExecutionState}
use bacalhau.Model.ExecutionState
use bacalhau.JobStore.Executions.{find_execution}
use bacalhau.JobStore.InMemory.{
  JobStore, create_job, update_job_state, job_entry, execution_entry, updated_state,
}

-- A job is in progress until its state is terminal.
abbrev pub tracking : JobState → Option (Unit {0})
tracking s = if is_terminal s.state then none else some tt

-- What the maps hold under a known key.
pub record Agree (k : String) (j : Job) (s : JobState) (p : Option (Unit {0}))
    (hs : List JobHistory) : Type 0 where
  pub job_key : Job.id j ≡ k
  pub state_key : s.job_id ≡ k
  pub tracked : p ≡ tracking s
  pub recorded : Records hs s
  pub owned : Owned k (map ExecutionState.id s.executions)
  pub distinct : Distinct (map ExecutionState.id s.executions)

-- A key is known to all of the maps `jobs`, `states` and `history`, or to none of the four.
pub data Slot (k : String) (d : JobStore) : Type 0 where
  unknown :
      Map.get d.jobs k ≡ none
      → Map.get d.states k ≡ none
      → Map.get d.inprogress k ≡ none
      → Map.get d.history k ≡ none
      → Slot k d
  known :
      (j : Job) (s : JobState) (hs : List JobHistory)
      → Map.get d.jobs k ≡ some j
      → Map.get d.states k ≡ some s
      → Map.get d.history k ≡ some hs
      → Agree k j s (Map.get d.inprogress k) hs
      → Slot k d

-- The maps of the store agree at every key.
abbrev pub IsConsistent : JobStore → Type 0
IsConsistent d = (k : String) → Slot k d

module _ (d d' : JobStore) (k : String) where
  -- A call that leaves a key alone keeps what the maps hold under it.
  pub Slot-elsewhere :
      Map.get d'.jobs k ≡ Map.get d.jobs k
      → Map.get d'.states k ≡ Map.get d.states k
      → Map.get d'.inprogress k ≡ Map.get d.inprogress k
      → Map.get d'.history k ≡ Map.get d.history k
      → Slot k d
      → Slot k d'
  Slot-elsewhere a b c e (unknown j s p h) = unknown (a ∙ j) (b ∙ s) (c ∙ p) (e ∙ h)
  Slot-elsewhere a b c e (known j s hs ej es eh g) =
      known j s hs (a ∙ ej) (b ∙ es) (e ∙ eh) (rw c g)

-- What is known under the key of a stored state.
pub known_state :
    (d : JobStore) (k : String) (s : JobState)
    → Slot k d
    → Map.get d.states k ≡ some s
    → (j : Job) × (hs : List JobHistory) × (Map.get d.jobs k ≡ some j)
      × (Map.get d.history k ≡ some hs)
      × Agree k j s (Map.get d.inprogress k) hs
known_state d k s (unknown a b c e) h = absurd (cc)
known_state d k s (known j t hs ej es eh g) h =
    (j, hs, ej, eh, subst (λ x. Agree k j x (Map.get d.inprogress k) hs) (some_eq (sym es ∙ h)) g)

-- A job that is not stored has no state.
pub unknown_state :
    (d : JobStore) (k : String) → Slot k d → Map.get d.jobs k ≡ none → Map.get d.states k ≡ none
unknown_state d k (unknown a b c e) h = b
unknown_state d k (known j s hs a b c e) h = absurd (cc)
