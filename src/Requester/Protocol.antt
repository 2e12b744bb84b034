-- ===== src/Requester/Protocol.antt =====
-- What the scheduler may do to the job store: the lifecycle of an execution, and calls of the store
-- that keep to it (pkg/model/execution_state.go, pkg/requester/scheduler.go).
pub mod Requests
pub mod Executions
pub mod Transitions
pub mod Callbacks
pub mod Admissions
pub mod Entries
pub mod Lifecycle
use bacalhau.Base.{
  ℕ, ◌≡◌, refl, ◌∙◌, sym, subst, ap, Bool, true, false, ◌||◌, not, List, [], ◌∷◌, ◌++◌, All, inl,
  inr, arith,
}
use bacalhau.Base.Result.{Result, ok, err, Result-cases}
use bacalhau.Model.ExecutionState
use bacalhau.Model.ExecutionState.{ExecutionState, ExecutionStateType}
use bacalhau.JobStore.Types.{
  Error, UpdateExecutionRequest, UpdateJobStateRequest, validate_execution,
}
use bacalhau.Model.Job.{Job}
use bacalhau.JobStore.InMemory.{JobStore, create_job, update_job_state}
use bacalhau.JobStore.Executions.{Merge, create_execution, update_execution}
use bacalhau.JobStore.Invariant.Jobs.{settle}
use bacalhau.JobStore.Invariant.Updates.{KeepsId}
use bacalhau.JobStore.Runs.{
  Call, creates_job, updates_job, creates_execution, updates_execution, call, run, IsAdmissible,
}

-- A failure or a cancellation.
unfoldable pub ends : ExecutionStateType → Bool
unfolding ExecutionState.same
ends s =
    ExecutionState.same s ExecutionStateType.failed
    || ExecutionState.same s ExecutionStateType.canceled

-- The lifecycle: what may follow on a state.
unfoldable pub follows : ExecutionStateType → ExecutionStateType → Bool
unfolding ends ExecutionState.same
follows ExecutionStateType.new t = ends t
follows ExecutionStateType.ask_for_bid t =
    ExecutionState.same t ExecutionStateType.ask_for_bid_accepted
    || ExecutionState.same t ExecutionStateType.ask_for_bid_rejected
    || ends t
follows ExecutionStateType.ask_for_bid_accepted t =
    ExecutionState.same t ExecutionStateType.bid_accepted
    || ExecutionState.same t ExecutionStateType.bid_rejected
    || ends t
follows ExecutionStateType.bid_accepted t =
    ExecutionState.same t ExecutionStateType.result_proposed || ends t
follows ExecutionStateType.result_proposed t =
    ExecutionState.same t ExecutionStateType.result_accepted
    || ExecutionState.same t ExecutionStateType.result_rejected
    || ends t
follows ExecutionStateType.result_accepted t =
    ExecutionState.same t ExecutionStateType.completed || ends t
follows ExecutionStateType.ask_for_bid_rejected t = false
follows ExecutionStateType.bid_rejected t = false
follows ExecutionStateType.result_rejected t = false
follows ExecutionStateType.completed t = false
follows ExecutionStateType.failed t = false
follows ExecutionStateType.canceled t = false

-- Every live execution that the condition admits may go to the new state.
abbrev pub Moves : UpdateExecutionRequest → Type 0
Moves r =
    (x : ExecutionState)
    → validate_execution r.condition x ≡ ok tt
    → ExecutionState.is_terminal x.state ≡ false
    → follows x.state r.new_values.state ≡ true

-- A call that keeps to the lifecycle: an execution starts as one that is asked for a bid, an update
-- of an execution does not rename it and moves it on.
abbrev pub IsOrderly : Call → Type 0
IsOrderly (creates_job job created updated) = Unit
IsOrderly (updates_job r now) = Unit
IsOrderly (creates_execution e now) = e.state ≡ ExecutionStateType.ask_for_bid
IsOrderly (updates_execution r now) = KeepsId r × Moves r

pub orderly-IsAdmissible : (c : Call) → IsOrderly c → IsAdmissible c
orderly-IsAdmissible (creates_job job created updated) o = tt
orderly-IsAdmissible (updates_job r now) o = tt
orderly-IsAdmissible (creates_execution e now) o = tt
orderly-IsAdmissible (updates_execution r now) o = o.0

pub orderly_run-IsAdmissible : (cs : List Call) → All IsOrderly cs → All IsAdmissible cs
orderly_run-IsAdmissible [] o = tt
orderly_run-IsAdmissible (c ∷ cs) o = (orderly-IsAdmissible c o.0, orderly_run-IsAdmissible cs o.1)

-- A call that does not propose a result.
abbrev pub IsCalm : Call → Type 0
IsCalm (creates_job job created updated) = Unit
IsCalm (updates_job r now) = Unit
IsCalm (creates_execution e now) = Unit
IsCalm (updates_execution r now) =
    ExecutionState.same r.new_values.state ExecutionStateType.result_proposed ≡ false

abbrev pub IsQuiet : Call → Type 0
IsQuiet c = IsOrderly c × IsCalm c

-- One store comes from another by calls of a kind.
abbrev pub ReachesBy : (Call → Type 0) → Merge → JobStore → JobStore → Type 0
ReachesBy P merge d d' = (cs : List Call) × All P cs × (run merge d cs ≡ d')

abbrev pub Reaches : Merge → JobStore → JobStore → Type 0
Reaches = ReachesBy IsOrderly

abbrev pub Advances : Merge → JobStore → JobStore → Type 0
Advances = ReachesBy IsQuiet

pub quiet_run-IsOrderly : (cs : List Call) → All IsQuiet cs → All IsOrderly cs
quiet_run-IsOrderly [] q = tt
quiet_run-IsOrderly (c ∷ cs) q = (q.0.0, quiet_run-IsOrderly cs q.1)

pub Advances-Reaches : (merge : Merge) (d d' : JobStore) → Advances merge d d' → Reaches merge d d'
Advances-Reaches merge d d' (cs, q, e) = (cs, quiet_run-IsOrderly cs q, e)

module _ (P : Call → Type 0) (merge : Merge) where
  run-append :
      (d : JobStore) (cs es : List Call) → run merge d (cs ++ es) ≡ run merge (run merge d cs) es
  unfolding run
  run-append d [] es = refl
  run-append d (c ∷ cs) es = run-append (settle d (call merge d c)) cs es

  both : (cs es : List Call) → All P cs → All P es → All P (cs ++ es)
  both [] es o p = p
  both (c ∷ cs) es o p = (o.0, both cs es o.1 p)

  pub stays : (d : JobStore) → ReachesBy P merge d d
  unfolding run
  stays d = ([], tt, refl)

  pub then_reaches :
      (a b c : JobStore) → ReachesBy P merge a b → ReachesBy P merge b c → ReachesBy P merge a c
  then_reaches a b c (cs, o, p) (es, q, r) =
      (cs ++ es, both cs es o q, run-append a cs es ∙ ap (λ d. run merge d es) p ∙ r)

  -- A granted call is a run of one call.
  granted : (d d' : JobStore) (c : Call) → P c → call merge d c ≡ ok d' → ReachesBy P merge d d'
  unfolding run
  granted d d' c o g = (c ∷ [], (o, tt), ap (settle d) g)

  pub granted_update :
      (d d' : JobStore) (r : UpdateExecutionRequest) (now : ℕ)
      → P (updates_execution r now)
      → update_execution merge d r now ≡ ok d'
      → ReachesBy P merge d d'
  unfolding call
  granted_update d d' r now p g = granted d d' (updates_execution r now) p g

  pub granted_creation :
      (d d' : JobStore) (e : ExecutionState) (now : ℕ)
      → P (creates_execution e now)
      → create_execution d e now ≡ ok d'
      → ReachesBy P merge d d'
  unfolding call
  granted_creation d d' e now p g = granted d d' (creates_execution e now) p g

  pub granted_job_update :
      (d d' : JobStore) (r : UpdateJobStateRequest) (now : ℕ)
      → P (updates_job r now)
      → update_job_state d r now ≡ ok d'
      → ReachesBy P merge d d'
  unfolding call
  granted_job_update d d' r now p g = granted d d' (updates_job r now) p g

  pub granted_job :
      (d d' : JobStore) (job : Job) (created updated : ℕ)
      → P (creates_job job created updated)
      → create_job d job created updated ≡ ok d'
      → ReachesBy P merge d d'
  unfolding call
  granted_job d d' job created updated p g = granted d d' (creates_job job created updated) p g
