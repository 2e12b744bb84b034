-- ===== src/JobStore/History.antt =====
-- A job's history and the state that it tells (pkg/jobstore/inmemory/inmemory.go,
-- pkg/model/job_state_history.go).
use bacalhau.Base.{
  str_eq, ℕ, sym, ◌∙◌, length, length-append, ◌%◌, ◌^◌, ◌≡◌, refl, String, List, [], ◌∷◌, ◌++◌,
  none, some, arith, false,
}
use mathlib.Core.List.{append-nil}
use bacalhau.Base.Map
use bacalhau.Base.Map.{Map, get-put, get-remove}
use bacalhau.Model.JobState.{JobStateType, JobState, JobHistory, StateChange}
use bacalhau.Model.ExecutionState.{ExecutionStateType, ExecutionState}
use bacalhau.JobStore.InMemory.{job_entry, execution_entry, updated_state, append_history}

-- The changes of the job's state, in the order of its job-level entries.
abbrev pub changes : List JobHistory → List (StateChange JobStateType)
changes [] = []
changes (h ∷ hs) = elim h.job_state [ none ↦ changes hs | some c ↦ c ∷ changes hs ]

-- Each change starts where the one before it ended.
abbrev pub Linked : JobStateType → List (StateChange JobStateType) → Type 0
Linked s [] = Unit
Linked s (c ∷ cs) = (c.previous ≡ s) × Linked c.current cs

-- The state that the changes lead to.
abbrev pub replay : JobStateType → List (StateChange JobStateType) → JobStateType
replay s [] = s
replay s (c ∷ cs) = replay c.current cs

-- A history that tells how the state and the version came about.
pub record Records (hs : List JobHistory) (s : JobState) : Type 0 where
  pub linked : Linked JobStateType.new (changes hs)
  pub replayed : replay JobStateType.new (changes hs) ≡ s.state
  pub counted : s.version ≡ length (changes hs) % 2 ^ 64

pub Linked-append :
    (s : JobStateType) (cs : List (StateChange JobStateType)) (c : StateChange JobStateType)
    → Linked s cs
    → c.previous ≡ replay s cs
    → Linked s (cs ++ c ∷ [])
Linked-append s [] c l p = (p, tt)
Linked-append s (x ∷ cs) c l p = (l.0, Linked-append x.current cs c l.1 p)

replay-append :
    (s : JobStateType) (cs : List (StateChange JobStateType)) (c : StateChange JobStateType)
    → replay s (cs ++ c ∷ []) ≡ c.current
replay-append s [] c = refl
replay-append s (x ∷ cs) c = replay-append x.current cs c

changes-append : (hs gs : List JobHistory) → changes (hs ++ gs) ≡ changes hs ++ changes gs
changes-append [] gs = refl
changes-append (h ∷ hs) gs = ground (arith, changes-append hs gs)

module _ (hs : List JobHistory) (s : JobState) (r : Records hs s) where
  -- A granted update extends a history that records the state to one that records the new state.
  pub Records-job_entry :
      (new_state : JobStateType) (now : ℕ) (comment : String)
      → Records
          (hs ++ job_entry (updated_state s new_state now) s.state comment ∷ [])
          (updated_state s new_state now)
  unfolding job_entry updated_state
  Records-job_entry new_state now comment =
      let c : StateChange JobStateType = record { previous = s.state; current = new_state } in
      let e = changes-append hs (job_entry (updated_state s new_state now) s.state comment ∷ []) in
      record {
        linked = rw e (Linked-append _ (changes hs) c r.linked (sym r.replayed));
        replayed = rw e (replay-append _ (changes hs) c);
        counted = rw e (omega (arith, length-append (changes hs) (c ∷ []), r.counted));
      }

  -- An entry about an execution leaves the job's record as it was.
  pub Records-execution_entry :
      (e : ExecutionState) (previous : ExecutionStateType) (comment : String)
      → Records (hs ++ execution_entry e previous comment ∷ []) s
  unfolding execution_entry
  Records-execution_entry e previous comment =
      let q =
        changes-append hs (execution_entry e previous comment ∷ []) ∙ append-nil (changes hs) in
      record { linked = rw q r.linked; replayed = rw q r.replayed; counted = rw q r.counted }

-- Appending to one history leaves the others alone.
pub append_history_other :
    (h : Map (List JobHistory)) (i k : String) (entry : JobHistory)
    → str_eq i k ≡ false
    → Map.get (append_history h i entry) k ≡ Map.get h k
unfolding append_history
append_history_other h i k entry other = Map.get-put_other h i k _ other

-- The entry comes last in the history that it is appended to.
pub append_history_here :
    (h : Map (List JobHistory)) {i k : String} (hs : List JobHistory) (entry : JobHistory)
    → i ≡ k
    → Map.get_or h k [] ≡ hs
    → Map.get (append_history h i entry) k ≡ some (hs ++ entry ∷ [])
unfolding append_history
append_history_here h {i} {k} hs entry same e =
    rw (same, ← e) (Map.get-put_self h k (Map.get_or h k [] ++ entry ∷ []))

pub get_or_found :
    (h : Map (List JobHistory)) (k : String) (hs : List JobHistory)
    → Map.get h k ≡ some hs
    → Map.get_or h k [] ≡ hs
unfolding Map.get_or
get_or_found h k hs e = rw (e, Map.get_or)
