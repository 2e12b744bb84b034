-- ===== src/JobStore/Stop/Middle.antt =====
-- A job's executions around the one that the loop of `StopJob` has come to (pkg/jobstore/utils.go).
use bacalhau.Base.{String, ◌≡◌, refl, ap, ◌∙◌, List, [], ◌∷◌, ◌++◌, some, false, length}
use bacalhau.Model.ExecutionState
use bacalhau.Model.ExecutionState.{ExecutionState, ExecutionId, same_id_iff}
use bacalhau.JobStore.Executions.{find_execution, set_execution}
use bacalhau.JobStore.Ids.{ids, Fresh, Distinct, Owned, same_id_sym}

module _ (e : ExecutionState) (rest : List ExecutionState) where
  pub find-middle :
      (before : List ExecutionState)
      → Fresh (ExecutionState.id e) (ids before)
      → find_execution (ExecutionState.id e) (before ++ e ∷ rest) ≡ some (length before, e)
  unfolding find_execution
  find-middle [] f =
      rw ((same_id_iff (ExecutionState.id e) (ExecutionState.id e)).1 refl, find_execution)
  find-middle (x ∷ before) f = rw (f.0, find_execution, find-middle before f.1)

  pub set-middle :
      (before : List ExecutionState) (e' : ExecutionState)
      → set_execution (before ++ e ∷ rest) (length before) e' ≡ before ++ e' ∷ rest
  unfolding set_execution
  set-middle [] e' = refl
  set-middle (x ∷ before) e' = ap (λ l. x ∷ l) (set-middle before e')

  pub ids-middle :
      (before : List ExecutionState) (e' : ExecutionState)
      → ExecutionState.id e' ≡ ExecutionState.id e
      → ids (before ++ e' ∷ rest) ≡ ids (before ++ e ∷ rest)
  ids-middle [] e' q = ap (λ i. i ∷ ids rest) q
  ids-middle (x ∷ before) e' q = ap (λ l. ExecutionState.id x ∷ l) (ids-middle before e' q)

  Fresh-later :
      (i : ExecutionId) (xs : List ExecutionState)
      → Fresh i (ids (xs ++ e ∷ rest))
      → ExecutionState.same_id (ExecutionState.id e) i ≡ false
  Fresh-later i [] f = f.0
  Fresh-later i (x ∷ xs) f = Fresh-later i xs f.1

  pub Fresh-middle :
      (before : List ExecutionState)
      → Distinct (ids (before ++ e ∷ rest))
      → Fresh (ExecutionState.id e) (ids before)
  Fresh-middle [] d = tt
  Fresh-middle (x ∷ before) d =
      (same_id_sym _ _ ∙ Fresh-later (ExecutionState.id x) before d.0, Fresh-middle before d.1)

pub Owned-middle :
    (e : ExecutionState) (rest : List ExecutionState) (k : String) (before : List ExecutionState)
    → Owned k (ids (before ++ e ∷ rest))
    → e.job_id ≡ k
unfolding ExecutionState.id
Owned-middle e rest k [] o = o.0
Owned-middle e rest k (x ∷ before) o = Owned-middle e rest k before o.1
