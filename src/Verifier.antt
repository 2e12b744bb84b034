-- ===== src/Verifier.antt =====
-- The deterministic verifier (pkg/verifier: deterministic/verifier.go, utils.go, errors.go). The
-- decrypter is an argument, and so are the orders in which Go goes through the map of the groups.
pub mod Groups
pub mod Arrangement
pub mod Survey
pub mod Majority
pub mod Order
mod Examples
use bacalhau.Base.{
  ℕ, suc, String, Bool, true, false, ◌&&◌, ◌||◌, not, List, [], ◌∷◌, ◌++◌, ltb, ◌==◌, if◌then◌else◌,
  str_eq, length, map, min_int,
}
use bacalhau.Base.Map
use bacalhau.Base.Map.{Map}
use bacalhau.Base.Result.{Result, ok, err}
use bacalhau.Model.ExecutionState
use bacalhau.Model.ExecutionState.{ExecutionState, ExecutionStateType, ExecutionId}
use bacalhau.Requester.World.{VerifierRequest, VerifierResult}

pub data Error : Type 0 where
  insufficient_executions : String → ℕ → ℕ → Error
  mismatching_execution : String → ExecutionId → Error
  invalid_execution_state : ExecutionId → ExecutionStateType → Error

-- The loop of `ValidateExecutions`.
unfoldable pub validate_each : String → List ExecutionState → Result Error (Unit {0})
validate_each id [] = ok tt
validate_each id (e ∷ es) =
    let rest = validate_each id es in
    if not (str_eq e.job_id id)
    then err (mismatching_execution id (ExecutionState.id e))
    else if not (ExecutionState.same e.state ExecutionStateType.result_proposed)
    then err (invalid_execution_state (ExecutionState.id e) e.state)
    else rest

-- `ValidateExecutions`
unfoldable pub validate_executions : VerifierRequest → Result Error (Unit {0})
unfolding validate_each
validate_executions q =
    let min_count = min_int q.deal.confidence q.deal.concurrency in
    if ltb (length q.executions) min_count
    then err (insufficient_executions q.job_id min_count (length q.executions))
    else validate_each q.job_id q.executions

-- The results by the hash that their executions report.
abbrev pub Groups : Type 0
Groups = Map (List VerifierResult)

-- A result that is not verified yet.
abbrev pub unverified : ExecutionState → VerifierResult
unverified e = record { execution_id = ExecutionState.id e; verified = false }

abbrev pub verify_one : VerifierResult → VerifierResult
verify_one r = record r { verified = true }

-- What the loop over the groups has seen: the largest size, its hash, and how many groups have each
-- size (`groupSizeCounts`).
pub record Seen : Type 0 where
  pub largest_group_size : ℕ
  pub largest_group_hash : String
  pub group_size_counts : ℕ → ℕ

-- The loop over the groups.
unfoldable pub survey : Groups → Seen → Seen
survey [] s = s
survey ((hash, group) ∷ groups) s =
    let n = length group in
    let larger = ltb s.largest_group_size n in
    survey groups (record {
      largest_group_size = if larger then n else s.largest_group_size;
      largest_group_hash = if larger then hash else s.largest_group_hash;
      group_size_counts =
          λ m. if m == n then suc (s.group_size_counts m) else s.group_size_counts m;
    })

abbrev pub nothing_seen : Seen
nothing_seen = record {
  largest_group_size = 0;
  largest_group_hash = "";
  group_size_counts = λ m. 0;
}

-- `isVoidResult`
unfoldable pub is_void : ℕ → ℕ → Seen → Bool
is_void group_count confidence s =
    ltb 1 (s.group_size_counts s.largest_group_size)
    || (group_count == 1 && s.largest_group_size == 1)
    || (ltb 0 confidence && ltb s.largest_group_size confidence)
    || str_eq s.largest_group_hash ""

-- The results of all groups; those of the group whose hash passes are verified.
unfoldable pub all_results : (String → Bool) → Groups → List VerifierResult
all_results passes [] = []
all_results passes ((hash, group) ∷ groups) =
    (if passes hash then map verify_one group else group) ++ all_results passes groups

-- The hash whose executions pass, if the result is not void.
unfoldable pub passes : ℕ → Groups → String → Bool
unfolding is_void survey
passes confidence groups hash =
    let s = survey groups nothing_seen in
    not (is_void (length groups) confidence s) && str_eq hash s.largest_group_hash

module _ (decrypt : List ℕ → Result String String) where
  -- The hash that an execution reports; empty where there is none or it does not decrypt.
  unfoldable pub reported_hash : ExecutionState → String
  reported_hash e =
      if ltb 0 (length e.verification_proposal)
      then elim (decrypt e.verification_proposal) [ err _ ↦ "" | ok hash ↦ hash ]
      else ""

  -- One turn of the loop of `getHashGroups`.
  unfoldable pub add_to_group : Groups → ExecutionState → Groups
  unfolding reported_hash Map.put Map.get_or
  add_to_group groups e =
      let hash = reported_hash e in
      Map.put groups hash (Map.get_or groups hash [] ++ unverified e ∷ [])

  -- The loop of `getHashGroups`.
  unfoldable pub hash_groups : Groups → List ExecutionState → Groups
  unfolding add_to_group
  hash_groups groups [] = groups
  hash_groups groups (e ∷ es) = hash_groups (add_to_group groups e) es

  module _ (first_order last_order : Groups → Groups) where
    -- `Verify`: the loops over the groups take them in some order, each in its own.
    unfoldable pub verify : VerifierRequest → Result Error (List VerifierResult)
    unfolding validate_executions hash_groups passes all_results
    verify q = elim (validate_executions q) [
      | err e ↦ err e
      | ok _ ↦
          let groups = hash_groups [] q.executions in
          let wins = passes q.deal.confidence (first_order groups) in
          ok (all_results wins (last_order groups))
    ]
