-- ===== src/Model/JobState.antt =====
-- The states of a job, its record and its history (pkg/model/job_state.go, job_state_history.go).
use bacalhau.Base.{ℕ, String, Bool, true, ◌||◌, ◌≡◌, ◌↔◌, Option, List, arith, ◌==◌}
use bacalhau.Model.ExecutionState.{ExecutionStateType, ExecutionState}

pub data JobStateType : Type 0 where
  new in_progress cancelled error completed completed_partially queued : JobStateType

-- The constants' values, by `iota`.
unfoldable pub to_int : JobStateType → ℕ
to_int new = 0
to_int in_progress = 1
to_int cancelled = 2
to_int error = 3
to_int completed = 4
to_int completed_partially = 5
to_int queued = 6

-- `a == b` on the constants.
unfoldable pub same : JobStateType → JobStateType → Bool
unfolding to_int
same a b = to_int a == to_int b

same_sound : (a b : JobStateType) → same a b ≡ true → a ≡ b
unfolding same
same_sound a b h = ground arith

pub same_refl : (a : JobStateType) → same a a ≡ true
unfolding same
same_refl a = ground arith

pub same_iff : (a b : JobStateType) → (same a b ≡ true) ↔ (a ≡ b)
same_iff a b = (same_sound a b, λ e. rw e (same_refl b))

unfoldable pub is_terminal : JobStateType → Bool
unfolding same
is_terminal s = same s completed || same s error || same s cancelled || same s completed_partially

pub record JobState : Type 0 where
  pub job_id : String
  pub executions : List ExecutionState
  pub state : JobStateType
  pub version : ℕ
  pub create_time : ℕ
  pub update_time : ℕ
  pub timeout_at : ℕ

pub record StateChange (S : Type 0) : Type 0 where
  pub previous : S
  pub current : S

pub data JobHistoryType : Type 0 where
  undefined job_level execution_level : JobHistoryType

pub record JobHistory : Type 0 where
  pub type : JobHistoryType
  pub job_id : String
  pub node_id : String
  pub compute_reference : String
  pub job_state : Option (StateChange JobStateType)
  pub execution_state : Option (StateChange ExecutionStateType)
  pub new_version : ℕ
  pub comment : String
  pub time : ℕ
