-- ===== src/Compute/State.antt =====
-- The states of an execution on a compute node, its record and the store's errors
-- (pkg/compute/store: state.go, types.go, errors.go, utils.go).
use bacalhau.Base.{ℕ, String, Bool, ◌||◌, not, ◌≡◌, ◌↔◌, arith, ◌==◌, if◌then◌else◌, true}
use bacalhau.Base.Result.{Result, ok, err}
use bacalhau.Model.Job.{Job}
use bacalhau.Model.ResourceUsage.{ResourceUsageData}

pub data ExecutionState : Type 0 where
  undefined created bid_accepted running waiting_verification result_accepted publishing completed
        failed cancelled :
      ExecutionState

-- The constants' values, by `iota`.
unfoldable pub to_int : ExecutionState → ℕ
to_int undefined = 0
to_int created = 1
to_int bid_accepted = 2
to_int running = 3
to_int waiting_verification = 4
to_int result_accepted = 5
to_int publishing = 6
to_int completed = 7
to_int failed = 8
to_int cancelled = 9

-- `a == b` on the constants.
unfoldable pub same : ExecutionState → ExecutionState → Bool
unfolding to_int
same a b = to_int a == to_int b

same_sound : (a b : ExecutionState) → same a b ≡ true → a ≡ b
unfolding same
same_sound a b h = ground arith

same_refl : (a : ExecutionState) → same a a ≡ true
unfolding same
same_refl a = ground arith

pub same_iff : (a b : ExecutionState) → (same a b ≡ true) ↔ (a ≡ b)
same_iff a b = (same_sound a b, λ e. rw e (same_refl b))

unfoldable pub is_active : ExecutionState → Bool
unfolding same
is_active s =
    same s created
    || same s bid_accepted
    || same s running
    || same s waiting_verification
    || same s result_accepted
    || same s publishing

unfoldable pub is_executing : ExecutionState → Bool
unfolding same
is_executing s =
    same s running || same s waiting_verification || same s result_accepted || same s publishing

unfoldable pub is_terminal : ExecutionState → Bool
unfolding same
is_terminal s = same s completed || same s failed || same s cancelled

pub record Execution : Type 0 where
  pub id : String
  pub job : Job
  pub requester_node_id : String
  pub resource_usage : ResourceUsageData
  pub state : ExecutionState
  pub version : ℕ
  pub create_time : ℕ
  pub update_time : ℕ
  pub latest_comment : String

-- `NewExecution`; `now` and `later` are its two readings of the clock.
unfoldable pub new_execution : String → Job → String → ResourceUsageData → ℕ → ℕ → Execution
new_execution id job requester usage now later = record {
  id = id;
  job = job;
  requester_node_id = requester;
  resource_usage = usage;
  state = created;
  version = 1;
  create_time = now;
  update_time = later;
  latest_comment = "";
}

pub record ExecutionHistory : Type 0 where
  pub execution_id : String
  pub previous_state : ExecutionState
  pub new_state : ExecutionState
  pub new_version : ℕ
  pub comment : String
  pub time : ℕ

pub record UpdateExecutionStateRequest : Type 0 where
  pub execution_id : String
  pub new_state : ExecutionState
  pub expected_state : ExecutionState
  pub expected_version : ℕ
  pub comment : String

pub data Error : Type 0 where
  execution_not_found : String → Error
  executions_not_found_for_job : String → Error
  execution_history_not_found : String → Error
  execution_already_exists : String → Error
  invalid_execution_state : String → ExecutionState → ExecutionState → Error
  invalid_execution_version : String → ℕ → ℕ → Error
  execution_already_terminal : String → ExecutionState → ExecutionState → Error

unfoldable pub validate_new_execution : Execution → Result Error (Unit {0})
unfolding same
validate_new_execution e =
    if not (same e.state created)
    then err (invalid_execution_state e.id e.state created)
    else if not (e.version == 1)
    then err (invalid_execution_version e.id e.version 1)
    else ok tt
