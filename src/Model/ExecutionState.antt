-- ===== src/Model/ExecutionState.antt =====
-- The states of an execution and its record (pkg/model/execution_state.go).
use bacalhau.Base.{
  ℕ, String, Bool, true, ◌&&◌, ◌||◌, ◌≡◌, ◌↔◌, Option, List, arith, ◌==◌, str_eq, eq_iff,
}

pub data ExecutionStateType : Type 0 where
  new ask_for_bid ask_for_bid_accepted ask_for_bid_rejected bid_accepted bid_rejected
        result_proposed result_accepted result_rejected completed failed canceled :
      ExecutionStateType

-- The constants' values, by `iota`.
unfoldable pub to_int : ExecutionStateType → ℕ
to_int new = 0
to_int ask_for_bid = 1
to_int ask_for_bid_accepted = 2
to_int ask_for_bid_rejected = 3
to_int bid_accepted = 4
to_int bid_rejected = 5
to_int result_proposed = 6
to_int result_accepted = 7
to_int result_rejected = 8
to_int completed = 9
to_int failed = 10
to_int canceled = 11

-- `a == b` on the constants.
unfoldable pub same : ExecutionStateType → ExecutionStateType → Bool
unfolding to_int
same a b = to_int a == to_int b

same_sound : (a b : ExecutionStateType) → same a b ≡ true → a ≡ b
unfolding same
same_sound a b h = ground arith

pub same_refl : (a : ExecutionStateType) → same a a ≡ true
unfolding same
same_refl a = ground arith

pub same_iff : (a b : ExecutionStateType) → (same a b ≡ true) ↔ (a ≡ b)
same_iff a b = (same_sound a b, λ e. rw e (same_refl b))

unfoldable pub is_discarded : ExecutionStateType → Bool
unfolding same
is_discarded s =
    same s ask_for_bid_rejected
    || same s bid_rejected
    || same s result_rejected
    || same s canceled
    || same s failed

unfoldable pub is_active : ExecutionStateType → Bool
unfolding same
is_active s =
    same s bid_accepted || same s result_proposed || same s result_accepted || same s completed

unfoldable pub is_terminal : ExecutionStateType → Bool
unfolding is_discarded
is_terminal s = is_discarded s || same s completed

pub record ExecutionId : Type 0 where
  pub job_id : String
  pub node_id : String
  pub execution_id : String

-- `==` on two such structs compares them field by field.
unfoldable pub same_id : ExecutionId → ExecutionId → Bool
same_id a b =
    str_eq a.job_id b.job_id && str_eq a.node_id b.node_id && str_eq a.execution_id b.execution_id

pub same_id_iff : (a b : ExecutionId) → (same_id a b ≡ true) ↔ (a ≡ b)
unfolding same_id
same_id_iff a b = ground (
  arith,
  eq_iff a.job_id b.job_id,
  eq_iff a.node_id b.node_id,
  eq_iff a.execution_id b.execution_id,
)

pub record VerificationResult : Type 0 where
  pub complete : Bool
  pub result : Bool

-- `PublishedResult` and `RunOutput` are carried by name. Times are nanoseconds since Go's zero time.
pub record ExecutionState : Type 0 where
  pub job_id : String
  pub node_id : String
  pub compute_reference : String
  pub state : ExecutionStateType
  pub accepted_ask_for_bid : Bool
  pub status : String
  pub verification_proposal : List ℕ
  pub verification_result : VerificationResult
  pub published_result : String
  pub run_output : Option String
  pub version : ℕ
  pub create_time : ℕ
  pub update_time : ℕ

unfoldable pub id : ExecutionState → ExecutionId
id e = record { job_id = e.job_id; node_id = e.node_id; execution_id = e.compute_reference }

unfoldable pub has_accepted_ask_for_bid : ExecutionState → Bool
has_accepted_ask_for_bid e = e.accepted_ask_for_bid
