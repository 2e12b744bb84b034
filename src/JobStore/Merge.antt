-- ===== src/JobStore/Merge.antt =====
-- What the store relies on of `mergo.Merge(&dst, src)`, which is not in the repository: a field of
-- `dst` that has its zero value takes the value of `src`, and any other field stays. A `time.Time`
-- always stays: it is a struct without exported fields, which mergo leaves to transformers.
use bacalhau.Base.{ℕ, ◌≡◌, String, ◌||◌, ◌==◌, str_eq, if◌then◌else◌}
use bacalhau.Base.Result.{ok}
use bacalhau.Model.ExecutionState.{ExecutionState, ExecutionStateType, same}
use bacalhau.JobStore.Executions.{Merge}

abbrev pub filled_text : String → String → String
filled_text dst src = if str_eq dst "" then src else dst

abbrev pub filled_number : ℕ → ℕ → ℕ
filled_number dst src = if dst == 0 then src else dst

abbrev pub filled_state : ExecutionStateType → ExecutionStateType → ExecutionStateType
filled_state dst src = if same dst ExecutionStateType.new then src else dst

pub record IsFilled (dst src e : ExecutionState) : Type 0 where
  pub job_id : e.job_id ≡ filled_text dst.job_id src.job_id
  pub node_id : e.node_id ≡ filled_text dst.node_id src.node_id
  pub compute_reference :
      e.compute_reference ≡ filled_text dst.compute_reference src.compute_reference
  pub state : e.state ≡ filled_state dst.state src.state
  pub accepted : e.accepted_ask_for_bid ≡ (dst.accepted_ask_for_bid || src.accepted_ask_for_bid)
  pub version : e.version ≡ filled_number dst.version src.version
  pub create_time : e.create_time ≡ dst.create_time
  pub update_time : e.update_time ≡ dst.update_time

-- Merging two values of one struct type succeeds, and fills.
abbrev pub Fills : Merge → Type 0
Fills merge =
    (dst src : ExecutionState) → (e : ExecutionState) × (merge dst src ≡ ok e) × IsFilled dst src e
