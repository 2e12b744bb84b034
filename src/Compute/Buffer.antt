-- ===== src/Compute/Buffer.antt =====
-- The compute node's queue of executions (pkg/compute/executor_buffer.go). Every method runs under
-- the buffer's mutex; the delegate's work, and the wait for it or for the timeout, lie between
-- `deque`, which starts a goroutine per task, and `finish`. A callback on an error, the spans and the
-- contexts are left out. The clock's readings are arguments.
pub mod Queue
mod Order
mod Examples
use bacalhau.Base.{
  ℕ, ◌+◌, String, Bool, true, false, ◌&&◌, not, List, [], ◌∷◌, ◌++◌, Option, none, some, ltb, ◌==◌,
  length, if◌then◌else◌,
}
use bacalhau.Base.Map
use bacalhau.Base.Map.{Map}
use bacalhau.Base.Result.{Result, ok, err}
use bacalhau.Model.ResourceUsage.{Float, ResourceUsageData}
use bacalhau.Compute.State.{Execution}
use bacalhau.Compute.Capacity.{
  LocalTracker, is_within_limits, has_capacity, add_if_has_capacity, remove,
}

pub record BufferTask : Type 0 where
  pub execution : Execution
  pub enqueued_at : ℕ

-- `started` lists the tasks whose goroutine has been started, in the order of the starts.
pub record ExecutorBuffer : Type 0 where
  pub running_capacity : LocalTracker
  pub enqueued_capacity : LocalTracker
  pub running : Map BufferTask
  pub enqueued : Map BufferTask
  pub enqueued_list : List String
  pub backoff_duration : ℕ
  pub backoff_until : ℕ
  pub started : List BufferTask

-- Why `Run` refuses an execution.
pub data Refusal : Type 0 where
  over_limits : Refusal
  already_enqueued : String → Refusal
  already_running : String → Refusal
  no_capacity : Refusal

module _ (f : Float) where
  -- The turn of `deque`'s loop that starts the task.
  unfoldable pub start : ExecutorBuffer → String → BufferTask → ExecutorBuffer
  unfolding add_if_has_capacity remove
  start b id t = record b {
    running_capacity = add_if_has_capacity f b.running_capacity t.execution.resource_usage;
    enqueued_capacity = remove f b.enqueued_capacity t.execution.resource_usage;
    enqueued = Map.remove b.enqueued id;
    running = Map.put b.running id t;
    started = b.started ++ t ∷ [];
  }

  -- The loop of `deque`, with the list of those that remain; `none` is the panic on a listed ID that
  -- has no task.
  unfoldable pub deque_loop : ExecutorBuffer → List String → Option (ExecutorBuffer × List String)
  deque_loop b [] = some (b, [])
  deque_loop b (id ∷ ids) = elim (Map.get b.enqueued id) [
    | none ↦ none
    | some t ↦
        let fits = has_capacity f b.running_capacity t.execution.resource_usage in
        let rest = deque_loop (if fits then start b id t else b) ids in
        elim rest [
          | none ↦ none
          | some (c, remaining) ↦ some (c, if fits then remaining else id ∷ remaining)
        ]
  ]

  -- `deque`; `now` and `later` are its two readings of the clock.
  unfoldable pub deque : ExecutorBuffer → ℕ → ℕ → Option ExecutorBuffer
  deque b now later =
      if not (length b.running == 0) && ltb now b.backoff_until
      then some b
      else elim (deque_loop b b.enqueued_list) [
        | none ↦ none
        | some (c, remaining) ↦
            some
              (record c { enqueued_list = remaining; backoff_until = later + c.backoff_duration })
      ]

  -- The buffer with one more task in its queue.
  unfoldable pub enqueue : ExecutorBuffer → Execution → ℕ → ExecutorBuffer
  unfolding add_if_has_capacity
  enqueue b e at = record b {
    enqueued_capacity = add_if_has_capacity f b.enqueued_capacity e.resource_usage;
    enqueued = Map.put b.enqueued e.id (record { execution = e; enqueued_at = at });
    enqueued_list = b.enqueued_list ++ e.id ∷ [];
  }

  -- `Run`: a refusal, or the buffer after `deque`.
  unfoldable pub run :
      ExecutorBuffer → Execution → ℕ → ℕ → ℕ → Result Refusal (Option ExecutorBuffer)
  run b e at now later =
      if not (is_within_limits f b.running_capacity e.resource_usage)
      then err over_limits
      else elim (Map.get b.enqueued e.id) [
        | some _ ↦ err (already_enqueued e.id)
        | none ↦ elim (Map.get b.running e.id) [
          | some _ ↦ err (already_running e.id)
          | none ↦
              if has_capacity f b.enqueued_capacity e.resource_usage
              then ok (deque (enqueue b e at) now later)
              else err no_capacity
        ]
      ]

  -- The end of `doRun`, after the delegate's answer or the timeout.
  unfoldable pub finish : ExecutorBuffer → BufferTask → ℕ → ℕ → Option ExecutorBuffer
  finish b t now later =
      deque
        (record b {
          running_capacity = remove f b.running_capacity t.execution.resource_usage;
          running = Map.remove b.running t.execution.id;
        })
        now later

-- The end of `Cancel`'s goroutine, after the delegate has cancelled without an error.
unfoldable pub cancel : ExecutorBuffer → Execution → ExecutorBuffer
cancel b e = record b { running = Map.remove b.running e.id }
