-- ===== src/Compute/Buffer/Examples.antt =====
-- Runs of the queue and of the capacity tracker on concrete amounts.
use bacalhau.Base.{
  eq_iff, ℕ, ◌+◌, ◌-◌, ◌≡◌, ◌^◌, ◌⊎◌, refl, ltb, leb, ◌==◌, [], ◌∷◌, Option, none, some, arith, map,
}
use bacalhau.Base.Map
use bacalhau.Base.Result.{Result, ok, err}
use bacalhau.Model.Job.{Job}
use bacalhau.Model.ResourceUsage.{Float, ResourceUsageData, less_than, less_than_eq}
use bacalhau.Compute.State.{Execution, new_execution}
use bacalhau.Compute.Capacity.{
  LocalTracker, is_within_limits, new_local_tracker, has_capacity, add_if_has_capacity, remove,
}
use bacalhau.Compute.Capacity.Usage.{SameCounts, remove-add_if_has_capacity, remove_wraps}
use bacalhau.Compute.Buffer.{
  ExecutorBuffer, BufferTask, Refusal, start, deque_loop, deque, enqueue, run, finish,
}
use bacalhau.Compute.Buffer.Queue.{IsQueued, run-IsQueued, finish-IsQueued}
use bacalhau.Compute.Buffer.Order.{IsKeyed, Outcome, deque_loop_order}
use bacalhau.Compute.Store.Lists.{count}

-- Floats that stand for whole numbers.
abbrev whole : Float
whole = record {
  zero_float = 0;
  add_float = λ a b. a + b;
  sub_float = λ a b. a - b;
  lt_float = ltb;
  le_float = leb;
  eq_float = λ a b. a == b;
}

abbrev amount : ℕ → ℕ → ResourceUsageData
amount cpu memory = record { cpu = cpu; memory = memory; disk = 0; gpu = 0 }

abbrev busy : LocalTracker
busy = record { max_capacity = amount 4 10; used_capacity = amount 2 4 }

remove-add_if_has_capacity_example :
    SameCounts
      (remove whole (add_if_has_capacity whole busy (amount 1 5)) (amount 1 5)).used_capacity
      (amount 2 4)
unfolding has_capacity
remove-add_if_has_capacity_example =
    remove-add_if_has_capacity whole busy (amount 1 5) refl (omega arith, omega arith, omega arith)

remove_wraps_example : (remove whole busy (amount 1 5)).used_capacity.memory ≡ 2 ^ 64 - (5 - 4)
unfolding less_than
remove_wraps_example = remove_wraps whole busy (amount 1 5) (omega arith) (omega arith) refl

abbrev job : Job
job = record {
  api_version = "V1beta2";
  metadata = record {
    id = "job";
    created_at = 1;
    client_id = "client";
    requester = record { requester_node_id = "requester"; requester_public_key = [] };
  };
  spec = record {
    verifier = "Noop";
    timeout = 0;
    inputs = [];
    annotations = [];
    deal = record { concurrency = 1; confidence = 0; min_bids = 0 };
  };
}

abbrev empty : ExecutorBuffer
empty = record {
  running_capacity = new_local_tracker whole (amount 4 10);
  enqueued_capacity = new_local_tracker whole (amount 8 20);
  running = [];
  enqueued = [];
  enqueued_list = [];
  backoff_duration = 5;
  backoff_until = 0;
  started = [];
}

empty-IsQueued : IsQueued empty
unfolding Map.get count
empty-IsQueued = record { listed = λ k. refl; apart = λ k h. omega (arith, h) }

abbrev small : Execution
small = new_execution "small" job "requester" (amount 1 1) 1 1

abbrev outcome : Result Refusal (Option ExecutorBuffer)
outcome = run whole empty small 1 2 3

run-IsQueued_example :
    ((r : Refusal) × (outcome ≡ err r))
    ⊎ ((c : ExecutorBuffer) × (outcome ≡ ok (some c)) × IsQueued c)
run-IsQueued_example = run-IsQueued whole empty small 1 2 3 empty-IsQueued

-- The queue after a call that succeeded.
abbrev after : Result Refusal (Option ExecutorBuffer) → ExecutorBuffer
after (ok (some c)) = c
after (ok none) = empty
after (err r) = empty

run_started : map (λ (t : BufferTask). t.execution.id) (after outcome).started ≡ "small" ∷ []
unfolding run is_within_limits new_execution new_local_tracker Map.get has_capacity deque enqueue
    deque_loop Map.put start
run_started = refl

abbrev waiting : BufferTask
waiting = record { execution = small; enqueued_at = 1 }

finish-IsQueued_example :
    (c : ExecutorBuffer) × (finish whole empty waiting 4 5 ≡ some c) × IsQueued c
finish-IsQueued_example = finish-IsQueued whole empty waiting 4 5 empty-IsQueued

-- A task that does not fit stands ahead of one that does.
abbrev big : BufferTask
big = record { execution = new_execution "big" job "requester" (amount 9 1) 1 1; enqueued_at = 1 }

abbrev two : ExecutorBuffer
two = record empty {
  enqueued = ("big", big) ∷ ("small", waiting) ∷ [];
  enqueued_list = "big" ∷ "small" ∷ [];
}

two-IsKeyed : IsKeyed two
unfolding Map.get new_execution
two-IsKeyed k t h = ground (arith, h, eq_iff "big" k, eq_iff "small" k)

small_starts :
    deque_loop whole two ("big" ∷ "small" ∷ []) ≡ some (start whole two "small" waiting, "big" ∷ [])
unfolding deque_loop has_capacity Map.get new_execution new_local_tracker
small_starts = refl

deque_loop_order_example :
    Outcome whole two (start whole two "small" waiting) ("big" ∷ "small" ∷ []) ("big" ∷ [])
unfolding new_local_tracker less_than_eq
deque_loop_order_example =
    deque_loop_order whole two (start whole two "small" waiting) ("big" ∷ "small" ∷ []) ("big" ∷ [])
      two-IsKeyed refl small_starts
