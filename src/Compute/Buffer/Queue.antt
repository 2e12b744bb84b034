-- ===== src/Compute/Buffer/Queue.antt =====
-- What holds of the queue between two calls (pkg/compute/executor_buffer.go).
use bacalhau.Base.{
  ℕ, ◌+◌, ◌≡◌, ◌≢◌, refl, ap, subst, String, true, false, ◌&&◌, not, List, [], ◌∷◌, ◌++◌, Option,
  none, some, arith, eq_iff, Bool-cases, Option-cases, inl, inr, ◌⊎◌, ltb, ◌==◌, length,
}
use mathlib.Core.List.{append-nil, append_assoc}
use bacalhau.Base.Map
use bacalhau.Base.Map.{Map, get-put, get-remove}
use bacalhau.Base.Result.{ok, err}
use bacalhau.Model.ResourceUsage.{Float}
use bacalhau.Compute.State.{Execution}
use bacalhau.Compute.Capacity.{has_capacity, is_within_limits}
use bacalhau.Compute.Store.Lists.{count, count-append}
use bacalhau.Compute.Buffer.{
  ExecutorBuffer, BufferTask, Refusal, over_limits, already_enqueued, already_running, no_capacity,
  start, deque_loop, deque, enqueue, run, finish,
}

-- Whether a map has an entry under a key, as a number.
abbrev pub entries : Option BufferTask → ℕ
entries none = 0
entries (some t) = 1

-- An ID stands in the list as often as it has a task in the map of the queue: once or never.
abbrev pub Listed : ExecutorBuffer → List String → Type 0
Listed b ids = (k : String) → count k ids ≡ entries (Map.get b.enqueued k)

-- The queue's list and map agree, and no task is both queued and running.
pub record IsQueued (b : ExecutorBuffer) : Type 0 where
  pub listed : Listed b b.enqueued_list
  pub apart : (k : String) → entries (Map.get b.enqueued k) + entries (Map.get b.running k) ≢ 2

-- What `deque`'s loop keeps: the tasks that are left are those it has not reached and those it
-- has passed over.
pub record IsLoop (b : ExecutorBuffer) (passed ids : List String) : Type 0 where
  pub every : (k : String) → count k passed + count k ids ≡ entries (Map.get b.enqueued k)
  pub apart : (k : String) → entries (Map.get b.enqueued k) + entries (Map.get b.running k) ≢ 2

module _ (f : Float) where
  start-IsLoop :
      (b : ExecutorBuffer) (id : String) (t : BufferTask) (passed ids : List String)
      → Map.get b.enqueued id ≡ some t
      → IsLoop b passed (id ∷ ids)
      → IsLoop (start f b id t) passed ids
  unfolding start count
  start-IsLoop b id t passed ids found v = record {
    every = λ k. ground (arith, v.every k, found, get-remove b.enqueued id k, eq_iff id k);
    apart =
        λ k h. ground (arith, v.apart k, h, get-remove b.enqueued id k, get-put b.running id t k);
  }

  skip-IsLoop :
      (b : ExecutorBuffer) (id : String) (passed ids : List String)
      → IsLoop b passed (id ∷ ids)
      → IsLoop b (passed ++ id ∷ []) ids
  unfolding count
  skip-IsLoop b id passed ids v = record {
    every = λ k. ground (arith, v.every k, count-append k id passed);
    apart = v.apart;
  }

  -- The loop meets a task under every ID that is left.
  met :
      (b : ExecutorBuffer) (id : String) (passed ids : List String)
      → IsLoop b passed (id ∷ ids)
      → (t : BufferTask) × (Map.get b.enqueued id ≡ some t)
  unfolding count
  met b id passed ids v = elim (Option-cases (Map.get b.enqueued id)) [
    | inl missing ↦ absurd (ground (arith, v.every id, missing, eq_iff id id))
    | inr found ↦ found
  ]

  pub loop_done : (b : ExecutorBuffer) → deque_loop f b [] ≡ some (b, [])
  unfolding deque_loop
  loop_done b = refl

  -- A turn of the loop whose task stays.
  pub deque_loop_skip :
      (b c : ExecutorBuffer) (id : String) (ids rest : List String) (t : BufferTask)
      → Map.get b.enqueued id ≡ some t
      → has_capacity f b.running_capacity t.execution.resource_usage ≡ false
      → deque_loop f b ids ≡ some (c, rest)
      → deque_loop f b (id ∷ ids) ≡ some (c, id ∷ rest)
  unfolding deque_loop
  deque_loop_skip b c id ids rest t found full h = rw (found, deque_loop, full, h, full) refl

  -- A turn of the loop that starts its task.
  pub deque_loop-start :
      (b c : ExecutorBuffer) (id : String) (ids rest : List String) (t : BufferTask)
      → Map.get b.enqueued id ≡ some t
      → has_capacity f b.running_capacity t.execution.resource_usage ≡ true
      → deque_loop f (start f b id t) ids ≡ some (c, rest)
      → deque_loop f b (id ∷ ids) ≡ some (c, rest)
  unfolding deque_loop
  deque_loop-start b c id ids rest t found room h = rw (found, deque_loop, room, h, room) refl

  -- The loop never meets an ID without a task, and its list and map agree at its end.
  deque_loop-IsLoop :
      (b : ExecutorBuffer) (passed ids : List String)
      → IsLoop b passed ids
      → (c : ExecutorBuffer) × (rest : List String) × (deque_loop f b ids ≡ some (c, rest))
        × IsLoop c (passed ++ rest) []
  deque_loop-IsLoop b passed [] v = (b, [], loop_done b, rw (append-nil passed) v)
  deque_loop-IsLoop b passed (id ∷ ids) v =
      let (t, found) = met b id passed ids v in
      elim (Bool-cases (has_capacity f b.running_capacity t.execution.resource_usage)) [
        | inl room ↦
            let (c, rest, h, w) =
              deque_loop-IsLoop (start f b id t) passed ids
                (start-IsLoop b id t passed ids found v) in
            (c, rest, deque_loop-start b c id ids rest t found room h, w)
        | inr full ↦
            let (c, rest, h, w) =
              deque_loop-IsLoop b (passed ++ id ∷ []) ids (skip-IsLoop b id passed ids v) in
            (
              c,
              id ∷ rest,
              deque_loop_skip b c id ids rest t found full h,
              subst (λ xs. IsLoop c xs []) (append_assoc passed (id ∷ []) rest) w,
            )
      ]

  -- `deque` never panics, and the queue's list and map agree behind it.
  pub deque-IsQueued :
      (b : ExecutorBuffer) (now later : ℕ)
      → IsQueued b
      → (c : ExecutorBuffer) × (deque f b now later ≡ some c) × IsQueued c
  unfolding deque count
  deque-IsQueued b now later v =
      elim (Bool-cases (not (length b.running == 0) && ltb now b.backoff_until)) [
        | inl soon ↦ (b, rw soon refl, v)
        | inr due ↦
            let (c, rest, h, w) =
              deque_loop-IsLoop b [] b.enqueued_list
                (record { every = λ k. omega (arith, v.listed k); apart = v.apart }) in
            (
              record c { enqueued_list = rest; backoff_until = later + c.backoff_duration },
              rw (due, h) refl,
              record { listed = λ k. omega (arith, w.every k); apart = w.apart },
            )
      ]

  enqueue-IsQueued :
      (b : ExecutorBuffer) (e : Execution) (at : ℕ)
      → IsQueued b
      → Map.get b.enqueued e.id ≡ none
      → Map.get b.running e.id ≡ none
      → IsQueued (enqueue f b e at)
  unfolding enqueue
  enqueue-IsQueued b e at v fresh idle =
      let t : BufferTask = record { execution = e; enqueued_at = at } in
      record {
        listed = λ k. ground (
          arith,
          v.listed k,
          fresh,
          get-put b.enqueued e.id t k,
          eq_iff e.id k,
          count-append k e.id b.enqueued_list,
        );
        apart = λ k h.
            ground (arith, v.apart k, h, fresh, idle, get-put b.enqueued e.id t k, eq_iff e.id k);
      }

  -- With a queue whose list and map agree, `Run` refuses the execution, or it never panics and the
  -- list and the map of the queue agree behind it, no task being queued and running at once.
  pub run-IsQueued :
      (b : ExecutorBuffer) (e : Execution) (at now later : ℕ)
      → IsQueued b
      → ((r : Refusal) × (run f b e at now later ≡ err r))
        ⊎ ((c : ExecutorBuffer) × (run f b e at now later ≡ ok (some c)) × IsQueued c)
  unfolding run
  run-IsQueued b e at now later v =
      elim (Bool-cases (is_within_limits f b.running_capacity e.resource_usage)) [
        | inr over ↦ inl (over_limits, rw over refl)
        | inl within ↦ elim (Option-cases (Map.get b.enqueued e.id)) [
          | inr (x, queued) ↦ inl (already_enqueued e.id, rw (within, queued) refl)
          | inl fresh ↦ elim (Option-cases (Map.get b.running e.id)) [
            | inr (x, busy) ↦ inl (already_running e.id, rw (within, fresh, busy) refl)
            | inl idle ↦ elim (Bool-cases (has_capacity f b.enqueued_capacity e.resource_usage)) [
              | inr full ↦ inl (no_capacity, rw (within, fresh, idle, full) refl)
              | inl room ↦
                  let (c, h, w) =
                    deque-IsQueued (enqueue f b e at) now later
                      (enqueue-IsQueued b e at v fresh idle) in
                  inr (c, rw (within, fresh, idle, room) (ap (λ o. ok o) h), w)
            ]
          ]
        ]
      ]

  -- The end of a task keeps the queue and never panics.
  pub finish-IsQueued :
      (b : ExecutorBuffer) (t : BufferTask) (now later : ℕ)
      → IsQueued b
      → (c : ExecutorBuffer) × (finish f b t now later ≡ some c) × IsQueued c
  unfolding finish
  finish-IsQueued b t now later v = deque-IsQueued _ now later (record {
    listed = v.listed;
    apart = λ k h. ground (arith, v.apart k, h, get-remove b.running t.execution.id k);
  })
