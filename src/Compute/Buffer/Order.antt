-- ===== src/Compute/Buffer/Order.antt =====
-- In which order the queue starts its tasks, and within which limits
-- (pkg/compute/executor_buffer.go, pkg/compute/capacity/trackers.go).
use bacalhau.Base.{
  ap, false, ◌≡◌, refl, sym, ◌∙◌, subst, String, true, List, [], ◌∷◌, ◌++◌, none, some, some_eq,
  str_eq, if◌then◌else◌, Bool-cases, Option-cases, inl, inr,
}
use mathlib.Core.List.{append-nil, append_assoc}
use bacalhau.Base.Map
use bacalhau.Base.Map.{Map}
use bacalhau.Model.ResourceUsage.{Float, ResourceUsageData, add, less_than_eq}
use bacalhau.Compute.Capacity.{LocalTracker, has_capacity, add_if_has_capacity}
use bacalhau.Compute.Buffer.{ExecutorBuffer, BufferTask, start, deque_loop}
use bacalhau.Compute.Buffer.Queue.{deque_loop_skip, deque_loop-start, loop_done}

-- Every queued task stands under its execution's ID.
abbrev pub IsKeyed : ExecutorBuffer → Type 0
IsKeyed b = (k : String) (t : BufferTask) → Map.get b.enqueued k ≡ some t → t.execution.id ≡ k

module _ (f : Float) where
  -- The used capacity is within the tracker's limits.
  abbrev pub IsWithin : LocalTracker → Type 0
  IsWithin t = less_than_eq f t.used_capacity t.max_capacity ≡ true

  add_if_has_capacity-IsWithin :
      (t : LocalTracker) (u : ResourceUsageData) → IsWithin t → IsWithin (add_if_has_capacity f t u)
  unfolding add_if_has_capacity has_capacity
  add_if_has_capacity-IsWithin t u v = elim (Bool-cases (has_capacity f t u)) [
    | inl room ↦ rw room room
    | inr full ↦ rw full v
  ]

  start-IsKeyed :
      (b : ExecutorBuffer) (id : String) (t : BufferTask) → IsKeyed b → IsKeyed (start f b id t)
  unfolding start
  start-IsKeyed b id t v k x h = elim (Bool-cases (str_eq id k)) [
    | inl this ↦ absurd (cc (h, Map.get-remove_same b.enqueued id k this))
    | inr other ↦ v k x (sym (Map.get-remove_other b.enqueued id k other) ∙ h)
  ]

  start-IsWithin :
      (b : ExecutorBuffer) (id : String) (t : BufferTask)
      → IsWithin b.running_capacity
      → IsWithin (start f b id t).running_capacity
  unfolding start
  start-IsWithin b id t w =
      add_if_has_capacity-IsWithin b.running_capacity t.execution.resource_usage w

  deque_loop_missing :
      (b : ExecutorBuffer) (id : String) (ids : List String)
      → Map.get b.enqueued id ≡ none
      → deque_loop f b (id ∷ ids) ≡ none
  unfolding deque_loop
  deque_loop_missing b id ids missing = rw (missing, deque_loop) refl

  deque_loop_panics :
      (b : ExecutorBuffer) (id : String) (ids : List String) (t : BufferTask)
      → Map.get b.enqueued id ≡ some t
      → deque_loop f
          (if has_capacity f b.running_capacity t.execution.resource_usage
            then start f b id t
            else b)
          ids
        ≡ none
      → deque_loop f b (id ∷ ids) ≡ none
  unfolding deque_loop
  deque_loop_panics b id ids t found h = rw (found, deque_loop, h) refl

  -- The queue, with its tasks and the used running capacity, is split into the tasks that start and the
  -- IDs that stay, each in the queue's order: a task starts exactly if, with what is used and what
  -- those before it take, it fits in the limits.
  pub data Splits (most : ResourceUsageData)
      : ResourceUsageData
        → Map BufferTask
        → List String
        → List BufferTask
        → List String
        → Type 0 where
    ends : {used : ResourceUsageData} {queued : Map BufferTask} → Splits most used queued [] [] []
    starts :
        {used : ResourceUsageData} {queued : Map BufferTask} {id : String} {ids : List String}
        {t : BufferTask} {ts : List BufferTask} {rest : List String}
        → Map.get queued id ≡ some t
        → t.execution.id ≡ id
        → less_than_eq f (add f used t.execution.resource_usage) most ≡ true
        → Splits most (add f used t.execution.resource_usage) (Map.remove queued id) ids ts rest
        → Splits most used queued (id ∷ ids) (t ∷ ts) rest
    stays :
        {used : ResourceUsageData} {queued : Map BufferTask} {id : String} {ids : List String}
        {t : BufferTask} {ts : List BufferTask} {rest : List String}
        → Map.get queued id ≡ some t
        → less_than_eq f (add f used t.execution.resource_usage) most ≡ false
        → Splits most used queued ids ts rest
        → Splits most used queued (id ∷ ids) ts (id ∷ rest)

  abbrev pub Divides : ExecutorBuffer → List String → List BufferTask → List String → Type 0
  Divides b = Splits b.running_capacity.max_capacity b.running_capacity.used_capacity b.enqueued

  -- What `deque`'s loop comes to when it does not panic.
  pub record Outcome (b c : ExecutorBuffer) (ids rest : List String) : Type 0 where
    pub tasks : List BufferTask
    pub split : Divides b ids tasks rest
    pub launched : c.started ≡ b.started ++ tasks
    pub within : IsWithin c.running_capacity

  started-Divides :
      (b : ExecutorBuffer) (id : String) (ids rest : List String) (t : BufferTask)
      (ts : List BufferTask)
      → has_capacity f b.running_capacity t.execution.resource_usage ≡ true
      → Divides (start f b id t) ids ts rest
      → Splits b.running_capacity.max_capacity
          (add f b.running_capacity.used_capacity t.execution.resource_usage)
          (Map.remove b.enqueued id)
          ids
          ts
          rest
  unfolding start add_if_has_capacity
  started-Divides b id ids rest t ts room d =
      let u = t.execution.resource_usage in
      let c = b.running_capacity in
      subst
        (λ (k : LocalTracker).
          Splits k.max_capacity k.used_capacity (Map.remove b.enqueued id) ids ts rest)
        (ap (λ y. if y then record c { used_capacity = add f c.used_capacity u } else c) room) d

  Outcome-start :
      (b c : ExecutorBuffer) (id : String) (ids rest : List String) (t : BufferTask)
      → Map.get b.enqueued id ≡ some t
      → t.execution.id ≡ id
      → has_capacity f b.running_capacity t.execution.resource_usage ≡ true
      → Outcome (start f b id t) c ids rest
      → Outcome b c (id ∷ ids) rest
  unfolding start has_capacity
  Outcome-start b c id ids rest t found same room o = record {
    tasks = t ∷ o.tasks;
    split = starts found same room (started-Divides b id ids rest t o.tasks room o.split);
    launched = o.launched ∙ append_assoc b.started (t ∷ []) o.tasks;
    within = o.within;
  }

  Outcome-skip :
      (b c : ExecutorBuffer) (id : String) (ids rest : List String) (t : BufferTask)
      → Map.get b.enqueued id ≡ some t
      → has_capacity f b.running_capacity t.execution.resource_usage ≡ false
      → Outcome b c ids rest
      → Outcome b c (id ∷ ids) (id ∷ rest)
  unfolding has_capacity
  Outcome-skip b c id ids rest t found full o = record {
    tasks = o.tasks;
    split = stays found full o.split;
    launched = o.launched;
    within = o.within;
  }

  -- First in, first out, but for tasks that do not fit: where every queued task stands under its ID
  -- and the used running capacity is within its limits, the loop of `deque`, if it does not panic,
  -- splits the list into the tasks it starts and the IDs that stay, both in the list's order, starts
  -- exactly those tasks that fit in the limits with what is used and what the ones before them take,
  -- and keeps the used running capacity within its limits.
  pub deque_loop_order :
      (b c : ExecutorBuffer) (ids rest : List String)
      → IsKeyed b
      → IsWithin b.running_capacity
      → deque_loop f b ids ≡ some (c, rest)
      → Outcome b c ids rest
  deque_loop_order b c [] rest v w h =
      subst (λ p. Outcome b p.0 [] p.1) (some_eq (sym (loop_done f b) ∙ h))
        (record { tasks = []; split = ends; launched = sym (append-nil b.started); within = w })
  deque_loop_order b c (id ∷ ids) rest v w h = elim (Option-cases (Map.get b.enqueued id)) [
    | inl missing ↦ absurd (cc (h, deque_loop_missing b id ids missing))
    | inr (t, found) ↦
        elim (Bool-cases (has_capacity f b.running_capacity t.execution.resource_usage)) [
          | inl room ↦ elim (Option-cases (deque_loop f (start f b id t) ids)) [
            | inl panics ↦ absurd (cc (h, deque_loop_panics b id ids t found (rw room panics)))
            | inr ((c', rest'), done) ↦
                subst (λ p. Outcome b p.0 (id ∷ ids) p.1)
                  (some_eq (sym (deque_loop-start f b c' id ids rest' t found room done) ∙ h))
                  (Outcome-start b c' id ids rest' t found (v id t found) room (
                    deque_loop_order (start f b id t) c' ids rest' (start-IsKeyed b id t v)
                      (start-IsWithin b id t w) done))
          ]
          | inr full ↦ elim (Option-cases (deque_loop f b ids)) [
            | inl panics ↦ absurd (cc (h, deque_loop_panics b id ids t found (rw full panics)))
            | inr ((c', rest'), done) ↦
                subst (λ p. Outcome b p.0 (id ∷ ids) p.1)
                  (some_eq (sym (deque_loop_skip f b c' id ids rest' t found full done) ∙ h))
                  (Outcome-skip b c' id ids rest' t found full
                    (deque_loop_order b c' ids rest' v w done))
          ]
        ]
  ]
