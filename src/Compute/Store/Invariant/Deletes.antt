-- ===== src/Compute/Store/Invariant/Deletes.antt =====
-- The deletion of an execution keeps the maps of the compute node's store in agreement
-- (pkg/compute/store/inmemory/store.go).
use bacalhau.Base.{
  ◌≡◌, ◌≢◌, String, List, [], some, arith, str_eq, eq_iff, ◌==◌, length, if◌then◌else◌, Bool-cases,
  Option-cases, inl, inr, ◌+◌,
}
use bacalhau.Base.Map
use bacalhau.Base.Map.{Map, get-put, get-remove, get_or-put, get_or-remove}
use bacalhau.Model.Job
use bacalhau.Compute.State.{Execution}
use bacalhau.Compute.Store.{Store, cut, drop_execution, delete_execution}
use bacalhau.Compute.Store.Lists.{count, count-cut, cut_missing, length-cut, count-single}
use bacalhau.Compute.Store.Invariant.{Told, absent, held, IsConsistent}

-- A dropped ID, once in the job's list, leaves that list and no other.
drop_execution-count :
    (m : Map (List String)) (i id k j : String)
    → count id (Map.get_or m i []) ≡ 1
    → count k (Map.get_or m j [])
      ≡ count k (Map.get_or (drop_execution m i id) j [])
        + (if str_eq i j then (if str_eq id k then 1 else 0) else 0)
unfolding drop_execution count
drop_execution-count m i id k j once = elim (Bool-cases (length (Map.get_or m i []) == 1)) [
  | inl single ↦ ground (
    arith,
    single,
    once,
    get_or-remove m i j [],
    eq_iff i j,
    count-single k id (Map.get_or m i []),
  )
  | inr more ↦ elim (Option-cases (cut id (Map.get_or m i []))) [
    | inl missing ↦ ground (arith, once, cut_missing id (Map.get_or m i []) missing)
    | inr (rest, taken) ↦ ground (
      arith,
      more,
      taken,
      get_or-put m i j [] rest,
      eq_iff i j,
      count-cut k id (Map.get_or m i []) rest taken,
    )
  ]
]

-- No job is left with an empty list.
drop_execution-filled :
    (m : Map (List String)) (i id j : String)
    → count id (Map.get_or m i []) ≡ 1
    → Map.get m j ≢ some []
    → Map.get (drop_execution m i id) j ≢ some []
unfolding drop_execution
drop_execution-filled m i id j once full h = elim (Bool-cases (length (Map.get_or m i []) == 1)) [
  | inl single ↦ ground (arith, single, h, full, get-remove m i j)
  | inr more ↦ elim (Option-cases (cut id (Map.get_or m i []))) [
    | inl missing ↦ ground (arith, h, full, more, missing)
    | inr (rest, taken) ↦ ground (
      arith,
      more,
      taken,
      h,
      full,
      get-put m i rest j,
      length-cut id (Map.get_or m i []) rest taken,
    )
  ]
]

module _ (d : Store) (v : IsConsistent d) (id : String) where
  deleted_told :
      (k : String)
      → Told k (Map.get (Map.remove d.executions id) k) (Map.get (Map.remove d.history id) k)
  deleted_told k = elim (Bool-cases (str_eq id k)) [
    | inl this ↦
        absent (Map.get-remove_same d.executions id k this)
          (Map.get-remove_same d.history id k this)
    | inr other ↦
        rw (Map.get-remove_other d.executions id k other, Map.get-remove_other d.history id k other)
          (v.told k)
  ]

  module _ (e : Execution) (found : Map.get d.executions id ≡ some e) where
    listed_once : count id (Map.get_or d.jobs (Job.id e.job) []) ≡ 1
    listed_once =
        ground (arith, v.listed id (Job.id e.job), found, eq_iff (Job.id e.job) (Job.id e.job))

    deleted_listed :
        (k j : String)
        → count k (Map.get_or (drop_execution d.jobs (Job.id e.job) id) j [])
          ≡ held (Map.get (Map.remove d.executions id) k) j
    deleted_listed k j = ground (
      arith,
      v.listed k j,
      found,
      listed_once,
      drop_execution-count d.jobs (Job.id e.job) id k j listed_once,
      get-remove d.executions id k,
      eq_iff id k,
    )

  pub delete_execution-IsConsistent : IsConsistent (delete_execution d id)
  unfolding delete_execution
  delete_execution-IsConsistent = elim (Option-cases (Map.get d.executions id)) [
    | inl missing ↦ rw (missing, delete_execution) v
    | inr (e, found) ↦
        rw (found, delete_execution)
          (record {
            told = deleted_told;
            listed = deleted_listed e found;
            filled = λ j.
                drop_execution-filled d.jobs (Job.id e.job) id j (listed_once e found) (v.filled j);
          })
  ]
