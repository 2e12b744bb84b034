-- ===== src/Compute/Store/Queries.antt =====
-- What the queries of the compute node's store return (pkg/compute/store/inmemory/store.go,
-- pkg/compute/store/utils.go).
use bacalhau.Base.{
  ◌≡◌, ◌≢◌, refl, sym, ap, ◌∙◌, subst, String, List, [], ◌∷◌, none, some, arith, eq_iff, map, All,
  Option-cases, inl, inr,
}
use bacalhau.Base.Map
use bacalhau.Base.Map.{Map, get_or-here}
use bacalhau.Base.Result.{Result, ok, err, ok_eq}
use bacalhau.Model.Job
use bacalhau.Compute.State.{Execution, Error, executions_not_found_for_job}
use bacalhau.Compute.Store.{Store, get_executions}
use bacalhau.Compute.Store.Lists.{count}
use bacalhau.Compute.Store.Invariant.{IsConsistent, absent, present, held}

-- The store holds this execution, of this job, under its ID.
abbrev pub IsHeld : Store → String → Execution → Type 0
IsHeld d j e = (Map.get d.executions e.id ≡ some e) × (Job.id e.job ≡ j)

-- The ID that a list looks up, in a consistent store.
looked_up :
    (d : Store) (v : IsConsistent d) (zero : Execution) (j i : String)
    → count i (Map.get_or d.jobs j []) ≢ 0
    → IsHeld d j (Map.get_or d.executions i zero) × ((Map.get_or d.executions i zero).id ≡ i)
looked_up d v z j i listed = elim (v.told i) [
  | absent a b ↦ absurd (ground (arith, v.listed i j))
  | present e hs a b c g ↦
      let w : Map.get_or d.executions i z ≡ e = get_or-here d.executions i z e a in
      subst (λ x. IsHeld d j x × (x.id ≡ i)) (sym w)
        (
          (
            ap (Map.get d.executions) c ∙ a,
            ground (arith, a, v.listed i j, eq_iff (Job.id e.job) j),
          ),
          c,
        )
]

count-head : (i : String) (xs : List String) → count i (i ∷ xs) ≢ 0
unfolding count
count-head i xs h = ground (arith, eq_iff i i)

count-tail : (i x : String) (xs : List String) → count i xs ≢ 0 → count i (x ∷ xs) ≢ 0
unfolding count
count-tail i x xs more h = ground (arith)

-- The executions that a list of listed IDs looks up.
looked_up-All :
    (d : Store) (zero : Execution) (j : String) (xs : List String)
    → IsConsistent d
    → ((i : String) → count i xs ≢ 0 → count i (Map.get_or d.jobs j []) ≢ 0)
    → All (IsHeld d j) (map (λ i. Map.get_or d.executions i zero) xs)
      × (map (λ (e : Execution). e.id) (map (λ i. Map.get_or d.executions i zero) xs) ≡ xs)
looked_up-All d z j [] v listed = (tt, refl)
looked_up-All d z j (x ∷ xs) v listed =
    let (a, b) = looked_up d v z j x (listed x (count-head x xs)) in
    let (c, e) = looked_up-All d z j xs v (λ i more. listed i (count-tail i x xs more)) in
    ((a, c), ground (arith, b, e))

get_executions_ok :
    (d : Store) (zero : Execution) (j : String) (es : List Execution)
    → get_executions d zero j ≡ ok es
    → (xs : List String) × (Map.get d.jobs j ≡ some xs)
      × (map (λ i. Map.get_or d.executions i zero) xs ≡ es)
unfolding get_executions
get_executions_ok d z j es h = elim (Option-cases (Map.get d.jobs j)) [
  | inl missing ↦ absurd (ground (arith, missing, h))
  | inr (xs, there) ↦ (
    xs,
    there,
    ok_eq (
        subst
          (λ o.
            elim o as (λ _. Result Error (List Execution)) [
              | none ↦ err (executions_not_found_for_job j)
              | some ids ↦ ok (map (λ i. Map.get_or d.executions i z) ids)
            ]
            ≡ ok es)
          there h),
  )
]

-- In a consistent store, `GetExecutions` of a job returns stored executions of that job, each under
-- its ID, and each execution of the job exactly once.
pub get_executions_exact :
    (d : Store) (zero : Execution) (j : String) (es : List Execution) (k : String)
    → IsConsistent d
    → get_executions d zero j ≡ ok es
    → All (IsHeld d j) es
      × (count k (map (λ (e : Execution). e.id) es) ≡ held (Map.get d.executions k) j)
get_executions_exact d z j es k v h =
    let (xs, there, same) = get_executions_ok d z j es h in
    let here : Map.get_or d.jobs j [] ≡ xs = get_or-here d.jobs j [] xs there in
    let (a, b) = looked_up-All d z j xs v (λ i more. rw here more) in
    (
      subst (All (IsHeld d j)) same a,
      ap (λ ys. count k (map (λ (e : Execution). e.id) ys)) (sym same)
          ∙ ap (count k) (b ∙ sym here)
          ∙ v.listed k j,
    )
