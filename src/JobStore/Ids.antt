-- ===== src/JobStore/Ids.antt =====
-- The IDs of a job's executions, and the search for one (pkg/jobstore/inmemory/inmemory.go).
use bacalhau.Base.{
  ◌⊎◌, ◌∙◌, ℕ, suc, ◌≡◌, sym, String, false, List, [], ◌∷◌, ◌++◌, map, none, some, arith, All,
  Bool-cases, inl, inr, some_eq, ap, Option-cases,
}
use bacalhau.Model.ExecutionState
use bacalhau.Model.ExecutionState.{ExecutionState, ExecutionId, same_id, same_id_iff}
use bacalhau.JobStore.Executions.{find_execution, set_execution}

abbrev pub ids : List ExecutionState → List ExecutionId
ids = map ExecutionState.id

-- Every execution is of the job.
abbrev pub Owned : String → List ExecutionId → Type 0
Owned k = All (λ i. i.job_id ≡ k)

-- No execution has the ID.
abbrev pub Fresh : ExecutionId → List ExecutionId → Type 0
Fresh i = All (λ j. same_id j i ≡ false)

-- No two executions have one ID.
abbrev pub Distinct : List ExecutionId → Type 0
Distinct [] = Unit
Distinct (i ∷ is) = Fresh i is × Distinct is

pub same_id_sym : (i j : ExecutionId) → same_id i j ≡ same_id j i
same_id_sym i j = ground (arith, same_id_iff i j, same_id_iff j i)

pub All-append {ℓ κ} :
    {A : Type ℓ} (P : A → Type κ) (xs ys : List A) → All P xs → All P ys → All P (xs ++ ys)
All-append P [] ys h k = k
All-append P (x ∷ xs) ys h k = (h.0, All-append P xs ys h.1 k)

pub Distinct-append :
    (is : List ExecutionId) (i : ExecutionId) → Distinct is → Fresh i is → Distinct (is ++ i ∷ [])
Distinct-append [] i d f = (tt, tt)
Distinct-append (j ∷ is) i d f = (
  All-append (λ h. same_id h j ≡ false) is (i ∷ []) d.0 (ground (arith, same_id_sym i j, f.0), tt),
  Distinct-append is i d.1 f.1,
)

-- An ID that the search does not find is fresh.
pub find_none-Fresh :
    (i : ExecutionId) (es : List ExecutionState) → find_execution i es ≡ none → Fresh i (ids es)
unfolding find_execution
find_none-Fresh i [] h = tt
find_none-Fresh i (e ∷ es) h = ground (arith, find_none-Fresh i es)

-- Where the search of a list that is not empty finds.
pub found_cons :
    (i : ExecutionId) (e : ExecutionState) (es : List ExecutionState) (n : ℕ) (x : ExecutionState)
    → find_execution i (e ∷ es) ≡ some (n, x)
    → ((n ≡ 0) × (x ≡ e) × (ExecutionState.id e ≡ i))
      ⊎ ((m : ℕ) × (n ≡ suc m)
          × (same_id (ExecutionState.id e) i ≡ false)
          × (find_execution i es ≡ some (m, x)))
unfolding find_execution
found_cons i e es n x h = elim (Bool-cases (same_id (ExecutionState.id e) i)) [
  | inl hit ↦
      let q : some (n, x) ≡ some (0, e) = sym h ∙ rw (hit, find_execution) in
      inl (ap (λ p. p.0) (some_eq q), ap (λ p. p.1) (some_eq q), (same_id_iff _ i).0 hit)
  | inr miss ↦ elim (Option-cases (find_execution i es)) [
    | inl none_left ↦ absurd (ground (arith))
    | inr ((m, y), found) ↦
        let q : some (n, x) ≡ some (suc m, y) = sym h ∙ rw (miss, find_execution, found) in
        inr (m, ap (λ p. p.0) (some_eq q), miss, found ∙ ap (λ p. some (m, p.1)) (sym (some_eq q)))
  ]
]

-- What the search finds has the ID.
pub found-id :
    (i : ExecutionId) (es : List ExecutionState) (n : ℕ) (x : ExecutionState)
    → find_execution i es ≡ some (n, x)
    → ExecutionState.id x ≡ i
unfolding find_execution
found-id i [] n x h = absurd (cc)
found-id i (e ∷ es) n x h = elim (found_cons i e es n x h) [
  | inl (_, here, same) ↦ ap ExecutionState.id here ∙ same
  | inr (m, _, _, later) ↦ found-id i es m x later
]

-- A write at the found place of a value with the same ID keeps all IDs.
pub ids-set :
    (i : ExecutionId) (es : List ExecutionState) (n : ℕ) (x e : ExecutionState)
    → find_execution i es ≡ some (n, x)
    → ExecutionState.id e ≡ i
    → ids (set_execution es n e) ≡ ids es
unfolding find_execution set_execution
ids-set i [] n x e h q = absurd (cc)
ids-set i (y ∷ es) n x e h q = elim (found_cons i y es n x h) [
  | inl (first, _, same) ↦ rw first (ap (λ j. j ∷ ids es) (q ∙ sym same))
  | inr (m, next, _, later) ↦
      rw next (ap (λ js. ExecutionState.id y ∷ js) (ids-set i es m x e later q))
]

-- The search finds what was written at the found place under the same ID.
pub find-set :
    (i : ExecutionId) (es : List ExecutionState) (n : ℕ) (x e : ExecutionState)
    → find_execution i es ≡ some (n, x)
    → ExecutionState.id e ≡ i
    → find_execution i (set_execution es n e) ≡ some (n, e)
unfolding find_execution set_execution
find-set i [] n x e h q = absurd (cc)
find-set i (y ∷ es) n x e h q = elim (found_cons i y es n x h) [
  | inl (first, _, same) ↦ rw first (rw ((same_id_iff (ExecutionState.id e) i).1 q, find_execution))
  | inr (m, next, miss, later) ↦ rw next (rw (miss, find_execution, find-set i es m x e later q))
]
