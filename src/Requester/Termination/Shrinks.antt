-- ===== src/Requester/Termination/Shrinks.antt =====
-- How the executions of a job change while no result is proposed (pkg/requester).
use bacalhau.Base.{
  ℕ, suc, ◌≤◌, ◌<◌, ◌≡◌, refl, ap, ◌∙◌, ◌⊎◌, inl, inr, Bool, true, false, List, [], ◌∷◌, ◌++◌, some,
  arith, if◌then◌else◌, Bool-cases,
}
use bacalhau.Model.ExecutionState
use bacalhau.Model.ExecutionState.{
  ExecutionState, ExecutionStateType, ExecutionId, same_id, same_id_iff,
}
use bacalhau.JobStore.Executions.{find_execution, set_execution}
use bacalhau.JobStore.Ids.{found_cons}

-- The execution's result is proposed.
unfoldable pub is_proposed : ExecutionState → Bool
unfolding ExecutionState.same
is_proposed e = ExecutionState.same e.state ExecutionStateType.result_proposed

-- How many results are proposed.
unfoldable pub proposals : List ExecutionState → ℕ
proposals [] = 0
proposals (e ∷ es) = let rest = proposals es in if is_proposed e then suc rest else rest

-- Each execution keeps its ID and its place, and none comes to be one with a proposed result.
pub data Shrinks : List ExecutionState → List ExecutionState → Type 0 where
  grows : {es : List ExecutionState} → proposals es ≡ 0 → Shrinks [] es
  keeps :
      {x y : ExecutionState} {xs ys : List ExecutionState}
      → ExecutionState.id y ≡ ExecutionState.id x
      → (is_proposed y ≡ true → is_proposed x ≡ true)
      → Shrinks xs ys
      → Shrinks (x ∷ xs) (y ∷ ys)

pub Shrinks-refl : (es : List ExecutionState) → Shrinks es es
unfolding proposals
Shrinks-refl [] = grows refl
Shrinks-refl (e ∷ es) = keeps refl (λ h. h) (Shrinks-refl es)

pub Shrinks-count : {xs ys : List ExecutionState} → Shrinks xs ys → proposals ys ≤ proposals xs
unfolding proposals
Shrinks-count (grows none_there) = omega (arith, none_there)
Shrinks-count (keeps same fewer s) = ground (arith, fewer, Shrinks-count s)

pub Shrinks-trans : {xs ys zs : List ExecutionState} → Shrinks xs ys → Shrinks ys zs → Shrinks xs zs
Shrinks-trans (grows h) s = grows (omega (arith, Shrinks-count s, h))
Shrinks-trans (keeps a f s) (keeps b g t) = keeps (b ∙ a) (λ h. f (g h)) (Shrinks-trans s t)

pub Shrinks-append :
    (es : List ExecutionState) (e : ExecutionState)
    → is_proposed e ≡ false
    → Shrinks es (es ++ e ∷ [])
unfolding proposals
Shrinks-append [] e h = grows (rw h refl)
Shrinks-append (x ∷ es) e h = keeps refl (λ p. p) (Shrinks-append es e h)

-- The search finds the same place, in a list that keeps the IDs.
pub Shrinks-find :
    (i : ExecutionId) {xs ys : List ExecutionState} (n : ℕ) (x : ExecutionState)
    → Shrinks xs ys
    → find_execution i xs ≡ some (n, x)
    → is_proposed x ≡ true
    → (y : ExecutionState) × (find_execution i ys ≡ some (n, y))
      × ((is_proposed y ≡ true) ⊎ (proposals ys < proposals xs))
unfolding find_execution proposals
Shrinks-find i n x (grows h) there proposed = absurd (cc)
Shrinks-find i n x (keeps {x = a} {y = b} {xs} {ys} same fewer s) there proposed =
    elim (found_cons i a xs n x there) [
      | inl (first, here, hit) ↦
          let found : find_execution i (b ∷ ys) ≡ some (n, b) =
            rw (first, (same_id_iff (ExecutionState.id b) i).1 (same ∙ hit), find_execution) refl in
          (
            b,
            found,
            elim (Bool-cases (is_proposed b)) [
              | inl still ↦ inl still
              | inr settled ↦
                  inr (ground (arith, Shrinks-count s, settled, proposed, ap is_proposed here))
            ],
          )
      | inr (m, next, miss, later) ↦
          let (y, found, less) = Shrinks-find i m x s later proposed in
          let miss' : same_id (ExecutionState.id b) i ≡ false = rw same miss in
          (
            y,
            rw (miss', find_execution, found, next) refl,
            elim less [
              | inl still ↦ inl still
              | inr fewer_there ↦ inr (ground (arith, fewer_there, fewer))
            ],
          )
    ]

-- A write of an execution with the same ID, whose result is not proposed, at the place found.
pub Shrinks-set :
    (i : ExecutionId) (es : List ExecutionState) (n : ℕ) (x e : ExecutionState)
    → find_execution i es ≡ some (n, x)
    → ExecutionState.id e ≡ ExecutionState.id x
    → is_proposed e ≡ false
    → Shrinks es (set_execution es n e)
      × (is_proposed x ≡ true → proposals (set_execution es n e) < proposals es)
unfolding find_execution set_execution proposals
Shrinks-set i [] n x e there same calm = absurd (cc)
Shrinks-set i (a ∷ es) n x e there same calm = elim (found_cons i a es n x there) [
  | inl (first, here, hit) ↦ rw first (
    keeps (same ∙ ap ExecutionState.id here) (λ h. absurd (cc (h, calm))) (Shrinks-refl es),
    λ p. ground (arith, calm, p, ap is_proposed here),
  )
  | inr (m, next, miss, later) ↦
      let (s, less) = Shrinks-set i es m x e later same calm in
      rw next (keeps refl (λ h. h) s, λ p. ground (arith, less p))
]
