-- ===== src/Verifier/Groups.antt =====
-- The groups of results by their hash (pkg/verifier/deterministic/verifier.go).
use mathlib.Core.List.{Permᴰ}
use mathlib.Core.List.Permᴰ
use bacalhau.Base.{
  ℕ, suc, ◌+◌, ◌<◌, ◌≡◌, refl, ap, ◌∙◌, subst, String, Bool, false, List, [], ◌∷◌, ◌++◌, none, map,
  length, length-append, arith, if◌then◌else◌, str_eq, eq_iff, inl, inr, Bool-cases,
}
use mathlib.Core.List.{map-append}
use bacalhau.Base.Map
use bacalhau.Base.Map.{Map}
use bacalhau.Base.Result.{Result}
use bacalhau.Model.ExecutionState
use bacalhau.Model.ExecutionState.{ExecutionState}
use bacalhau.Requester.World.{VerifierResult}
use bacalhau.Verifier.{
  Groups, unverified, verify_one, all_results, reported_hash, add_to_group, hash_groups,
}

-- Each key stands once.
abbrev pub IsKeyed : Groups → Type 0
IsKeyed [] = Unit
IsKeyed ((hash, group) ∷ groups) = (Map.get groups hash ≡ none) × IsKeyed groups

-- The size of a group, 0 for a hash that no result has.
unfoldable pub size : Groups → String → ℕ
size groups hash = length (Map.get_or groups hash [])

-- The results of one group.
abbrev pub group_results : (String → Bool) → String → List VerifierResult → List VerifierResult
group_results passes hash group = if passes hash then map verify_one group else group

-- A key that is not there is not removed.
remove-fresh :
    (groups : Groups) (hash : String) → Map.get groups hash ≡ none → Map.remove groups hash ≡ groups
unfolding Map.remove Map.get
remove-fresh [] hash h = refl
remove-fresh ((k, g) ∷ groups) hash h = elim (Bool-cases (str_eq k hash)) [
  | inl here ↦ absurd (ground (arith, h, here))
  | inr other ↦
      rw (other, Map.remove)
        (ap (λ m. (k, g) ∷ m) (remove-fresh groups hash (ground (arith, h, other))))
]

remove-IsKeyed :
    (groups : Groups) (hash : String) → IsKeyed groups → IsKeyed (Map.remove groups hash)
unfolding Map.remove
remove-IsKeyed [] hash v = tt
remove-IsKeyed ((k, g) ∷ groups) hash v = elim (Bool-cases (str_eq k hash)) [
  | inl here ↦ rw (here, Map.remove) (remove-IsKeyed groups hash v.1)
  | inr other ↦
      rw (other, Map.remove)
        (ground (arith, Map.get-remove groups hash k, v.0), remove-IsKeyed groups hash v.1)
]

pub put-IsKeyed :
    (groups : Groups) (hash : String) (group : List VerifierResult)
    → IsKeyed groups
    → IsKeyed (Map.put groups hash group)
unfolding Map.put
put-IsKeyed groups hash group v = (Map.get-remove_self groups hash, remove-IsKeyed groups hash v)

pub exchange {ℓ} : {A : Type ℓ} (xs ys zs : List A) → Permᴰ (xs ++ (ys ++ zs)) (ys ++ (xs ++ zs))
exchange [] ys zs = Permᴰ.refl (ys ++ zs)
exchange (x ∷ xs) ys zs =
    Permᴰ.trans (Permᴰ.cons refl (exchange xs ys zs)) (Permᴰ.symm (Permᴰ.middle x ys (xs ++ zs)))

pub skip-group :
    (k hash : String) (g : List VerifierResult) (groups : Groups)
    → str_eq k hash ≡ false
    → Map.get_or ((k, g) ∷ groups) hash [] ≡ Map.get_or groups hash []
unfolding Map.get_or Map.get
skip-group k hash g groups other = ground (arith, other)

-- A group taken out and put in front.
front-perm :
    (passes : String → Bool) (groups : Groups) (hash : String)
    → IsKeyed groups
    → Permᴰ
        (group_results passes hash (Map.get_or groups hash [])
          ++ all_results passes (Map.remove groups hash))
        (all_results passes groups)
unfolding all_results Map.get_or Map.get Map.remove
front-perm passes [] hash v = elim (Bool-cases (passes hash)) [
  | inl good ↦ rw good Permᴰ.nil
  | inr bad ↦ rw bad Permᴰ.nil
]
front-perm passes ((k, g) ∷ groups) hash v = elim (Bool-cases (str_eq k hash)) [
  | inl here ↦
      subst
        (λ h.
          Permᴰ
            (group_results passes h (Map.get_or ((k, g) ∷ groups) h [])
              ++ all_results passes (Map.remove ((k, g) ∷ groups) h))
            (all_results passes ((k, g) ∷ groups)))
        ((eq_iff k hash).0 here)
        (rw
          (
            Map.get_or-here ((k, g) ∷ groups) k [] g (rw ((eq_iff k k).1 refl, Map.get) refl),
            (eq_iff k k).1 refl,
            Map.remove,
            remove-fresh groups k v.0,
          )
          (Permᴰ.refl (group_results passes k g ++ all_results passes groups)))
  | inr other ↦
      rw (skip-group k hash g groups other, other, Map.remove)
        (Permᴰ.trans
          (exchange (group_results passes hash (Map.get_or groups hash []))
            (group_results passes k g) (all_results passes (Map.remove groups hash)))
          (Permᴰ.append_left (group_results passes k g) (front-perm passes groups hash v.1)))
]

-- No group is empty.
abbrev pub IsFilled : Groups → Type 0
IsFilled [] = Unit
IsFilled ((hash, group) ∷ groups) = (0 < length group) × IsFilled groups

remove-IsFilled :
    (groups : Groups) (hash : String) → IsFilled groups → IsFilled (Map.remove groups hash)
unfolding Map.remove
remove-IsFilled [] hash v = tt
remove-IsFilled ((k, g) ∷ groups) hash v = elim (Bool-cases (str_eq k hash)) [
  | inl here ↦ rw (here, Map.remove) (remove-IsFilled groups hash v.1)
  | inr other ↦ rw (other, Map.remove) (v.0, remove-IsFilled groups hash v.1)
]

-- A result at the end of a group.
group-joined :
    (passes : String → Bool) (hash : String) (old : List VerifierResult) (e : ExecutionState)
    → Permᴰ (group_results passes hash (old ++ unverified e ∷ [])) (
        record { execution_id = ExecutionState.id e; verified = passes hash }
        ∷ group_results passes hash old)
group-joined passes hash old e = elim (Bool-cases (passes hash)) [
  | inl good ↦
      rw (good, map-append verify_one old (unverified e ∷ []))
        (Permᴰ.trans (Permᴰ.middle (verify_one (unverified e)) (map verify_one old) [])
          (Permᴰ.cons refl (Permᴰ.append-nil (map verify_one old))))
  | inr bad ↦
      rw bad
        (Permᴰ.trans (Permᴰ.middle (unverified e) old []) (Permᴰ.cons refl (Permᴰ.append-nil old)))
]

module _ (decrypt : List ℕ → Result String String) where
  -- How many executions report a hash.
  unfoldable pub votes : List ExecutionState → String → ℕ
  votes [] hash = 0
  votes (e ∷ es) hash =
      let rest = votes es hash in if str_eq (reported_hash decrypt e) hash then suc rest else rest

  -- The result of an execution, if the hashes that pass are known.
  abbrev pub result_of : (String → Bool) → ExecutionState → VerifierResult
  result_of passes e = record {
    execution_id = ExecutionState.id e;
    verified = passes (reported_hash decrypt e);
  }

  module _ (groups : Groups) (e : ExecutionState) (v : IsKeyed groups) where
    added-perm :
        (passes : String → Bool)
        → Permᴰ
            (all_results passes (add_to_group decrypt groups e))
            (result_of passes e ∷ all_results passes groups)
    unfolding add_to_group Map.put all_results
    added-perm passes =
        let hash = reported_hash decrypt e in
        let old = Map.get_or groups hash [] in
        let rest = all_results passes (Map.remove groups hash) in
        Permᴰ.trans (Permᴰ.append_right rest (group-joined passes hash old e))
          (Permᴰ.cons refl (front-perm passes groups hash v))

    added-size :
        (hash : String)
        → size (add_to_group decrypt groups e) hash ≡ size groups hash + votes (e ∷ []) hash
    unfolding add_to_group size votes
    added-size hash =
        let h = reported_hash decrypt e in
        let old = Map.get_or groups h [] in
        elim (Bool-cases (str_eq h hash)) [
          | inl here ↦
              rw (Map.get_or-put groups h hash [] (old ++ unverified e ∷ []), here)
                (length-append old (unverified e ∷ [])
                  ∙ ap (λ k. length (Map.get_or groups k []) + 1) ((eq_iff h hash).0 here))
          | inr other ↦
              rw (Map.get_or-put groups h hash [] (old ++ unverified e ∷ []), other) (omega arith)
        ]

    added-IsKeyed : IsKeyed (add_to_group decrypt groups e)
    unfolding add_to_group
    added-IsKeyed =
        put-IsKeyed groups (reported_hash decrypt e)
          (Map.get_or groups (reported_hash decrypt e) [] ++ unverified e ∷ []) v

    added-IsFilled : IsFilled groups → IsFilled (add_to_group decrypt groups e)
    unfolding add_to_group Map.put
    added-IsFilled f = (
      omega (
        arith,
        length-append (Map.get_or groups (reported_hash decrypt e) []) (unverified e ∷ []),
      ),
      remove-IsFilled groups (reported_hash decrypt e) f,
    )

  -- The results of the groups are those of the executions, in some order.
  pub hash_groups-perm :
      (passes : String → Bool) (groups : Groups) (es : List ExecutionState)
      → IsKeyed groups
      → Permᴰ
          (all_results passes (hash_groups decrypt groups es))
          (map (result_of passes) es ++ all_results passes groups)
  unfolding hash_groups
  hash_groups-perm passes groups [] v = Permᴰ.refl (all_results passes groups)
  hash_groups-perm passes groups (e ∷ es) v =
      Permᴰ.trans
        (hash_groups-perm passes (add_to_group decrypt groups e) es (added-IsKeyed groups e v))
        (Permᴰ.trans (Permᴰ.append_left (map (result_of passes) es) (added-perm groups e v passes))
          (Permᴰ.middle (result_of passes e) (map (result_of passes) es)
            (all_results passes groups)))

  pub hash_groups-size :
      (groups : Groups) (es : List ExecutionState) (hash : String)
      → IsKeyed groups
      → size (hash_groups decrypt groups es) hash ≡ size groups hash + votes es hash
  unfolding hash_groups votes
  hash_groups-size groups [] hash v = omega arith
  hash_groups-size groups (e ∷ es) hash v = ground (
    arith,
    added-size groups e v hash,
    hash_groups-size (add_to_group decrypt groups e) es hash (added-IsKeyed groups e v),
  )

  pub hash_groups-IsKeyed :
      (groups : Groups) (es : List ExecutionState)
      → IsKeyed groups
      → IsKeyed (hash_groups decrypt groups es)
  unfolding hash_groups
  hash_groups-IsKeyed groups [] v = v
  hash_groups-IsKeyed groups (e ∷ es) v =
      hash_groups-IsKeyed (add_to_group decrypt groups e) es (added-IsKeyed groups e v)

  pub hash_groups-IsFilled :
      (groups : Groups) (es : List ExecutionState)
      → IsKeyed groups
      → IsFilled groups
      → IsFilled (hash_groups decrypt groups es)
  unfolding hash_groups
  hash_groups-IsFilled groups [] v f = f
  hash_groups-IsFilled groups (e ∷ es) v f =
      hash_groups-IsFilled (add_to_group decrypt groups e) es (added-IsKeyed groups e v)
        (added-IsFilled groups e v f)
