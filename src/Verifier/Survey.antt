-- ===== src/Verifier/Survey.antt =====
-- What the loop over the groups finds (pkg/verifier/deterministic/verifier.go).
use bacalhau.Base.{
  ℕ, suc, ◌+◌, ◌≤◌, ◌<◌, ◌≡◌, ◌≢◌, refl, sym, ap, ◌∙◌, subst, ◌⊎◌, String, true, false, List, [],
  ◌∷◌, none, length, arith, if◌then◌else◌, ltb, ◌==◌, ==_iff, ltb→lt, str_eq, eq_iff, inl, inr,
  Bool-cases,
}
use bacalhau.Base.Map
use bacalhau.Requester.World.{VerifierResult}
use bacalhau.Verifier.{Groups, Seen, survey}
use bacalhau.Verifier.Groups.{IsKeyed, IsFilled, size}

-- How many groups have a size.
unfoldable pub number : Groups → ℕ → ℕ
number [] n = 0
number ((hash, group) ∷ groups) n =
    let rest = number groups n in if n == length group then suc rest else rest

here-size :
    (k hash : String) (g : List VerifierResult) (groups : Groups)
    → str_eq k hash ≡ true
    → size ((k, g) ∷ groups) hash ≡ length g
unfolding size Map.get_or Map.get
here-size k hash g groups here = ground (arith, here)

later-size :
    (k hash : String) (g : List VerifierResult) (groups : Groups)
    → str_eq k hash ≡ false
    → size ((k, g) ∷ groups) hash ≡ size groups hash
unfolding size Map.get_or Map.get
later-size k hash g groups other = ground (arith, other)

size-fresh : (groups : Groups) (hash : String) → Map.get groups hash ≡ none → size groups hash ≡ 0
unfolding size Map.get_or
size-fresh groups hash h = ground (arith, h)

-- A hash that some result has is the key of a group of its size.
pub number-one :
    (groups : Groups) (hash : String) (n : ℕ) → size groups hash ≡ n → 0 < n → 0 < number groups n
unfolding number size Map.get_or Map.get
number-one [] hash n h pos = absurd (omega (arith, h, pos))
number-one ((k, g) ∷ groups) hash n h pos = elim (Bool-cases (str_eq k hash)) [
  | inl here ↦ ground (arith, h, here-size k hash g groups here)
  | inr other ↦
      let rest = number-one groups hash n (sym (later-size k hash g groups other) ∙ h) pos in
      ground (arith, rest)
]

-- Two hashes with groups of one size are two groups of that size.
pub number-two :
    (groups : Groups) (hash other : String) (n : ℕ)
    → str_eq hash other ≡ false
    → size groups hash ≡ n
    → size groups other ≡ n
    → 0 < n
    → 1 < number groups n
unfolding number size Map.get_or Map.get
number-two [] hash other n apart h o pos = absurd (omega (arith, h, pos))
number-two ((k, g) ∷ groups) hash other n apart h o pos = elim (Bool-cases (str_eq k hash)) [
  | inl here ↦
      let away : str_eq k other ≡ false = rw ((eq_iff k hash).0 here) apart in
      let rest = number-one groups other n (sym (later-size k other g groups away) ∙ o) pos in
      ground (arith, rest, h, here-size k hash g groups here)
  | inr off ↦ elim (Bool-cases (str_eq k other)) [
    | inl here ↦
        let rest = number-one groups hash n (sym (later-size k hash g groups off) ∙ h) pos in
        ground (arith, rest, o, here-size k other g groups here)
    | inr away ↦
        let rest =
          number-two groups hash other n apart (sym (later-size k hash g groups off) ∙ h)
            (sym (later-size k other g groups away) ∙ o) pos in
        ground (arith, rest)
  ]
]

-- The hash has a group, of this size.
abbrev pub Has : Groups → ℕ → String → Type 0
Has groups n hash = (size groups hash ≡ n) × (Map.get groups hash ≢ none)

Has-here :
    (k : String) (g : List VerifierResult) (groups : Groups) (n : ℕ)
    → (n == length g) ≡ true
    → Has ((k, g) ∷ groups) n k
unfolding Map.get
Has-here k g groups n h = (
  here-size k k g groups ((eq_iff k k).1 refl) ∙ sym ((==_iff n (length g)).0 h),
  λ missing. ground (arith, missing, eq_iff k k),
)

Has-later :
    (k : String) (g : List VerifierResult) (groups : Groups) (n : ℕ) (hash : String)
    → IsKeyed ((k, g) ∷ groups)
    → Has groups n hash
    → (str_eq k hash ≡ false) × Has ((k, g) ∷ groups) n hash
unfolding Map.get
Has-later k g groups n hash v (fits, there) = elim (Bool-cases (str_eq k hash)) [
  | inl here ↦ absurd (there (ap (Map.get groups) (sym ((eq_iff k hash).0 here)) ∙ v.0))
  | inr other ↦ (
    other,
    (later-size k hash g groups other ∙ fits, λ missing. there (ground (arith, missing, other))),
  )
]

-- A group of a size is the group of some hash.
some_group :
    (groups : Groups) (n : ℕ)
    → IsKeyed groups
    → 0 < number groups n
    → (hash : String) × Has groups n hash
unfolding number
some_group [] n v some_there = absurd (omega (arith, some_there))
some_group ((k, g) ∷ groups) n v some_there = elim (Bool-cases (n == length g)) [
  | inl here ↦ (k, Has-here k g groups n here)
  | inr other ↦
      let (hash, has) = some_group groups n v.1 (ground (arith, some_there, other)) in
      (hash, (Has-later k g groups n hash v has).1)
]

-- Two groups of one size are the groups of two hashes.
pub two_groups :
    (groups : Groups) (n : ℕ)
    → IsKeyed groups
    → 1 < number groups n
    → (hash other : String) × (str_eq hash other ≡ false) × Has groups n hash × Has groups n other
unfolding number
two_groups [] n v both = absurd (omega (arith, both))
two_groups ((k, g) ∷ groups) n v both = elim (Bool-cases (n == length g)) [
  | inl here ↦
      let (hash, has) = some_group groups n v.1 (ground (arith, both, here)) in
      let (apart, later) = Has-later k g groups n hash v has in
      (k, hash, apart, Has-here k g groups n here, later)
  | inr away ↦
      let (hash, other, apart, a, b) = two_groups groups n v.1 (ground (arith, both, away)) in
      (
        hash,
        other,
        apart,
        (Has-later k g groups n hash v a).1,
        (Has-later k g groups n other v b).1,
      )
]

-- One turn of the loop.
abbrev see : String → List VerifierResult → Seen → Seen
see hash group s = record {
  largest_group_size =
      if ltb s.largest_group_size (length group) then length group else s.largest_group_size;
  largest_group_hash =
      if ltb s.largest_group_size (length group) then hash else s.largest_group_hash;
  group_size_counts =
      λ m. if m == length group then suc (s.group_size_counts m) else s.group_size_counts m;
}

survey-grows :
    (groups : Groups) (s : Seen) → s.largest_group_size ≤ (survey groups s).largest_group_size
unfolding survey
survey-grows [] s = omega arith
survey-grows ((k, g) ∷ groups) s =
    ground (arith, survey-grows groups (see k g s), ltb→lt s.largest_group_size (length g))

-- No group is larger than the largest.
pub survey_bound :
    (groups : Groups) (s : Seen) (hash : String)
    → size groups hash ≤ (survey groups s).largest_group_size
unfolding survey size Map.get_or Map.get
survey_bound [] s hash = omega arith
survey_bound ((k, g) ∷ groups) s hash = elim (Bool-cases (str_eq k hash)) [
  | inl here ↦ ground (arith, survey-grows groups (see k g s), here-size k hash g groups here)
  | inr other ↦
      omega (arith, survey_bound groups (see k g s) hash, later-size k hash g groups other)
]

pub survey_counts :
    (groups : Groups) (s : Seen) (n : ℕ)
    → (survey groups s).group_size_counts n ≡ s.group_size_counts n + number groups n
unfolding survey number
survey_counts [] s n = omega arith
survey_counts ((k, g) ∷ groups) s n = ground (arith, survey_counts groups (see k g s) n)

-- The largest size is the one before the loop, or that of the hash that is kept.
pub survey_largest :
    (groups : Groups) (s : Seen)
    → IsKeyed groups
    → (((survey groups s).largest_group_size ≡ s.largest_group_size)
        × ((survey groups s).largest_group_hash ≡ s.largest_group_hash))
      ⊎ Has groups (survey groups s).largest_group_size (survey groups s).largest_group_hash
unfolding survey
survey_largest [] s v = inl (refl, refl)
survey_largest ((k, g) ∷ groups) s v = elim (survey_largest groups (see k g s) v.1) [
  | inr has ↦ inr ((Has-later k g groups _ _ v has).1)
  | inl (same, kept) ↦ elim (Bool-cases (ltb s.largest_group_size (length g))) [
    | inr smaller ↦ inl (
      ground (arith, same, smaller),
      kept ∙ ap (λ b. if b then k else s.largest_group_hash) smaller,
    )
    | inl larger ↦
        let f = survey groups (see k g s) in
        let full : f.largest_group_size ≡ length g =
          same ∙ ap (λ b. if b then length g else s.largest_group_size) larger in
        let own : f.largest_group_hash ≡ k =
          kept ∙ ap (λ b. if b then k else s.largest_group_hash) larger in
        inr (
          subst (Has ((k, g) ∷ groups) f.largest_group_size) (sym own) (
            Has-here k g groups f.largest_group_size
              ((==_iff f.largest_group_size (length g)).1 full)))
  ]
]

-- Groups of which none is larger than 1 are all of size 1.
pub all_single :
    (groups : Groups)
    → IsKeyed groups
    → IsFilled groups
    → ((hash : String) → size groups hash ≤ 1)
    → number groups 1 ≡ length groups
unfolding number
all_single [] v f small = refl
all_single ((k, g) ∷ groups) v f small =
    let rest = all_single groups v.1 f.1 (λ hash. elim (Bool-cases (str_eq k hash)) [
      | inl here ↦
          omega (
            arith,
            size-fresh groups hash (sym (ap (Map.get groups) ((eq_iff k hash).0 here)) ∙ v.0),
          )
      | inr other ↦ omega (arith, small hash, later-size k hash g groups other)
    ]) in
    ground (arith, rest, f.0, small k, here-size k k g groups ((eq_iff k k).1 refl))

-- A hash that has a group has a result.
pub filled_size :
    (groups : Groups) (hash : String)
    → IsFilled groups
    → Map.get groups hash ≢ none
    → 0 < size groups hash
unfolding Map.get
filled_size [] hash f there = absurd (there refl)
filled_size ((k, g) ∷ groups) hash f there = elim (Bool-cases (str_eq k hash)) [
  | inl here ↦ omega (arith, f.0, here-size k hash g groups here)
  | inr other ↦
      let rest = filled_size groups hash f.1 (λ missing. there (ground (arith, missing, other))) in
      omega (arith, rest, later-size k hash g groups other)
]
