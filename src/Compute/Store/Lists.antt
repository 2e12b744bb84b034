-- ===== src/Compute/Store/Lists.antt =====
-- How often an ID stands in a list of IDs (pkg/compute/store/inmemory/store.go).
use bacalhau.Base.{
  ℕ, ◌+◌, ◌≡◌, String, List, [], ◌∷◌, ◌++◌, none, some, arith, length, if◌then◌else◌, str_eq,
  eq_iff, suc, Bool-cases, inl, inr, refl, ◌≢◌, Option-cases,
}
use bacalhau.Compute.Store.{cut}

unfoldable pub count : String → List String → ℕ
count k [] = 0
count k (x ∷ xs) = let rest = count k xs in if str_eq x k then suc rest else rest

pub count-append :
    (k x : String) (xs : List String)
    → count k (xs ++ x ∷ []) ≡ count k xs + (if str_eq x k then 1 else 0)
unfolding count
count-append k x [] = ground arith
count-append k x (y ∷ xs) = ground (arith, count-append k x xs)

-- A cut takes one occurrence of the ID and leaves every other ID as often as before.
pub count-cut :
    (k i : String) (xs ys : List String)
    → cut i xs ≡ some ys
    → count k xs ≡ count k ys + (if str_eq i k then 1 else 0)
unfolding count cut
count-cut k i [] ys h = absurd (cc)
count-cut k i (x ∷ xs) ys h = elim (Bool-cases (str_eq x i)) [
  | inl this ↦ ground (arith, this, h, eq_iff x i)
  | inr other ↦ elim (Option-cases (cut i xs)) [
    | inl missing ↦ ground (arith, other, h, missing)
    | inr (zs, there) ↦ ground (arith, other, h, there, count-cut k i xs zs there)
  ]
]

-- An ID that occurs can be cut.
pub cut_missing : (i : String) (xs : List String) → cut i xs ≡ none → count i xs ≡ 0
unfolding count cut
cut_missing i [] h = refl
cut_missing i (x ∷ xs) h = elim (Option-cases (cut i xs)) [
  | inl missing ↦ ground (arith, missing, h, cut_missing i xs missing)
  | inr (zs, there) ↦ ground (arith, there, h)
]

-- A cut shortens the list by one.
pub length-cut :
    (i : String) (xs ys : List String) → cut i xs ≡ some ys → length xs ≡ suc (length ys)
unfolding cut
length-cut i [] ys h = absurd (cc)
length-cut i (x ∷ xs) ys h = elim (Option-cases (cut i xs)) [
  | inl missing ↦ ground (arith, missing, h)
  | inr (zs, there) ↦ ground (arith, there, h, length-cut i xs zs there)
]

-- A list with one item holds only an ID that occurs in it.
pub count-single :
    (k i : String) (xs : List String)
    → length xs ≡ 1
    → count i xs ≢ 0
    → count k xs ≡ (if str_eq i k then 1 else 0)
unfolding count
count-single k i [] e h = ground arith
count-single k i (x ∷ []) e h = ground (arith, eq_iff x i, eq_iff x k, eq_iff i k)
count-single k i (x ∷ y ∷ xs) e h = ground arith
