-- ===== src/Verifier/Arrangement.antt =====
-- The groups in any order: Go leaves the order of a loop over a map open
-- (pkg/verifier/deterministic/verifier.go).
use mathlib.Core.List.{Permᴰ}
use mathlib.Core.List.Permᴰ
use bacalhau.Base.{
  ◌<◌, ◌≡◌, refl, sym, ◌∙◌, subst, String, Bool, false, List, ◌∷◌, none, length, arith, str_eq,
  eq_iff,
}
use bacalhau.Base.Map
use bacalhau.Requester.World.{VerifierResult}
use bacalhau.Verifier.{Groups, all_results}
use bacalhau.Verifier.Groups.{IsKeyed, IsFilled, size, exchange, group_results}

-- An order of the groups of every map.
abbrev pub IsArrangement : (Groups → Groups) → Type 0
IsArrangement arrange = (groups : Groups) → Permᴰ groups (arrange groups)

abbrev Group : Type 0
Group = String × List VerifierResult

cons-get :
    (a : Group) (xs ys : Groups) (hash : String)
    → Map.get xs hash ≡ Map.get ys hash
    → Map.get (a ∷ xs) hash ≡ Map.get (a ∷ ys) hash
unfolding Map.get
cons-get (k, g) xs ys hash h = ground (arith, h)

keyed_apart :
    (k j : String) (g f : List VerifierResult) (xs : Groups)
    → IsKeyed ((k, g) ∷ (j, f) ∷ xs)
    → (str_eq j k ≡ false) × (Map.get xs k ≡ none)
unfolding Map.get
keyed_apart k j g f xs v = (ground (arith, v.0), ground (arith, v.0))

swap-get :
    (a b : Group) (xs : Groups) (hash : String)
    → IsKeyed (a ∷ b ∷ xs)
    → Map.get (a ∷ b ∷ xs) hash ≡ Map.get (b ∷ a ∷ xs) hash
unfolding Map.get
swap-get (k, g) (j, f) xs hash v =
    let (apart, fresh) = keyed_apart k j g f xs v in
    ground (arith, apart, eq_iff k hash, eq_iff j hash, eq_iff j k)

swap-IsKeyed : (a b : Group) (xs : Groups) → IsKeyed (a ∷ b ∷ xs) → IsKeyed (b ∷ a ∷ xs)
unfolding Map.get
swap-IsKeyed (k, g) (j, f) xs v =
    let (apart, fresh) = keyed_apart k j g f xs v in
    (ground (arith, apart, v.1.0, eq_iff k j, eq_iff j k), (fresh, v.1.1))

-- In another order, the groups still have their keys once, and each key its group.
arranged :
    {groups others : Groups}
    → Permᴰ groups others
    → IsKeyed groups
    → IsKeyed others × ((hash : String) → Map.get groups hash ≡ Map.get others hash)
arranged Permᴰ.nil v = (tt, λ hash. refl)
arranged (Permᴰ.cons {a} {b} {l₁ = xs} {l₂ = ys} e d) v =
    let (w, same) = arranged d v.1 in
    subst
      (λ c. IsKeyed (c ∷ ys) × ((hash : String) → Map.get (a ∷ xs) hash ≡ Map.get (c ∷ ys) hash)) e
      ((sym (same a.0) ∙ v.0, w), λ hash. cons-get a xs ys hash (same hash))
arranged (Permᴰ.swap {a} {b} {a' = y} {b' = z} {l = xs} e f) v =
    subst
      (λ c.
        IsKeyed (c ∷ z ∷ xs)
        × ((hash : String) → Map.get (a ∷ b ∷ xs) hash ≡ Map.get (c ∷ z ∷ xs) hash))
      f
      (subst
        (λ d.
          IsKeyed (b ∷ d ∷ xs)
          × ((hash : String) → Map.get (a ∷ b ∷ xs) hash ≡ Map.get (b ∷ d ∷ xs) hash))
        e (swap-IsKeyed a b xs v, λ hash. swap-get a b xs hash v))
arranged (Permᴰ.trans c d) v =
    let (w, same) = arranged c v in
    let (x, same') = arranged d w in (x, λ hash. same hash ∙ same' hash)

pub arranged-IsFilled :
    {groups others : Groups} → Permᴰ groups others → IsFilled groups → IsFilled others
arranged-IsFilled Permᴰ.nil f = tt
arranged-IsFilled (Permᴰ.cons e d) f = (subst (λ c. 0 < length c.1) e f.0, arranged-IsFilled d f.1)
arranged-IsFilled (Permᴰ.swap e g) f =
    (subst (λ c. 0 < length c.1) g f.1.0, (subst (λ c. 0 < length c.1) e f.0, f.1.1))
arranged-IsFilled (Permᴰ.trans c d) f = arranged-IsFilled d (arranged-IsFilled c f)

pub arranged-all_results :
    (passes : String → Bool) {groups others : Groups}
    → Permᴰ groups others
    → Permᴰ (all_results passes groups) (all_results passes others)
unfolding all_results
arranged-all_results passes Permᴰ.nil = Permᴰ.nil
arranged-all_results passes (Permᴰ.cons {a} {b} {l₁ = xs} {l₂ = ys} e d) =
    subst (λ c. Permᴰ (all_results passes (a ∷ xs)) (all_results passes (c ∷ ys))) e
      (Permᴰ.append_left (group_results passes a.0 a.1) (arranged-all_results passes d))
arranged-all_results passes (Permᴰ.swap {a} {b} {a' = y} {b' = z} {l = xs} e f) =
    subst (λ c. Permᴰ (all_results passes (a ∷ b ∷ xs)) (all_results passes (c ∷ z ∷ xs))) f
      (subst (λ d. Permᴰ (all_results passes (a ∷ b ∷ xs)) (all_results passes (b ∷ d ∷ xs))) e
        (exchange (group_results passes a.0 a.1) (group_results passes b.0 b.1)
          (all_results passes xs)))
arranged-all_results passes (Permᴰ.trans c d) =
    Permᴰ.trans (arranged-all_results passes c) (arranged-all_results passes d)

module _ (arrange : Groups → Groups) (free : IsArrangement arrange) (groups : Groups) where
  pub arranged-IsKeyed : IsKeyed groups → IsKeyed (arrange groups)
  arranged-IsKeyed v = (arranged (free groups) v).0

  pub arranged-size : IsKeyed groups → size (arrange groups) ≡ size groups
  unfolding size Map.get_or
  arranged-size v =
      let same : (hash : String) → size (arrange groups) hash ≡ size groups hash =
        λ hash. ground (arith, (arranged (free groups) v).1 hash) in
      λ i hash. same hash i
