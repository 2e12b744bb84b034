-- ===== src/Verifier/Order.antt =====
-- The verifier's verdicts do not depend on the order of the executions or of a map's entries
-- (pkg/verifier/deterministic/verifier.go).
use mathlib.Core.List.{Permᴰ}
use mathlib.Core.List.Permᴰ
use bacalhau.Base.{
  ℕ, ◌≡◌, ◌↔◌, refl, sym, ap, ◌∙◌, subst, String, Bool, true, List, map, arith, inl, inr,
  Bool-cases,
}
use bacalhau.Base.Result.{Result, ok}
use bacalhau.Model.Job.{Deal}
use bacalhau.Model.ExecutionState.{ExecutionState}
use bacalhau.Requester.World.{VerifierRequest, VerifierResult}
use bacalhau.Verifier.Arrangement.{IsArrangement}
use bacalhau.Verifier.{Groups, verify, validate_executions}
use bacalhau.Verifier.Groups.{votes, result_of}
use bacalhau.Verifier.Majority.{IsMajority, verify-IsMajority}

map-perm {ℓ κ} :
    {A : Type ℓ} {B : Type κ} (f : A → B) {xs ys : List A}
    → Permᴰ xs ys
    → Permᴰ (map f xs) (map f ys)
map-perm f Permᴰ.nil = Permᴰ.nil
map-perm f (Permᴰ.cons e d) = Permᴰ.cons (ap f e) (map-perm f d)
map-perm f (Permᴰ.swap e g) = Permᴰ.swap (ap f e) (ap f g)
map-perm f (Permᴰ.trans c d) = Permᴰ.trans (map-perm f c) (map-perm f d)

-- Two tests with one meaning agree.
same_test {ℓ} : (P : Type ℓ) (a b : Bool) → (a ≡ true) ↔ P → (b ≡ true) ↔ P → a ≡ b
same_test P a b f g = elim (Bool-cases a) [
  | inl yes_a ↦ yes_a ∙ sym (g.1 (f.0 yes_a))
  | inr no_a ↦ elim (Bool-cases b) [
    | inl yes_b ↦ absurd (cc (no_a, f.1 (g.0 yes_b)))
    | inr no_b ↦ no_a ∙ sym no_b
  ]
]

module _ (decrypt : List ℕ → Result String String) where
  votes-perm :
      {es fs : List ExecutionState} (hash : String)
      → Permᴰ es fs
      → votes decrypt es hash ≡ votes decrypt fs hash
  unfolding votes
  votes-perm hash Permᴰ.nil = refl
  votes-perm hash (Permᴰ.cons e d) = rw (e, votes-perm hash d) refl
  votes-perm hash (Permᴰ.swap e f) = rw (e, f) (ground arith)
  votes-perm hash (Permᴰ.trans c d) = votes-perm hash c ∙ votes-perm hash d

  module _ (first_order last_order first_order' last_order' : Groups → Groups)
      (free : IsArrangement first_order) (free_last : IsArrangement last_order)
      (free' : IsArrangement first_order') (free_last' : IsArrangement last_order') where
    -- The verifications of two valid requests with one deal, whose executions are the same in two
    -- orders, return the same results, in some order, whatever the orders in which each goes through
    -- its map of groups.
    pub verify-perm :
        (p q : VerifierRequest)
        → validate_executions p ≡ ok tt
        → validate_executions q ≡ ok tt
        → p.deal ≡ q.deal
        → Permᴰ p.executions q.executions
        → (rs ss : List VerifierResult) × (verify decrypt first_order last_order p ≡ ok rs)
          × (verify decrypt first_order' last_order' q ≡ ok ss)
          × Permᴰ rs ss
    verify-perm p q valid valid' deal perm =
        let (wins, rs, found, mine, means) =
          verify-IsMajority decrypt first_order last_order free free_last p valid in
        let (wins', ss, found', yours, means') =
          verify-IsMajority decrypt first_order' last_order' free' free_last' q valid' in
        let tally : votes decrypt p.executions ≡ votes decrypt q.executions =
          λ i hash. votes-perm hash perm i in
        let agree : (hash : String) → wins hash ≡ wins' hash = λ hash.
          same_test (IsMajority (votes decrypt q.executions) q.deal.confidence hash) (wins hash)
            (wins' hash)
            (subst (λ t. (wins hash ≡ true) ↔ IsMajority t q.deal.confidence hash) tally
              (subst
                (λ (d : Deal).
                  (wins hash ≡ true) ↔ IsMajority (votes decrypt p.executions) d.confidence hash)
                deal (means hash)))
            (means' hash) in
        let same : wins ≡ wins' = λ i hash. agree hash i in
        (
          rs,
          ss,
          found,
          found',
          Permᴰ.trans mine (
              Permᴰ.trans
                (subst
                  (λ w.
                    Permᴰ (map (result_of decrypt wins) p.executions)
                      (map (result_of decrypt w) q.executions))
                  same (map-perm (result_of decrypt wins) perm))
                (Permᴰ.symm yours)),
        )
