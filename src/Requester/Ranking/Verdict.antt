-- ===== src/Requester/Ranking/Verdict.antt =====
-- The ranks that the chain of rankers returns (pkg/requester/ranking/chain.go).
use bacalhau.Base.{
  ℕ, ◌+◌, ◌^◌, ◌<◌, ◌≡◌, refl, sym, ap, ◌∙◌, subst, ◌⊎◌, inl, inr, Bool, true, false, String, List,
  [], ◌∷◌, ◌++◌, Option, none, some, if◌then◌else◌, str_eq, arith, Bool-cases, All,
}
use bacalhau.Base.Map
use bacalhau.Base.Result.{Result, ok, err, Result-cases, ok_eq}
use bacalhau.Model.Job.{Job}
use bacalhau.Requester.World.{ℤ, pos, negsuc, NodeInfo, NodeRank}
use bacalhau.Requester.Ranking.{
  Ranks, NodeRanker, start_ranks, combine, ranked, run_rankers, chain_rank_nodes,
}
use bacalhau.Requester.Ranking.Ranks.{
  rank_at, fold_rank, folded, is_known, rank_at-start_ranks, IsNamed, start_ranks-IsNamed, IsListed,
  keep-IsListed, add_ranks_lem, ranks_of, ranks_of-ranked,
}

-- Some rank of the node is negative.
unfoldable pub rejected : String → List NodeRank → Bool
rejected p [] = false
rejected p (e ∷ es) =
    let rest = rejected p es in
    if str_eq e.node_info.peer_id p then elim e.rank [ pos n ↦ rest | negsuc n ↦ true ] else rest

-- The sum of the node's ranks that are not negative.
unfoldable pub total : String → List NodeRank → ℕ
total p [] = 0
total p (e ∷ es) =
    let rest = total p es in
    if str_eq e.node_info.peer_id p
    then elim e.rank [ pos n ↦ n + rest | negsuc n ↦ rest ]
    else rest

-- What the node's ranks amount to.
unfoldable pub verdict : String → List NodeRank → ℤ
verdict p es = if rejected p es then negsuc 0 else pos (total p es)

fold_negative : (p : String) (es : List NodeRank) → fold_rank p (negsuc 0) es ≡ negsuc 0
unfolding fold_rank combine
fold_negative p [] = refl
fold_negative p (e ∷ es) = ground (arith, fold_negative p es)

sign-cases : (z : ℤ) → ((n : ℕ) × (z ≡ pos n)) ⊎ ((n : ℕ) × (z ≡ negsuc n))
sign-cases (pos n) = inl (n, refl)
sign-cases (negsuc n) = inr (n, refl)

fold_positive :
    (p : String) (a : ℕ) (es : List NodeRank)
    → a + total p es < 2 ^ 63
    → fold_rank p (pos a) es ≡ (if rejected p es then negsuc 0 else pos (a + total p es))
unfolding fold_rank combine total rejected
fold_positive p a [] h = ap pos (omega arith)
fold_positive p a (e ∷ es) h = elim (Bool-cases (str_eq e.node_info.peer_id p)) [
  | inr other ↦ ground (arith, other, fold_positive p a es (ground (arith, h, other)))
  | inl here ↦ elim (sign-cases e.rank) [
    | inr (b, r) ↦ ground (arith, here, r, fold_negative p es)
    | inl (b, r) ↦
        let sum : (a + b) + total p es < 2 ^ 63 = ground (arith, h, here, r) in
        let rest = fold_positive p (a + b) es sum in ground (arith, here, r, rest, sum)
  ]
]

fold_verdict :
    (p : String) (es : List NodeRank) → total p es < 2 ^ 63 → fold_rank p (pos 0) es ≡ verdict p es
unfolding verdict
fold_verdict p es h = ground (arith, fold_positive p 0 es (omega (arith, h)))

fold-append :
    (p : String) (r : ℤ) (es fs : List NodeRank)
    → fold_rank p r (es ++ fs) ≡ fold_rank p (fold_rank p r es) fs
unfolding fold_rank
fold-append p r [] fs = refl
fold-append p r (e ∷ es) fs =
    fold-append p (if str_eq e.node_info.peer_id p then combine r e.rank else r) es fs

folded-append :
    (o : Option ℤ) (p : String) (es fs : List NodeRank)
    → folded o p (es ++ fs) ≡ folded (folded o p es) p fs
unfolding folded
folded-append none p es fs = refl
folded-append (some r) p es fs = ap some (fold-append p r es fs)

folded-nil : (o : Option ℤ) (p : String) → o ≡ folded o p []
unfolding folded fold_rank
folded-nil none p = refl
folded-nil (some r) p = refl

folded_missing : (o : Option ℤ) (p : String) (es : List NodeRank) → folded o p es ≡ none → o ≡ none
unfolding folded
folded_missing none p es h = refl
folded_missing (some r) p es h = absurd (ground (arith, h))

split-IsListed :
    (m : Ranks) (es fs : List NodeRank) → IsListed m (es ++ fs) → IsListed m es × IsListed m fs
split-IsListed m [] fs v = (tt, v)
split-IsListed m (e ∷ es) fs v = let (l, r) = split-IsListed m es fs v.1 in ((v.0, l), r)

module _ (job : Job) (nodes : List NodeInfo) where
  -- What all rankers say, or the error of the first that fails.
  unfoldable pub gather : List NodeRanker → Result String (List NodeRank)
  gather [] = ok []
  gather (rank_nodes ∷ rankers) = elim (rank_nodes job nodes) [
    | err e ↦ err e
    | ok es ↦ elim (gather rankers) [ err e ↦ err e | ok fs ↦ ok (es ++ fs) ]
  ]

  gathered :
      (rank_nodes : NodeRanker) (rankers : List NodeRanker) (es : List NodeRank)
      → gather (rank_nodes ∷ rankers) ≡ ok es
      → (fs gs : List NodeRank) × (rank_nodes job nodes ≡ ok fs)
        × (gather rankers ≡ ok gs)
        × (fs ++ gs ≡ es)
  unfolding gather
  gathered rank_nodes rankers es h = elim (Result-cases (rank_nodes job nodes)) [
    | inl (e, failed) ↦ absurd (ground (arith, h, failed))
    | inr (fs, said) ↦ elim (Result-cases (gather rankers)) [
      | inl (e, failed) ↦ absurd (ground (arith, h, said, failed))
      | inr (gs, rest) ↦ (fs, gs, said, rest, ground (arith, h, said, rest))
    ]
  ]

  run_rankers_lem :
      (m : Ranks) (rankers : List NodeRanker) (es : List NodeRank)
      → gather rankers ≡ ok es
      → IsNamed m
      → IsListed m es
      → (m' : Ranks) × (run_rankers job nodes m rankers ≡ ok m')
        × IsNamed m'
        × ((p : String) → rank_at m' p ≡ folded (rank_at m p) p es)
  unfolding run_rankers gather
  run_rankers_lem m [] es h v there = (
    m,
    refl,
    v,
    λ p.
        subst (λ fs. rank_at m p ≡ folded (rank_at m p) p fs) (ok_eq h)
          (folded-nil (rank_at m p) p),
  )
  run_rankers_lem m (rank_nodes ∷ rankers) es h v there =
      let (fs, gs, said, others, joined) = gathered rank_nodes rankers es h in
      let (here, later) = split-IsListed m fs gs (subst (IsListed m) (sym joined) there) in
      let (m1, added, named, ranks) = add_ranks_lem m fs v here in
      let (m2, ran, named', ranks') = run_rankers_lem m1 rankers gs others named (
        keep-IsListed m m1 gs
          (λ p there missing. there (folded_missing (rank_at m p) p fs (sym (ranks p) ∙ missing)))
          later) in
      (
        m2,
        rw (said, added, run_rankers) ran,
        named',
        λ p.
            ranks' p
            ∙ ap (λ o. folded o p gs) (ranks p)
            ∙ sym (folded-append (rank_at m p) p fs gs)
            ∙ ap (folded (rank_at m p) p) joined,
      )

  known-IsListed :
      (es : List NodeRank)
      → All (λ (e : NodeRank). is_known nodes e.node_info.peer_id ≡ true) es
      → IsListed (start_ranks [] nodes) es
  known-IsListed [] v = tt
  known-IsListed (e ∷ es) v = (
    λ missing. ground (arith, missing, v.0, rank_at-start_ranks [] nodes e.node_info.peer_id),
    known-IsListed es v.1,
  )

  -- Where every ranker answers, about nodes it was given, with ranks of which those not negative add
  -- up to less than 2 ^ 63 for each node, the chain returns each node it was given once, and no other,
  -- with the sum of its ranks, or -1 if one of them is negative.
  pub chain_rank_nodes_lem :
      (rankers : List NodeRanker) (es : List NodeRank)
      → gather rankers ≡ ok es
      → All (λ (e : NodeRank). is_known nodes e.node_info.peer_id ≡ true) es
      → ((p : String) → total p es < 2 ^ 63)
      → (rs : List NodeRank) × (chain_rank_nodes job nodes rankers ≡ ok rs)
        × ((p : String) → ranks_of p rs ≡ (if is_known nodes p then verdict p es ∷ [] else []))
  unfolding chain_rank_nodes verdict folded rank_at Map.get
  chain_rank_nodes_lem rankers es h known small =
      let start = start_ranks [] nodes in
      let (m, ran, named, ranks) =
        run_rankers_lem start rankers es h (start_ranks-IsNamed [] nodes tt)
          (known-IsListed es known) in
      (
        ranked m,
        rw (ran, chain_rank_nodes) refl,
        λ p. elim (Bool-cases (is_known nodes p)) [
          | inl there ↦
              let first : rank_at start p ≡ some (pos 0) =
                ground (arith, rank_at-start_ranks [] nodes p, there) in
              let last : rank_at m p ≡ some (verdict p es) =
                ranks p ∙ ap (λ o. folded o p es) first ∙ ap some (fold_verdict p es (small p)) in
              ground (arith, ranks_of-ranked m p named, last, there)
          | inr gone ↦
              let first : rank_at start p ≡ none =
                ground (arith, rank_at-start_ranks [] nodes p, gone) in
              let last : rank_at m p ≡ none = ranks p ∙ ap (λ o. folded o p es) first in
              ground (arith, ranks_of-ranked m p named, last, gone)
        ],
      )
