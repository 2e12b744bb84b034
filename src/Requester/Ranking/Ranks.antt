-- ===== src/Requester/Ranking/Ranks.antt =====
-- The map of ranks that the chain of rankers keeps (pkg/requester/ranking/chain.go).
use bacalhau.Base.{
  ◌≡◌, ◌≢◌, refl, sym, ap, ◌∙◌, inl, inr, Bool, true, false, ◌||◌, String, List, [], ◌∷◌, Option,
  none, some, if◌then◌else◌, str_eq, eq_iff, arith, Bool-cases, Option-cases, All,
}
use bacalhau.Base.Map
use bacalhau.Base.Map.{Map}
use bacalhau.Requester.World.{ℤ, pos, NodeInfo, NodeRank}
use bacalhau.Requester.Ranking.{Ranks, start_ranks, combine, add_ranks, ranked}

-- The rank kept for a node.
unfoldable pub rank_at : Ranks → String → Option ℤ
rank_at m p = elim (Map.get m p) [ none ↦ none | some r ↦ some r.rank ]

-- The rank of a node after a list of ranks.
unfoldable pub fold_rank : String → ℤ → List NodeRank → ℤ
fold_rank p r [] = r
fold_rank p r (e ∷ es) =
    fold_rank p (if str_eq e.node_info.peer_id p then combine r e.rank else r) es

unfoldable pub folded : Option ℤ → String → List NodeRank → Option ℤ
folded o p es = elim o [ none ↦ none | some r ↦ some (fold_rank p r es) ]

unfoldable pub is_known : List NodeInfo → String → Bool
is_known [] p = false
is_known (n ∷ ns) p = str_eq n.peer_id p || is_known ns p

pub rank_at-put :
    (m : Ranks) (k : String) (r : NodeRank) (p : String)
    → rank_at (Map.put m k r) p ≡ (if str_eq k p then some r.rank else rank_at m p)
unfolding rank_at
rank_at-put m k r p = ground (arith, Map.get-put m k r p)

pub rank_at-start_ranks :
    (m : Ranks) (ns : List NodeInfo) (p : String)
    → rank_at (start_ranks m ns) p ≡ (if is_known ns p then some (pos 0) else rank_at m p)
unfolding start_ranks is_known
rank_at-start_ranks m [] p = refl
rank_at-start_ranks m (n ∷ ns) p = ground (
  arith,
  rank_at-start_ranks (Map.put m n.peer_id (record { node_info = n; rank = pos 0 })) ns p,
  rank_at-put m n.peer_id (record { node_info = n; rank = pos 0 }) p,
)

-- Every node stands under its ID, and once.
abbrev pub IsNamed : Ranks → Type 0
IsNamed [] = Unit
IsNamed ((k, r) ∷ m) = (r.node_info.peer_id ≡ k) × (Map.get m k ≡ none) × IsNamed m

remove-IsNamed : (m : Ranks) (k : String) → IsNamed m → IsNamed (Map.remove m k)
unfolding Map.remove
remove-IsNamed [] k v = tt
remove-IsNamed ((j, r) ∷ m) k v = elim (Bool-cases (str_eq j k)) [
  | inl here ↦ rw (here, Map.remove) (remove-IsNamed m k v.2)
  | inr other ↦
      rw (other, Map.remove)
        (v.0, ground (arith, Map.get-remove m k j, v.1), remove-IsNamed m k v.2)
]

put-IsNamed :
    (m : Ranks) (k : String) (r : NodeRank)
    → r.node_info.peer_id ≡ k
    → IsNamed m
    → IsNamed (Map.put m k r)
unfolding Map.put
put-IsNamed m k r named v = (named, Map.get-remove_self m k, remove-IsNamed m k v)

get-IsNamed :
    (m : Ranks) (k : String) (r : NodeRank)
    → IsNamed m
    → Map.get m k ≡ some r
    → r.node_info.peer_id ≡ k
unfolding Map.get
get-IsNamed [] k r v h = absurd (ground (arith, h))
get-IsNamed ((j, q) ∷ m) k r v h = elim (Bool-cases (str_eq j k)) [
  | inl here ↦
      let same : q ≡ r = ground (arith, h, here) in
      sym (ap (λ (x : NodeRank). x.node_info.peer_id) same) ∙ v.0 ∙ (eq_iff j k).0 here
  | inr other ↦ get-IsNamed m k r v.2 (ground (arith, h, other))
]

pub start_ranks-IsNamed : (m : Ranks) (ns : List NodeInfo) → IsNamed m → IsNamed (start_ranks m ns)
unfolding start_ranks Map.put
start_ranks-IsNamed m [] v = v
start_ranks-IsNamed m (n ∷ ns) v =
    start_ranks-IsNamed (Map.put m n.peer_id (record { node_info = n; rank = pos 0 })) ns
      (put-IsNamed m n.peer_id (record { node_info = n; rank = pos 0 }) refl v)

-- Each of these nodes is in the map.
abbrev pub IsListed : Ranks → List NodeRank → Type 0
IsListed m = All (λ (e : NodeRank). rank_at m e.node_info.peer_id ≢ none)

pub keep-IsListed :
    (m m' : Ranks) (es : List NodeRank)
    → ((p : String) → rank_at m p ≢ none → rank_at m' p ≢ none)
    → IsListed m es
    → IsListed m' es
keep-IsListed m m' [] keep v = tt
keep-IsListed m m' (e ∷ es) keep v = (keep e.node_info.peer_id v.0, keep-IsListed m m' es keep v.1)

-- The loop over ranks of nodes that are all in the map.
pub add_ranks_lem :
    (m : Ranks) (es : List NodeRank)
    → IsNamed m
    → IsListed m es
    → (m' : Ranks) × (add_ranks m es ≡ some m')
      × IsNamed m'
      × ((p : String) → rank_at m' p ≡ folded (rank_at m p) p es)
unfolding add_ranks folded fold_rank rank_at Map.put
add_ranks_lem m [] v there = (m, refl, v, λ p. ground arith)
add_ranks_lem m (e ∷ es) v there =
    let k = e.node_info.peer_id in
    elim (Option-cases (Map.get m k)) [
      | inl missing ↦ absurd (there.0 (ground (arith, missing)))
      | inr (r, found) ↦
          let q : NodeRank = record r { rank = combine r.rank e.rank } in
          let (m', done, named, ranks) =
            add_ranks_lem (Map.put m k q) es (put-IsNamed m k q (get-IsNamed m k r v found) v) (
              keep-IsListed m (Map.put m k q) es
                (λ p there missing. there (ground (arith, missing, rank_at-put m k q p)))
                there.1) in
          (
            m',
            rw (found, add_ranks) done,
            named,
            λ p. ground (arith, ranks p, rank_at-put m k q p, found, eq_iff k p),
          )
    ]

-- The ranks of a node in a list.
unfoldable pub ranks_of : String → List NodeRank → List ℤ
ranks_of p [] = []
ranks_of p (r ∷ rs) =
    let rest = ranks_of p rs in if str_eq r.node_info.peer_id p then r.rank ∷ rest else rest

ranks_of-missing :
    (m : Ranks) (p : String) → IsNamed m → Map.get m p ≡ none → ranks_of p (ranked m) ≡ []
unfolding ranks_of ranked Map.get
ranks_of-missing [] p v h = refl
ranks_of-missing ((k, r) ∷ m) p v h = elim (Bool-cases (str_eq k p)) [
  | inl here ↦ absurd (ground (arith, h, here))
  | inr other ↦
      let away : str_eq r.node_info.peer_id p ≡ false = rw v.0 other in
      ground (arith, away, ranks_of-missing m p v.2 (ground (arith, h, other)))
]

pub ranks_of-ranked :
    (m : Ranks) (p : String)
    → IsNamed m
    → ranks_of p (ranked m) ≡ elim (rank_at m p) [ none ↦ [] | some r ↦ r ∷ [] ]
unfolding ranks_of ranked rank_at Map.get
ranks_of-ranked [] p v = refl
ranks_of-ranked ((k, r) ∷ m) p v = elim (Bool-cases (str_eq k p)) [
  | inl here ↦
      let named : str_eq r.node_info.peer_id p ≡ true = rw v.0 here in
      let gone = ranks_of-missing m p v.2 (ap (Map.get m) (sym ((eq_iff k p).0 here)) ∙ v.1) in
      ground (arith, here, named, gone)
  | inr other ↦
      let away : str_eq r.node_info.peer_id p ≡ false = rw v.0 other in
      ground (arith, other, away, ranks_of-ranked m p v.2)
]
