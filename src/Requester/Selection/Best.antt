-- ===== src/Requester/Selection/Best.antt =====
-- Which nodes are selected (pkg/requester: node_selector.go, scheduler_state.go).
use mathlib.Core.List.{Permᴰ}
use mathlib.Core.List.Permᴰ
use bacalhau.Base.{
  ℕ, zero, suc, ◌≤◌, ◌≡◌, refl, sym, ap, ◌∙◌, subst, Bool, true, false, List, [], ◌∷◌, ◌++◌, All,
  ltb, leb, length, take, drop, min_int, take-drop, length-take, length-perm, All-perm, All-take,
  All-drop, arith, inl, inr, Bool-cases, ltb→lt, ◌⊎◌, ◌<◌,
}
use bacalhau.Base.Result.{ok, err, ok_eq, Result-cases}
use bacalhau.Model.Job.{Job}
use bacalhau.Requester.World.{
  Scheduler, not_enough_nodes, outside, NodeInfo, NodeRank, ℤ, pos, negsuc, Instant,
}
use bacalhau.Requester.Selection.{is_suitable, suitable, select_among, select_nodes}

-- The order of ranks.
unfoldable pub at_most : ℤ → ℤ → Bool
at_most (pos a) (pos b) = leb a b
at_most (pos a) (negsuc b) = false
at_most (negsuc a) (pos b) = true
at_most (negsuc a) (negsuc b) = leb b a

-- No node of the second list ranks higher than one of the first.
abbrev pub Above : List NodeRank → List NodeRank → Type 0
Above ns ms = All (λ (n : NodeRank). All (λ (m : NodeRank). at_most m.rank n.rank ≡ true) ms) ns

-- Ranks that never go up.
abbrev pub IsDescending : List NodeRank → Type 0
IsDescending [] = Unit
IsDescending (n ∷ ns) = All (λ (m : NodeRank). at_most m.rank n.rank ≡ true) ns × IsDescending ns

-- What `sort.Slice` does with the ranks.
pub record Sorts (sort : List NodeRank → List NodeRank) : Type 0 where
  pub rearranged : (ns : List NodeRank) → Permᴰ (sort ns) ns
  pub descending : (ns : List NodeRank) → IsDescending (sort ns)

-- What a selection promises: of the nodes with a rank that is not negative, enough, not too many, and
-- none that ranks below one that is left out.
pub record Selects (ranked : List NodeRank) (min_count desired_count : ℕ) (ns : List NodeRank)
    : Type 0 where
  pub left_out : List NodeRank
  pub split : Permᴰ (ns ++ left_out) (suitable ranked)
  pub best : Above ns left_out
  pub fit : All (λ n. is_suitable n ≡ true) ns
  pub enough : min_count ≤ length ns
  pub bounded : length ns ≤ desired_count

suitable-fit : (ns : List NodeRank) → All (λ n. is_suitable n ≡ true) (suitable ns)
unfolding suitable
suitable-fit [] = tt
suitable-fit (n ∷ ns) = elim (Bool-cases (is_suitable n)) [
  | inl fit ↦ rw fit (fit, suitable-fit ns)
  | inr unfit ↦ rw unfit (suitable-fit ns)
]

take-Above : (n : ℕ) (ns : List NodeRank) → IsDescending ns → Above (take n ns) (drop n ns)
take-Above zero ns d = tt
take-Above (suc n) [] d = tt
take-Above (suc n) (x ∷ ns) d = (All-drop _ n ns d.0, take-Above n ns d.1)

min_int-le : (a b : ℕ) → min_int a b ≤ a
min_int-le a b = ground arith

module _ (s : Scheduler) (sorts : Sorts s.sort) where
  granted_selection :
      (ranked : List NodeRank) (min_count desired_count : ℕ)
      → min_count ≤ desired_count
      → ltb (length (suitable ranked)) min_count ≡ false
      → Selects ranked min_count desired_count (
          take
            (min_int (length (s.sort (suitable ranked))) desired_count)
            (s.sort (suitable ranked)))
  granted_selection ranked low high asked many =
      let sorted = s.sort (suitable ranked) in
      let n = min_int (length sorted) high in
      let p = sorts.rearranged (suitable ranked) in
      let size = length-take n sorted (min_int-le (length sorted) high) in
      let all = length-perm p in
      record {
        left_out = drop n sorted;
        split = subst (λ ns. Permᴰ ns (suitable ranked)) (sym (take-drop n sorted)) p;
        best = take-Above n sorted (sorts.descending (suitable ranked));
        fit = All-take _ n sorted (All-perm _ (Permᴰ.symm p) (suitable-fit ranked));
        enough = ground (arith, size, all, asked, many);
        bounded = ground (arith, size);
      }

  -- The selection among ranked nodes fails where too few are suitable, and else keeps its promise.
  select_among_cases :
      (ranked : List NodeRank) (min_count desired_count : ℕ)
      → min_count ≤ desired_count
      → ((length (suitable ranked) < min_count)
          × (select_among s ranked min_count desired_count
              ≡ err (not_enough_nodes min_count (length (suitable ranked)))))
        ⊎ ((ns : List NodeRank) × (select_among s ranked min_count desired_count ≡ ok ns)
            × Selects ranked min_count desired_count ns)
  unfolding select_among
  select_among_cases ranked low high asked =
      elim (Bool-cases (ltb (length (suitable ranked)) low)) [
        | inl few ↦ inl (ltb→lt (length (suitable ranked)) low few, rw (few, select_among) refl)
        | inr many ↦
            inr (_, rw (many, select_among) refl, granted_selection ranked low high asked many)
      ]

  -- Where the nodes are found and ranked, a selection of at least some and at most others fails, with
  -- the number of suitable nodes, if they are fewer than asked for; else it returns nodes with ranks
  -- that are not negative, at least as many as the minimum and at most as many as desired, none of
  -- which ranks below a suitable node that is left out.
  pub select_nodes_lem :
      (i : Instant) (job : Job) (nodes : List NodeInfo) (ranked : List NodeRank)
      (min_count desired_count : ℕ)
      → min_count ≤ desired_count
      → i.find_nodes job ≡ ok nodes
      → i.rank_nodes job nodes ≡ ok ranked
      → ((length (suitable ranked) < min_count)
          × (select_nodes s i job min_count desired_count
              ≡ err (not_enough_nodes min_count (length (suitable ranked)))))
        ⊎ ((ns : List NodeRank) × (select_nodes s i job min_count desired_count ≡ ok ns)
            × Selects ranked min_count desired_count ns)
  unfolding select_nodes
  select_nodes_lem i job nodes ranked low high asked found given =
      rw (found, select_nodes, given) (select_among_cases ranked low high asked)

  -- A selection that returns returns as many nodes as asked for.
  pub select_nodes-length :
      (i : Instant) (job : Job) (n : ℕ) (ns : List NodeRank)
      → select_nodes s i job n n ≡ ok ns
      → length ns ≡ n
  unfolding select_nodes
  select_nodes-length i job n ns h = elim (Result-cases (i.find_nodes job)) [
    | inl (e, lost) ↦
        let refused : select_nodes s i job n n ≡ err (outside e) = rw (lost, select_nodes) refl in
        absurd (cc (h, refused))
    | inr (nodes, found) ↦ elim (Result-cases (i.rank_nodes job nodes)) [
      | inl (e, lost) ↦
          let refused : select_nodes s i job n n ≡ err (outside e) =
            rw (found, select_nodes, lost) refl in
          absurd (cc (h, refused))
      | inr (ranked, given) ↦
          elim (select_nodes_lem i job nodes ranked n n (omega arith) found given) [
            | inl (few, refused) ↦ absurd (cc (h, refused))
            | inr (ms, selected, fits) ↦
                let same : ms ≡ ns = ok_eq (sym selected ∙ h) in
                ground (arith, ap length same, fits.enough, fits.bounded)
          ]
    ]
  ]
