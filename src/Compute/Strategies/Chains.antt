-- ===== src/Compute/Strategies/Chains.antt =====
-- What chains of strategies and of calculators come to (pkg/bidstrategy/chained.go,
-- pkg/compute/capacity/calculators.go).
use bacalhau.Base.{
  ◌≤◌, ◌≡◌, refl, sym, ◌∙◌, String, Bool, true, false, ◌&&◌, not, List, [], ◌∷◌, arith, ltb→lt,
  if◌then◌else◌, inl, inr, Bool-cases, subst,
}
use bacalhau.Base.Result.{Result, ok, err, ok_eq, Result-cases, ◌>>=◌}
use bacalhau.Model.ResourceUsage.{Float, ResourceUsageData, max}
use bacalhau.Compute.Bidder.{BidStrategyResponse}
use bacalhau.Compute.Strategies.{chained, aggregate, chained_calculate}

-- The answer is a bid at once.
abbrev pub bids_now : Result String BidStrategyResponse → Bool
bids_now (ok r) = r.should_bid && not r.should_wait
bids_now (err e) = false

module _ {ℓ} {R : Type ℓ} (q : R) where
  -- Every strategy answers the request with a bid at once.
  unfoldable pub all_bid : List (R → Result String BidStrategyResponse) → Bool
  all_bid [] = true
  all_bid (s ∷ ss) = bids_now (s q) && all_bid ss

  one_more :
      (a rest : Result String BidStrategyResponse) (later : Bool)
      → bids_now rest ≡ later
      → bids_now (
          a >>= λ (r : BidStrategyResponse).
          if r.should_wait then ok r else if not r.should_bid then ok r else rest)
        ≡ (bids_now a && later)
  one_more (err e) rest later h = refl
  one_more (ok r) rest later h = elim (Bool-cases r.should_wait) [
    | inl waits ↦ elim (Bool-cases r.should_bid) [
      | inl bid ↦ rw (waits, bid) refl
      | inr none_made ↦ rw (waits, none_made) refl
    ]
    | inr ready ↦ elim (Bool-cases r.should_bid) [
      | inl bid ↦ rw (ready, bid) h
      | inr none_made ↦ rw (ready, none_made) refl
    ]
  ]

  -- A chain answers with a bid at once exactly if every one of its strategies does.
  pub chained_bids :
      (ss : List (R → Result String BidStrategyResponse)) → bids_now (chained ss q) ≡ all_bid ss
  unfolding chained all_bid
  chained_bids [] = refl
  chained_bids (s ∷ ss) = one_more (s q) (chained ss q) (all_bid ss) (chained_bids ss)

-- One amount of memory, disk and GPUs is at most another.
abbrev pub AtMost : ResourceUsageData → ResourceUsageData → Type 0
AtMost a b = (a.memory ≤ b.memory) × (a.disk ≤ b.disk) × (a.gpu ≤ b.gpu)

-- Every calculator returns, for the parsed usage, an amount that is at most this one.
abbrev pub Covers :
    List (ResourceUsageData → Result String ResourceUsageData)
    → ResourceUsageData
    → ResourceUsageData
    → Type 0
Covers [] parsed u = Unit
Covers (c ∷ cs) parsed u =
    ((v : ResourceUsageData) × (c parsed ≡ ok v) × AtMost v u) × Covers cs parsed u

module _ (f : Float) where
  max_covers : (a b : ResourceUsageData) → AtMost a (max f a b) × AtMost b (max f a b)
  unfolding max
  max_covers a b =
      ground (arith, ltb→lt a.memory b.memory, ltb→lt a.disk b.disk, ltb→lt a.gpu b.gpu)

  aggregate_on :
      (c : ResourceUsageData → Result String ResourceUsageData)
      (cs : List (ResourceUsageData → Result String ResourceUsageData))
      (parsed so_far v : ResourceUsageData)
      → c parsed ≡ ok v
      → aggregate f (c ∷ cs) parsed so_far ≡ aggregate f cs parsed (max f so_far v)
  unfolding aggregate
  aggregate_on c cs parsed so_far v h = rw h refl

  aggregate_off :
      (c : ResourceUsageData → Result String ResourceUsageData)
      (cs : List (ResourceUsageData → Result String ResourceUsageData))
      (parsed so_far : ResourceUsageData) (e : String)
      → c parsed ≡ err e
      → aggregate f (c ∷ cs) parsed so_far ≡ err e
  unfolding aggregate
  aggregate_off c cs parsed so_far e h = rw h refl

  aggregate_none : (parsed so_far : ResourceUsageData) → aggregate f [] parsed so_far ≡ ok so_far
  unfolding aggregate
  aggregate_none parsed so_far = refl

  AtMost-trans : (a b c : ResourceUsageData) → AtMost a b → AtMost b c → AtMost a c
  AtMost-trans a b c (p, q, r) (s, t, u) =
      (omega (arith, p, s), omega (arith, q, t), omega (arith, r, u))

  -- The aggregate of a chain covers what was there before and what each calculator returns.
  aggregate-Covers :
      (cs : List (ResourceUsageData → Result String ResourceUsageData))
      (parsed so_far u : ResourceUsageData)
      → aggregate f cs parsed so_far ≡ ok u
      → AtMost so_far u × Covers cs parsed u
  aggregate-Covers [] parsed so_far u h = (
    subst (AtMost so_far) (ok_eq (sym (aggregate_none parsed so_far) ∙ h))
        (omega arith, omega arith, omega arith),
    tt,
  )
  aggregate-Covers (c ∷ cs) parsed so_far u h = elim (Result-cases (c parsed)) [
    | inl (e, failed) ↦ absurd (cc (h, aggregate_off c cs parsed so_far e failed))
    | inr (v, given) ↦
        let (a, b) =
          aggregate-Covers cs parsed (max f so_far v) u
            (sym (aggregate_on c cs parsed so_far v given) ∙ h) in
        let (l, r) = max_covers so_far v in
        (
          AtMost-trans so_far (max f so_far v) u l a,
          ((v, given, AtMost-trans v (max f so_far v) u r a), b),
        )
  ]

  -- If a chain of calculators returns a usage, every calculator returned one, and the memory, the disk
  -- and the GPUs of the chain's usage are at least those of each and of the parsed usage.
  pub chained_calculate-Covers :
      (cs : List (ResourceUsageData → Result String ResourceUsageData))
      (parsed u : ResourceUsageData)
      → chained_calculate f cs parsed ≡ ok u
      → AtMost parsed u × Covers cs parsed u
  unfolding chained_calculate
  chained_calculate-Covers cs parsed u h = aggregate-Covers cs parsed parsed u h
