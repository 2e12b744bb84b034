-- ===== src/Verifier/Majority.antt =====
-- Which results the deterministic verifier verifies (pkg/verifier/deterministic/verifier.go).
use mathlib.Core.List.{Permᴰ}
use mathlib.Core.List.Permᴰ
use bacalhau.Base.{
  ℕ, ◌≤◌, ◌<◌, ◌≡◌, ◌≢◌, ◌↔◌, refl, ap, ◌∙◌, subst, String, Bool, true, false, ◌&&◌, ◌||◌, not,
  List, [], map, length, arith, ltb, ◌==◌, ==_iff, ltb→lt, str_eq, eq_iff, inl, inr, Bool-cases,
}
use bacalhau.Base.Map
use bacalhau.Base.Result.{Result, ok}
use bacalhau.Model.ExecutionState.{ExecutionState}
use bacalhau.Requester.World.{VerifierRequest, VerifierResult}
use bacalhau.Verifier.{
  Groups, Seen, survey, nothing_seen, is_void, passes, hash_groups, all_results, verify,
  validate_executions,
}
use bacalhau.Verifier.Groups.{
  IsKeyed, IsFilled, size, votes, result_of, hash_groups-perm, hash_groups-size,
  hash_groups-IsKeyed, hash_groups-IsFilled,
}
use bacalhau.Verifier.Arrangement.{
  IsArrangement, arranged-IsKeyed, arranged-IsFilled, arranged-size, arranged-all_results,
}
use bacalhau.Verifier.Survey.{
  number, number-one, number-two, filled_size, Has, two_groups, survey_bound, survey_counts,
  survey_largest, all_single,
}

-- A hash that is not empty, with at least two votes, at least as many as the confidence asks for, and
-- more than any other hash.
pub record IsMajority (tally : String → ℕ) (confidence : ℕ) (hash : String) : Type 0 where
  pub nonempty : hash ≢ ""
  pub several : 1 < tally hash
  pub trusted : confidence ≤ tally hash
  pub alone : (other : String) → str_eq hash other ≡ false → tally other < tally hash

-- What a result that is not void amounts to.
void_iff :
    (c gc conf s : ℕ) (hash big : String)
    → ((not (ltb 1 c || (gc == 1 && s == 1) || (ltb 0 conf && ltb s conf) || str_eq big "")
          && str_eq hash big)
        ≡ true)
      ↔ ((c ≤ 1) × ((gc ≡ 1) → s ≢ 1) × (conf ≤ s) × (big ≢ "") × (hash ≡ big))
void_iff c gc conf s hash big = (
  λ h. (
    ground (arith, h),
    λ p q. ground (arith, h, p, q),
    ground (arith, h),
    λ e. ground (arith, h, eq_iff big "", e),
    ground (arith, h, eq_iff hash big),
  ),
  λ h. ground (arith, h.0, h.1, h.2, h.3, h.4, eq_iff big "", eq_iff hash big),
)

module _ (groups : Groups) (confidence : ℕ) (v : IsKeyed groups) (f : IsFilled groups) where
  abbrev seen : Seen
  seen = survey groups nothing_seen

  -- The largest group is that of the hash kept, unless there is none.
  largest_size :
      (0 < seen.largest_group_size) → size groups seen.largest_group_hash ≡ seen.largest_group_size
  largest_size some_there = elim (survey_largest groups nothing_seen v) [
    | inl (none_there, _) ↦ absurd (omega (arith, some_there, none_there))
    | inr has ↦ has.0
  ]

  counts : seen.group_size_counts seen.largest_group_size ≡ number groups seen.largest_group_size
  counts = omega (arith, survey_counts groups nothing_seen seen.largest_group_size)

  -- Not the largest group alone with one result.
  several_votes :
      (big : String)
      → seen.group_size_counts seen.largest_group_size ≤ 1
      → ((length groups ≡ 1) → seen.largest_group_size ≢ 1)
      → Has groups seen.largest_group_size big
      → 0 < seen.largest_group_size
      → 1 < seen.largest_group_size
  several_votes big few lone has positive =
      let s = seen.largest_group_size in
      elim (Bool-cases (s == 1)) [
        | inr more ↦ ground (arith, positive, more)
        | inl one ↦
            let single : s ≡ 1 = (==_iff s 1).0 one in
            let all =
              all_single groups v f
                (λ hash. omega (arith, single, survey_bound groups nothing_seen hash)) in
            let here = number-one groups big 1 (has.0 ∙ single) (omega arith) in
            absurd (lone (omega (arith, all, here, few, counts, ap (number groups) single)) single)
      ]

  -- No other group is as large.
  not_second :
      (big other : String)
      → seen.group_size_counts seen.largest_group_size ≤ 1
      → Has groups seen.largest_group_size big
      → 0 < seen.largest_group_size
      → str_eq big other ≡ false
      → size groups other < size groups big
  not_second big other few has positive apart =
      let s = seen.largest_group_size in
      elim (Bool-cases (size groups other == s)) [
        | inl equal ↦ absurd (
            omega (
              arith,
              few,
              counts,
              number-two groups big other s apart has.0 ((==_iff (size groups other) s).0 equal)
                  positive,
            ))
        | inr less ↦ ground (arith, less, has.0, survey_bound groups nothing_seen other)
      ]

  -- The hash that passes is one of a majority.
  passes_sound :
      (hash : String)
      → passes confidence groups hash ≡ true
      → IsMajority (size groups) confidence hash
  unfolding passes is_void
  passes_sound hash h =
      let s = seen.largest_group_size in
      let big = seen.largest_group_hash in
      let (few, lone, trusted, nonempty, same) =
        (void_iff (seen.group_size_counts s) (length groups) confidence s hash big).0 h in
      let has : Has groups s big = elim (survey_largest groups nothing_seen v) [
        | inl (_, kept) ↦ absurd (nonempty kept)
        | inr has ↦ has
      ] in
      let positive : 0 < s = omega (arith, filled_size groups big f has.1, has.0) in
      let several : 1 < s = several_votes big few lone has positive in
      rw same (record {
        nonempty = nonempty;
        several = omega (arith, several, has.0);
        trusted = omega (arith, trusted, has.0);
        alone = λ other apart. not_second big other few has positive apart;
      })

  one_largest :
      (hash : String)
      → IsMajority (size groups) confidence hash
      → size groups hash ≡ seen.largest_group_size
      → number groups seen.largest_group_size ≤ 1
  one_largest hash m own =
      let s = seen.largest_group_size in
      elim (Bool-cases (ltb 1 (number groups s))) [
        | inr few ↦ ground (arith, few)
        | inl both ↦
            let (a, b, apart, x, y) = two_groups groups s v (ltb→lt 1 (number groups s) both) in
            elim (Bool-cases (str_eq hash a)) [
              | inr away ↦ absurd (omega (arith, m.alone a away, x.0, own))
              | inl here ↦
                  let off : str_eq hash b ≡ false = rw ((eq_iff hash a).0 here) apart in
                  absurd (omega (arith, m.alone b off, y.0, own))
            ]
      ]

  passes_complete :
      (hash : String)
      → IsMajority (size groups) confidence hash
      → passes confidence groups hash ≡ true
  unfolding passes is_void
  passes_complete hash m =
      let s = seen.largest_group_size in
      let big = seen.largest_group_hash in
      let most = survey_bound groups nothing_seen hash in
      let full = largest_size (omega (arith, most, m.several)) in
      let same : hash ≡ big = elim (Bool-cases (str_eq hash big)) [
        | inl same ↦ (eq_iff hash big).0 same
        | inr apart ↦ absurd (omega (arith, m.alone big apart, most, full))
      ] in
      let own : size groups hash ≡ s = ap (size groups) same ∙ full in
      (void_iff (seen.group_size_counts s) (length groups) confidence s hash big).1 (
        omega (arith, counts, one_largest hash m own),
        λ _ one. omega (arith, one, m.several, own),
        omega (arith, m.trusted, own),
        λ e. m.nonempty (same ∙ e),
        same,
      )

module _ (decrypt : List ℕ → Result String String) (first_order last_order : Groups → Groups)
    (free : IsArrangement first_order) (free' : IsArrangement last_order) where
  -- The executions' votes for each hash.
  tally_groups :
      (es : List ExecutionState) → size (first_order (hash_groups decrypt [] es)) ≡ votes decrypt es
  unfolding size Map.get_or Map.get
  tally_groups es =
      let groups = hash_groups decrypt [] es in
      let same : (h : String) → size groups h ≡ votes decrypt es h =
        λ h. omega (arith, hash_groups-size decrypt [] es h tt) in
      arranged-size first_order free groups (hash_groups-IsKeyed decrypt [] es tt)
      ∙ (λ i h. same h i)

  -- In whatever orders Go goes through its map of groups, a verification of a valid request returns
  -- one result for each execution of the request, and nothing else; a result is verified exactly if
  -- its execution reports, in a proposal that decrypts, a hash that is not empty, that at least two
  -- executions report, at least as many as the deal's confidence, and that more executions report
  -- than any other hash.
  pub verify-IsMajority :
      (q : VerifierRequest)
      → validate_executions q ≡ ok tt
      → (wins : String → Bool) × (rs : List VerifierResult) × (verify decrypt first_order last_order
            q
          ≡ ok rs)
        × Permᴰ rs (map (result_of decrypt wins) q.executions)
        × ((hash : String)
            → (wins hash ≡ true) ↔ IsMajority (votes decrypt q.executions) q.deal.confidence hash)
  unfolding verify all_results
  verify-IsMajority q valid =
      let es = q.executions in
      let groups = hash_groups decrypt [] es in
      let groups' = first_order groups in
      let wins = passes q.deal.confidence groups' in
      let v = hash_groups-IsKeyed decrypt [] es tt in
      let v' = arranged-IsKeyed first_order free groups v in
      let f' = arranged-IsFilled (free groups) (hash_groups-IsFilled decrypt [] es tt tt) in
      (
        wins,
        all_results wins (last_order groups),
        rw (valid, verify) refl,
        Permᴰ.trans (Permᴰ.symm (arranged-all_results wins (free' groups))) (
            Permᴰ.trans (hash_groups-perm decrypt wins [] es tt)
              (Permᴰ.append-nil (map (result_of decrypt wins) es))),
        λ hash.
            subst (λ t. (wins hash ≡ true) ↔ IsMajority t q.deal.confidence hash) (tally_groups es)
              (
                passes_sound groups' q.deal.confidence v' f' hash,
                passes_complete groups' q.deal.confidence v' f' hash,
              ),
      )
