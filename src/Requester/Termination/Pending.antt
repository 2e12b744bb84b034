-- ===== src/Requester/Termination/Pending.antt =====
-- A round that may repeat the transition of a job returns, if the repetition does
-- (pkg/requester/scheduler_state.go).
use bacalhau.Base.{subst}
use bacalhau.Base.{
  ◌+◌, ◌*◌, ℕ, suc, ◌<◌, ◌≡◌, refl, sym, ap, ◌∙◌, inl, inr, String, List, [], ◌∷◌, All, Option,
  some, arith, leb, length, take, Bool-cases, if◌then◌else◌,
}
use bacalhau.Base.Map
use bacalhau.Base.Result.{ok, Result-cases}
use bacalhau.Model.ExecutionState.{ExecutionState, ExecutionStateType}
use bacalhau.Model.JobState.{JobState}
use bacalhau.Model.Job.{Job}
use bacalhau.Model.Job
use bacalhau.JobStore.Executions.{find_execution}
use bacalhau.JobStore.Merge.{Fills}
use bacalhau.JobStore.Invariant.{IsConsistent, known_state}
use bacalhau.Requester.World.{
  Scheduler, World, Instant, VerifierRequest, VerifierResult, early, late,
}
use bacalhau.Requester.Messages.{Board}
use bacalhau.Requester.Bids.{in_state}
use bacalhau.Requester.Results.{
  Arrays, verify_executions, verify_result, check_for_pending_results, any_failed,
}
use bacalhau.Requester.Protocol.{Advances}
use bacalhau.Requester.Protocol.Executions.{verify_executions-Advances}
use bacalhau.Requester.Termination.Shrinks.{Shrinks-count, Shrinks-find, proposals, is_proposed}
use bacalhau.Requester.Termination.Calls.{advances_lem}
use bacalhau.Requester.Termination.Verdicts.{found-in_state, found-take, found-Owned, left}
use bacalhau.Requester.Termination.Rounds.{verified-Below, left_mono}

-- A verifier's results are about executions that it was asked about.
abbrev pub IsHonest : Instant → Type 0
IsHonest i =
    (v : String) (q : VerifierRequest) (rs : List VerifierResult)
    → i.verify v q ≡ ok rs
    → All
        (λ (r : VerifierResult).
          (n : ℕ) × (x : ExecutionState) × (find_execution r.execution_id q.executions
            ≡ some (n, x)))
        rs

module _ (s : Scheduler) (fills : Fills s.merge) (id : String) where
  -- A repetition returns where the proposals are fewer than the bound.
  abbrev pub Returns : (World → Board → String → Option (Board × Arrays)) → ℕ → Type 0
  Returns again bound =
      (w : World) (b : Board)
      → ((n : ℕ) → IsHonest (w n))
      → IsConsistent b.store
      → left b.store id < bound
      → (o : Board × Arrays) × (again w b id ≡ some o)

  module _ (again : World → Board → String → Option (Board × Arrays)) (bound : ℕ)
      (returns : Returns again bound) where
    -- Results of which one may have failed.
    after_results :
        (w : World) (b : Board) (failed : List VerifierResult)
        → ((n : ℕ) → IsHonest (w n))
        → IsConsistent b.store
        → left b.store id < bound
        → (o : Board × Arrays) × ((if any_failed failed then again w b id else some (b, []))
            ≡ some o)
    after_results w b failed honest v less = elim (Bool-cases (any_failed failed)) [
      | inl bad ↦ rw bad (returns w b honest v less)
      | inr good ↦ rw good ((b, []), refl)
    ]

    -- After the results of an honest verifier on the executions with a proposed result.
    fewer_left :
        (w : World) (b c : Board) (state : JobState) (r : VerifierResult) (rs : List VerifierResult)
        (k n : ℕ) (x : ExecutionState)
        → IsConsistent b.store
        → Map.get b.store.states id ≡ some state
        → Advances s.merge b.store c.store
        → find_execution r.execution_id
            (in_state ExecutionStateType.result_proposed (take k state.executions))
          ≡ some (n, x)
        → left (verify_executions s.merge w c (r ∷ rs)).0.store id < proposals state.executions
    unfolding is_proposed
    fewer_left w b c state r rs k n x v stored a there =
        let i = r.execution_id in
        let d = (verify_executions s.merge w c (r ∷ rs)).0 in
        let (j, hs, ej, eh, g) = known_state b.store id state (v id) stored in
        let (m, found, proposed) =
          found-in_state _ i state.executions n x g.distinct
            (found-take ExecutionStateType.result_proposed i k state.executions n x there) in
        let same_key = found-Owned id i state.executions m x found g.owned in
        let (v', shrunk) = advances_lem s.merge fills id b.store c.store v a in
        let (t, known, shrinks) = shrunk state stored in
        let (y, at, settled) = Shrinks-find i m x shrinks found proposed in
        elim settled [
          | inl still ↦
              let below =
                verified-Below s.merge fills w c r rs t m y v'
                  (ap (Map.get c.store.states) same_key ∙ known) at still in
              omega (arith, ap (left d.store) same_key, below.2, Shrinks-count shrinks)
          | inr fewer ↦ omega (
            arith,
            fewer,
            left_mono s.merge fills c.store d.store id t v'
                (verify_executions-Advances s.merge w c (r ∷ rs)) known,
          )
        ]

    results_return :
        (w u : World) (b c : Board) (state : JobState) (k : ℕ) (rs : List VerifierResult)
        → ((n : ℕ) → IsHonest (u n))
        → IsConsistent b.store
        → Map.get b.store.states id ≡ some state
        → Advances s.merge b.store c.store
        → proposals state.executions < suc bound
        → All
            (λ (r : VerifierResult).
              (n : ℕ) × (x : ExecutionState) × (find_execution r.execution_id
                  (in_state ExecutionStateType.result_proposed (take k state.executions))
                ≡ some (n, x)))
            rs
        → let v = verify_executions s.merge w c rs in
          (o : Board × Arrays) × ((if any_failed v.2 then again u v.0 id else some (v.0, []))
            ≡ some o)
    unfolding verify_executions any_failed
    results_return w u b c state k [] honest v stored a few about = ((c, []), refl)
    results_return w u b c state k (r ∷ rs) honest v stored a few about =
        let o = verify_executions s.merge w c (r ∷ rs) in
        let (n, x, there) = about.0 in
        let (v', _) = advances_lem s.merge fills id b.store c.store v a in
        let (v'', _) =
          advances_lem s.merge fills id c.store o.0.store v'
            (verify_executions-Advances s.merge w c (r ∷ rs)) in
        after_results u o.0 o.2 honest v''
          (omega (arith, few, fewer_left w b c state r rs k n x v stored a there))

    -- The check on the front of the executions that the job had at some time before.
    pub pending_returns :
        (w : World) (b c : Board) (job : Job) (state seen : JobState) (k : ℕ)
        → Job.id job ≡ id
        → ((n : ℕ) → IsHonest (w n))
        → IsConsistent b.store
        → Map.get b.store.states id ≡ some state
        → Advances s.merge b.store c.store
        → proposals state.executions < suc bound
        → seen.executions ≡ take k state.executions
        → (o : Board × Arrays) × (check_for_pending_results s again w c job seen ≡ some o)
    unfolding check_for_pending_results verify_result
    pending_returns w b c job state seen k named honest v stored a few front =
        let proposed = in_state ExecutionStateType.result_proposed seen.executions in
        let q : VerifierRequest = record {
          job_id = Job.id job;
          deal = job.spec.deal;
          executions = proposed;
        } in
        elim (Bool-cases (leb job.spec.deal.concurrency (length proposed))) [
          | inr some_missing ↦ rw (some_missing, check_for_pending_results) ((c, []), refl)
          | inl enough ↦ elim (Result-cases (((early w) 0).verify job.spec.verifier q)) [
            | inl (e, unverified) ↦
                rw (enough, check_for_pending_results, verify_result, unverified) (_, refl)
            | inr (rs, verified) ↦
                let about =
                  subst
                    (λ es.
                      All
                        (λ (r : VerifierResult).
                          (n : ℕ) × (x : ExecutionState) × (find_execution r.execution_id
                              (in_state ExecutionStateType.result_proposed es)
                            ≡ some (n, x)))
                        rs)
                    front (honest 0 job.spec.verifier q rs verified) in
                rw (enough, check_for_pending_results, verify_result, verified)
                  (subst
                    (λ i.
                      let v = verify_executions s.merge (late (early w)) c rs in
                      (o : Board × Arrays) × ((if any_failed v.2
                          then again (late w) v.0 i
                          else some (v.0, []))
                        ≡ some o))
                    (sym named)
                    (results_return (late (early w)) (late w) b c state k rs
                      (λ n. honest (2 * n + 1)) v stored a few about))
          ]
        ]
