-- ===== src/Requester/Termination/Names.antt =====
-- Which job and which state an ID leads to (pkg/jobstore/inmemory/inmemory.go).
use Prim.Native.String.{len}
use bacalhau.Base.{
  ◌≡◌, refl, sym, ap, ◌∙◌, String, false, some, Option-cases, Bool-cases, inl, inr, ltb, str_eq,
}
use bacalhau.Base.Map
use bacalhau.Base.Result.{ok, err, ok_eq}
use bacalhau.Model.JobState.{JobState}
use bacalhau.Model.Job.{Job}
use bacalhau.Model.Job
use bacalhau.JobStore.Types.{no_such_job}
use bacalhau.JobStore.InMemory.{JobStore}
use bacalhau.JobStore.Queries.{short_id, get_job, get_job_state}
use bacalhau.JobStore.Invariant.{IsConsistent, unknown, known}

module _ (id : String) where
  pub found_state :
      (d : JobStore) (state : JobState)
      → get_job_state d id ≡ ok state
      → Map.get d.states id ≡ some state
  unfolding get_job_state
  found_state d state h = elim (Option-cases (Map.get d.states id)) [
    | inl missing ↦
        let r : get_job_state d id ≡ err (no_such_job id) = rw (missing, get_job_state) refl in
        absurd (cc (h, r))
    | inr (t, found) ↦
        let r : get_job_state d id ≡ ok t = rw (found, get_job_state) refl in
        found ∙ ap some (ok_eq (sym r ∙ h))
  ]

  -- A full ID leads to the job of that ID.
  pub named_job :
      (d : JobStore) (job : Job)
      → IsConsistent d
      → str_eq (short_id id) id ≡ false
      → get_job d id ≡ ok job
      → Job.id job ≡ id
  unfolding get_job
  named_job d job v full h = elim (Bool-cases (ltb (len id) 8)) [
    | inl short ↦
        let r : get_job d id ≡ err (no_such_job id) = rw (short, get_job) refl in absurd (cc (h, r))
    | inr long ↦ elim (v id) [
      | unknown a b c e ↦
          let r : get_job d id ≡ err (no_such_job id) = rw (long, get_job, full, a, full) refl in
          absurd (cc (h, r))
      | known j t hs a b c g ↦
          let r : get_job d id ≡ ok j = rw (long, get_job, full, a) refl in
          ap Job.id (ok_eq (sym h ∙ r)) ∙ g.job_key
    ]
  ]
