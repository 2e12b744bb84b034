-- ===== src/JobStore/InProgress.antt =====
-- The jobs in progress (pkg/jobstore/inmemory/inmemory.go: GetInProgressJobs).
use mathlib.Core.List.{Memᴰ}
use bacalhau.Base.{
  ◌≡◌, ◌≢◌, ◌↔◌, refl, sym, ap, ◌∙◌, subst, some_eq, inl, inr, false, String, [], ◌∷◌, none, some,
  str_eq, eq_iff, arith, Bool-cases,
}
use bacalhau.Base.Map
use bacalhau.Base.Map.{Map}
use bacalhau.Model.JobState.{JobState, is_terminal}
use bacalhau.Model.Job.{Job}
use bacalhau.JobStore.InMemory.{JobStore}
use bacalhau.JobStore.Invariant.{IsConsistent, Slot, unknown, known}
use bacalhau.JobStore.Queries.{
  JobWithInfo, no_job, no_state, job_with_info, list_jobs, get_in_progress_jobs,
}

module _ (d : JobStore) where
  listed_key :
      (ids : Map (Unit {0})) (w : JobWithInfo)
      → Memᴰ w (list_jobs d ids)
      → (id : String) × (Map.get ids id ≢ none) × (w ≡ job_with_info d id)
  unfolding list_jobs Map.get
  listed_key [] w there = elim there [ ]
  listed_key ((k, u) ∷ ids) w (Memᴰ.head e) = (k, λ missing. ground (arith, missing, eq_iff k k), e)
  listed_key ((k, u) ∷ ids) w (Memᴰ.tail there) =
      let (id, found, same) = listed_key ids w there in
      (id, λ missing. found (ground (arith, missing)), same)

  key_listed :
      (ids : Map (Unit {0})) (id : String)
      → Map.get ids id ≡ some tt
      → Memᴰ (job_with_info d id) (list_jobs d ids)
  unfolding list_jobs Map.get
  key_listed [] id h = absurd (ground (arith, h))
  key_listed ((k, u) ∷ ids) id h = elim (Bool-cases (str_eq k id)) [
    | inl here ↦ Memᴰ.head (ap (job_with_info d) (sym ((eq_iff k id).0 here)))
    | inr other ↦ Memᴰ.tail (key_listed ids id (ground (arith, h, other)))
  ]

  -- The job and the state of an ID, and a state that is not terminal.
  abbrev pub Unfinished : JobWithInfo → String → Type 0
  Unfinished w id =
      (Map.get d.jobs id ≡ some w.job)
      × (Map.get d.states id ≡ some w.state)
      × (is_terminal w.state.state ≡ false)
      × (w.history ≡ [])

  info_eq :
      (id : String) (j : Job) (s : JobState)
      → Map.get d.jobs id ≡ some j
      → Map.get d.states id ≡ some s
      → job_with_info d id ≡ record { job = j; state = s; history = [] }
  unfolding job_with_info
  info_eq id j s ej es =
      let a = Map.get_or-here d.jobs id no_job j ej in
      let b = Map.get_or-here d.states id no_state s es in
      λ i. record { job = a i; state = b i; history = [] }

  from_key :
      (id : String)
      → Slot id d
      → Map.get d.inprogress id ≢ none
      → Unfinished (job_with_info d id) id
  from_key id (unknown j s p h) found = absurd (found p)
  from_key id (known j s hs ej es eh g) found = elim (Bool-cases (is_terminal s.state)) [
    | inl over ↦ absurd (found (ground (arith, g.tracked, over)))
    | inr going ↦ subst (λ x. Unfinished x id) (sym (info_eq id j s ej es)) (ej, es, going, refl)
  ]

  to_key :
      (id : String) (w : JobWithInfo)
      → Slot id d
      → Unfinished w id
      → (Map.get d.inprogress id ≡ some tt) × (job_with_info d id ≡ w)
  to_key id w (unknown j s p h) u = absurd (ground (arith, j, u.0))
  to_key id w (known j s hs ej es eh g) u =
      let same_job : j ≡ w.job = some_eq (sym ej ∙ u.0) in
      let same_state : s ≡ w.state = some_eq (sym es ∙ u.1) in
      let going : is_terminal s.state ≡ false =
        ap (λ (x : JobState). is_terminal x.state) same_state ∙ u.2 in
      (
        ground (arith, g.tracked, going),
        info_eq id j s ej es
            ∙ (λ i. record { job = same_job i; state = same_state i; history = sym u.3 i }),
      )

  -- In a consistent store, the jobs in progress are those with a state that is not terminal.
  pub get_in_progress_jobs_exact :
      IsConsistent d
      → (w : JobWithInfo) → Memᴰ w (get_in_progress_jobs d) ↔ ((id : String) × Unfinished w id)
  unfolding get_in_progress_jobs
  get_in_progress_jobs_exact v w = (
    λ there.
        let (id, found, same) = listed_key d.inprogress w there in
        (id, subst (λ x. Unfinished x id) (sym same) (from_key id (v id) found)),
    λ (id, u).
        let (found, same) = to_key id w (v id) u in
        subst (λ x. Memᴰ x (get_in_progress_jobs d)) same (key_listed d.inprogress id found),
  )
