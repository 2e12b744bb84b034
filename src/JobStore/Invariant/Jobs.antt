-- ===== src/JobStore/Invariant/Jobs.antt =====
-- The operations on jobs keep the maps of the store in agreement (pkg/jobstore/inmemory/inmemory.go).
use bacalhau.Base.{
  ◌⊎◌, subst, Option-cases, inl, inr, Bool-cases, ℕ, ◌≡◌, refl, String, [], ◌∷◌, ◌++◌, none, some,
  arith, eq_iff, false, str_eq,
}
use bacalhau.Base.Map
use bacalhau.Base.Map.{Map, get-put_other, get-remove_other}
use bacalhau.Base.Result.{Result, Result-cases, ok, err}
use bacalhau.Model.JobState.{JobState, is_terminal}
use bacalhau.Model.Job.{Job}
use bacalhau.Model.Job
use bacalhau.JobStore.Types.{
  job_not_found, job_already_terminal, Error, UpdateJobStateRequest, validate_job,
}
use bacalhau.JobStore.InMemory.{
  JobStore, new_job_store, create_job, update_job_state, write_job_state, append_history, job_entry,
  initial_state, updated_state,
}
use bacalhau.JobStore.History.{
  Records-job_entry, append_history_other, append_history_here, get_or_found,
}
use bacalhau.JobStore.Invariant.{IsConsistent, Slot, Slot-elsewhere, unknown, known, known_state}

-- An empty store is consistent.
pub new_job_store-IsConsistent : IsConsistent new_job_store
unfolding new_job_store Map.get
new_job_store-IsConsistent = ground arith

-- The store after a call: an error leaves it as it was.
abbrev pub settle : JobStore → Result Error JobStore → JobStore
settle d (ok d') = d'
settle d (err _) = d

-- A job that is not known has no history.
unknown_history :
    (d : JobStore) (k : String)
    → Slot k d
    → Map.get d.jobs k ≡ none
    → Map.get_or d.history k [] ≡ []
unfolding Map.get_or
unknown_history d k (unknown a b c e) h = rw (e, Map.get_or)
unknown_history d k (known j s hs a b c e) h = absurd (cc)

-- `UpdateJobState` refuses, or it grants a valid update of a job that is not terminal.
pub update_job_state_cases :
    (d : JobStore) (r : UpdateJobStateRequest) (now : ℕ)
    → ((e : Error) × (update_job_state d r now ≡ err e))
      ⊎ ((s : JobState) × (Map.get d.states r.job_id ≡ some s)
          × (validate_job r.condition s ≡ ok tt)
          × (is_terminal s.state ≡ false)
          × (update_job_state d r now ≡ ok (write_job_state d s r now)))
unfolding update_job_state
update_job_state_cases d r now = elim (Option-cases (Map.get d.states r.job_id)) [
  | inl missing ↦ inl (job_not_found r.job_id, rw (missing, update_job_state))
  | inr (s, found) ↦ elim (Result-cases (validate_job r.condition s)) [
    | inl (e, invalid) ↦ inl (e, rw (found, update_job_state, invalid))
    | inr (_, valid) ↦ elim (Bool-cases (is_terminal s.state)) [
      | inl over ↦ inl (
        job_already_terminal r.job_id s.state r.new_state,
        rw (found, update_job_state, valid, over),
      )
      | inr running ↦ inr (s, found, valid, running, rw (found, update_job_state, valid, running))
    ]
  ]
]

module _ (d : JobStore) (v : IsConsistent d) where
  created_here :
      (job : Job) (created updated : ℕ)
      → Map.get d.jobs (Job.id job) ≡ none
      → Slot (Job.id job) (settle d (create_job d job created updated))
  unfolding create_job append_history is_terminal
  created_here job created updated fresh =
      rw (fresh, create_job)
        (known job (initial_state job created updated) _ (Map.get-put_self d.jobs _ job)
          (Map.get-put_self d.states _ _) (Map.get-put_self d.history _ _)
          (record {
            job_key = refl;
            state_key = refl;
            tracked = Map.get-put_self d.inprogress _ tt;
            recorded =
                rw (unknown_history d (Job.id job) (v (Job.id job)) fresh)
                  (record { linked = (refl, tt); replayed = refl; counted = refl });
            owned = tt;
            distinct = tt;
          }))

  created_elsewhere :
      (job : Job) (created updated : ℕ) (k : String)
      → Map.get d.jobs (Job.id job) ≡ none
      → str_eq (Job.id job) k ≡ false
      → Slot k (settle d (create_job d job created updated))
  unfolding create_job append_history
  created_elsewhere job created updated k fresh other =
      rw (fresh, create_job)
        (Slot-elsewhere d _ k (get-put_other d.jobs _ k job other)
          (get-put_other d.states _ k _ other) (get-put_other d.inprogress _ k tt other)
          (get-put_other d.history _ k _ other) (v k))

  -- `CreateJob` keeps the maps in agreement, whether it creates the job or refuses.
  pub create_job-IsConsistent :
      (job : Job) (created updated : ℕ) → IsConsistent (settle d (create_job d job created updated))
  unfolding create_job
  create_job-IsConsistent job created updated k =
      elim (Option-cases (Map.get d.jobs (Job.id job))) [
        | inl fresh ↦ elim (Bool-cases (str_eq (Job.id job) k)) [
          | inl this ↦
              subst (λ x. Slot x (settle d (create_job d job created updated)))
                ((eq_iff _ _).0 this) (created_here job created updated fresh)
          | inr other ↦ created_elsewhere job created updated k fresh other
        ]
        | inr (j, old) ↦ rw (old, create_job) (v k)
      ]

  written_here :
      (s : JobState) (r : UpdateJobStateRequest) (now : ℕ)
      → Map.get d.states r.job_id ≡ some s
      → is_terminal s.state ≡ false
      → Slot r.job_id (write_job_state d s r now)
  unfolding write_job_state append_history Map.get_or
  written_here s r now found running =
      let (j, hs, ej, eh, g) = known_state d r.job_id s (v r.job_id) found in
      let hs' = hs ++ job_entry (updated_state s r.new_state now) s.state r.comment ∷ [] in
      known j (updated_state s r.new_state now) hs' ej (Map.get-put_self d.states _ _)
        (append_history_here d.history hs _ g.state_key (get_or_found _ _ _ eh))
        (record {
          job_key = g.job_key;
          state_key = g.state_key;
          tracked = ground (arith, Map.get-remove_self d.inprogress r.job_id, g.tracked);
          recorded = (Records-job_entry hs s g.recorded r.new_state now r.comment);
          owned = g.owned;
          distinct = g.distinct;
        })

  written_elsewhere :
      (s : JobState) (r : UpdateJobStateRequest) (now : ℕ) (k : String)
      → Map.get d.states r.job_id ≡ some s
      → str_eq r.job_id k ≡ false
      → Slot k (write_job_state d s r now)
  unfolding write_job_state append_history
  written_elsewhere s r now k found other =
      let (j, hs, ej, eh, g) = known_state d r.job_id s (v r.job_id) found in
      Slot-elsewhere d _ k refl (get-put_other d.states _ k _ other)
        (ground (arith, get-remove_other d.inprogress r.job_id k other))
        (append_history_other d.history _ k _ (rw g.state_key other)) (v k)

  -- `UpdateJobState` keeps the maps in agreement, whether it writes or refuses.
  pub update_job_state-IsConsistent :
      (r : UpdateJobStateRequest) (now : ℕ) → IsConsistent (settle d (update_job_state d r now))
  update_job_state-IsConsistent r now k = elim (update_job_state_cases d r now) [
    | inl (e, refused) ↦ rw refused (v k)
    | inr (s, found, valid, running, written) ↦ rw written (elim (Bool-cases (str_eq r.job_id k)) [
      | inl this ↦
          subst (λ x. Slot x (write_job_state d s r now)) ((eq_iff _ _).0 this)
            (written_here s r now found running)
      | inr other ↦ written_elsewhere s r now k found other
    ])
  ]
