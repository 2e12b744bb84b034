-- ===== src/Requester/Termination/Views.antt =====
-- What a later check of a transition reads (pkg/requester/scheduler_state.go).
use bacalhau.Base.{
  ◌≡◌, refl, ap, ◌∙◌, ◌⊎◌, inl, inr, String, Bool, ◌&&◌, [], ◌∷◌, some, length, take, ltb,
  Bool-cases,
}
use bacalhau.Base.Map
use bacalhau.Model.JobState.{JobState}
use bacalhau.Model.Job.{Job}
use bacalhau.JobStore.InMemory.{JobStore}
use bacalhau.JobStore.Merge.{Fills}
use bacalhau.JobStore.Invariant.{IsConsistent}
use bacalhau.Requester.World.{Scheduler, World, early, late, clock}
use bacalhau.Requester.Messages.{Board}
use bacalhau.Requester.Retries.{check_for_failed_executions}
use bacalhau.Requester.Transition.{stored_executions, left_behind, reread, first_check, bid_checks}
use bacalhau.Requester.Protocol.{IsQuiet, Advances, stays}
use bacalhau.Requester.Protocol.Executions.{check_for_pending_bids-Advances}
use bacalhau.Requester.Protocol.Transitions.{
  check_for_failed_executions-Advances, bid_checks-Advances,
}
use bacalhau.Requester.Termination.Calls.{advances_lem}

known-executions :
    (d : JobStore) (id : String) (t : JobState)
    → Map.get d.states id ≡ some t
    → stored_executions d id ≡ t.executions
unfolding stored_executions
known-executions d id t h = rw (h, stored_executions) refl

left_cases :
    (reallocates : Bool) (d d' : JobStore) (id : String)
    → (left_behind reallocates d d' id ≡ [])
      ⊎ (left_behind reallocates d d' id ≡ stored_executions d' id ∷ [])
unfolding left_behind
left_cases r d d' id =
    elim (Bool-cases
      (r && ltb (length (stored_executions d id)) (length (stored_executions d' id)))) [
        | inl moved ↦ inr (rw moved refl)
        | inr kept ↦ inl (rw kept refl)
      ]

-- It is the front of what the store held at some time since the state was read.
abbrev pub Views : Scheduler → Board → Board → String → JobState → JobState → Type 0
Views s b c id state seen =
    (m : Board) × (t : JobState) × Advances s.merge b.store m.store
    × Advances s.merge m.store c.store
    × (Map.get m.store.states id ≡ some t)
    × (seen.executions ≡ take (length state.executions) t.executions)

module _ (s : Scheduler) (fills : Fills s.merge) (id : String) where
  pub viewed :
      (w : World) (b : Board) (job : Job) (state : JobState)
      → IsConsistent b.store
      → Map.get b.store.states id ≡ some state
      → let (c, arrays) = bid_checks s id w b job state in
        Views s b c id state (reread state arrays c.store id)
  unfolding bid_checks first_check reread
  viewed w b job state v stored =
      let c = check_for_failed_executions s (early w) b job state in
      let arrays = left_behind ((early w) 0).reallocates b.store c.store id in
      let d = (bid_checks s id w b job state).0 in
      let first = check_for_failed_executions-Advances s (early w) b job state in
      let whole = bid_checks-Advances s id w b job state in
      let (v', one) = advances_lem s.merge fills id b.store c.store v first in
      let (v'', two) = advances_lem s.merge fills id b.store d.store v whole in
      let (t, known, less) = one state stored in
      let (u, last, less') = two state stored in
      let n = length state.executions in
      let second =
        check_for_pending_bids-Advances s.merge c job (reread state arrays c.store id)
          (clock (late w)) in
      elim (left_cases ((early w) 0).reallocates b.store c.store id) [
        | inr moved ↦ (
          c,
          t,
          first,
          second,
          known,
          ap (λ a. (reread state a d.store id).executions) moved
              ∙ ap (take n) (known-executions c.store id t known),
        )
        | inl kept ↦ (
          d,
          u,
          whole,
          stays IsQuiet s.merge d.store,
          last,
          ap (λ a. (reread state a d.store id).executions) kept
              ∙ ap (take n) (known-executions d.store id u last),
        )
      ]
