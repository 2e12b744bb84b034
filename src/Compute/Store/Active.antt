-- ===== src/Compute/Store/Active.antt =====
-- The active execution of a job (pkg/compute/store/utils.go).
use bacalhau.Base.{
  ℕ, suc, ◌+◌, ◌<◌, ◌^◌, ◌≡◌, refl, sym, ap, ◌∙◌, String, List, [], ◌∷◌, true, false, arith, length,
  incr, if◌then◌else◌, Bool-cases, ltb, lt→ltb, inl, inr, ◌==◌,
}
use bacalhau.Base.Result.{ok}
use bacalhau.Compute.State.{Execution, is_active}
use bacalhau.Compute.Store.{Store, get_executions, get_active_execution, pick_active}

-- The active ones among the executions, in their order.
unfoldable pub actives : List Execution → List Execution
actives [] = []
actives (e ∷ es) = let rest = actives es in if is_active e.state then e ∷ rest else rest

-- The last of the executions, or the first argument where there is none.
unfoldable pub last_or : Execution → List Execution → Execution
last_or e [] = e
last_or e (x ∷ xs) = last_or x xs

incr-lt : (n : ℕ) → suc n < 2 ^ 64 → incr n ≡ suc n
incr-lt n h = omega (arith, h)

pick_active_done : (n : ℕ) (e : Execution) → pick_active [] n e ≡ last_or e (actives [])
unfolding pick_active actives last_or
pick_active_done n e = refl

actives_none : actives [] ≡ []
unfolding actives
actives_none = refl

-- The loop passes over an execution that is not active.
pick_active_skips :
    (x : Execution) (es : List Execution) (n : ℕ) (e : Execution)
    → is_active x.state ≡ false
    → pick_active (x ∷ es) n e ≡ pick_active es n e
unfolding pick_active
pick_active_skips x es n e h = rw h refl

-- The loop takes an active execution that is not the first.
pick_active_takes :
    (x : Execution) (es : List Execution) (n m : ℕ) (e : Execution)
    → is_active x.state ≡ true
    → incr n ≡ m
    → (m == 1) ≡ false
    → pick_active (x ∷ es) n e ≡ pick_active es m x
unfolding pick_active
pick_active_takes x es n m e h i later = rw (h, i, later) refl

-- The loop takes the first active execution if it is later than the zero value.
pick_active_starts :
    (x : Execution) (es : List Execution) (zero : Execution)
    → is_active x.state ≡ true
    → ltb zero.update_time x.update_time ≡ true
    → pick_active (x ∷ es) 0 zero ≡ pick_active es 1 x
unfolding pick_active
pick_active_starts x es z h t = rw (h, t) refl

actives_skips :
    (x : Execution) (es : List Execution)
    → is_active x.state ≡ false
    → actives (x ∷ es) ≡ actives es
unfolding actives
actives_skips x es h = rw h refl

actives_takes :
    (x : Execution) (es : List Execution)
    → is_active x.state ≡ true
    → actives (x ∷ es) ≡ x ∷ actives es
unfolding actives
actives_takes x es h = rw h refl

pick_active_later :
    (es : List Execution) (n : ℕ) (e : Execution)
    → suc n + length es < 2 ^ 64
    → pick_active es (suc n) e ≡ last_or e (actives es)
unfolding last_or
pick_active_later [] n e q = pick_active_done (suc n) e
pick_active_later (x ∷ es) n e q = elim (Bool-cases (is_active x.state)) [
  | inl active ↦
      pick_active_takes x es (suc n) (suc (suc n)) e active (incr-lt (suc n) (omega (arith, q)))
        (ground arith)
      ∙ pick_active_later es (suc n) x (omega (arith, q))
      ∙ ap (last_or e) (sym (actives_takes x es active))
  | inr idle ↦
      pick_active_skips x es (suc n) e idle
      ∙ pick_active_later es n e (omega (arith, q))
      ∙ ap (last_or e) (sym (actives_skips x es idle))
]

pick_active_first :
    (es : List Execution) (zero first : Execution) (rest : List Execution)
    → 1 + length es < 2 ^ 64
    → actives es ≡ first ∷ rest
    → zero.update_time < first.update_time
    → pick_active es 0 zero ≡ last_or first rest
pick_active_first [] z f rest q h t = absurd (cc (h, actives_none))
pick_active_first (x ∷ es) z f rest q h t = elim (Bool-cases (is_active x.state)) [
  | inl active ↦
      let both : x ∷ actives es ≡ f ∷ rest = sym (actives_takes x es active) ∙ h in
      let head : x ≡ f = cc (both) in
      let tail : actives es ≡ rest = cc (both) in
      pick_active_starts x es z active (rw head (lt→ltb z.update_time f.update_time t))
      ∙ pick_active_later es 0 x (omega (arith, q))
      ∙ ap (λ y. last_or y (actives es)) head
      ∙ ap (last_or f) tail
  | inr idle ↦
      pick_active_skips x es 0 z idle
      ∙ pick_active_first es z f rest (omega (arith, q)) (sym (actives_skips x es idle) ∙ h) t
]

-- `GetActiveExecution` returns the last active execution in the order of the job's list, whatever the
-- times of the updates, where the list has fewer than 2 ^ 64 - 1 items, and the first active one was
-- updated after the zero time.
pub get_active_execution_last :
    (d : Store) (zero : Execution) (j : String) (es : List Execution) (first : Execution)
    (rest : List Execution)
    → get_executions d zero j ≡ ok es
    → 1 + length es < 2 ^ 64
    → actives es ≡ first ∷ rest
    → zero.update_time < first.update_time
    → get_active_execution d zero j ≡ ok (last_or first rest)
unfolding get_active_execution
get_active_execution_last d z j es f rest h q a t =
    rw h (ap (λ e. ok e) (pick_active_first es z f rest q a t))
