-- ===== src/Verifier/Examples.antt =====
-- A verification of three results, of which two agree.
use mathlib.Core.List.{Permᴰ, reverse}
use mathlib.Core.List.Permᴰ
use bacalhau.Base.{
  ℕ, ◌≡◌, ◌↔◌, refl, String, Bool, true, false, List, [], ◌∷◌, none, map, ◌==◌, if◌then◌else◌,
}
use bacalhau.Base.Result.{Result, ok, err}
use bacalhau.Model.ExecutionState
use bacalhau.Model.ExecutionState.{ExecutionState, ExecutionStateType}
use bacalhau.Requester.World.{VerifierRequest, VerifierResult}
use bacalhau.Verifier.Arrangement.{IsArrangement}
use bacalhau.Verifier.{Groups, verify, validate_executions}
use bacalhau.Verifier.Groups.{votes, result_of}
use bacalhau.Verifier.Majority.{IsMajority, verify-IsMajority}
use bacalhau.Verifier.Order.{verify-perm}

-- Proposals of one byte decrypt.
abbrev decrypt : List ℕ → Result String String
decrypt [] = err "empty"
decrypt (b ∷ bs) = ok (if b == 1 then "h1:one" else "h1:other")

abbrev proposed : String → List ℕ → ExecutionState
proposed node proposal = record {
  job_id = "job";
  node_id = node;
  compute_reference = "e";
  state = ExecutionStateType.result_proposed;
  accepted_ask_for_bid = true;
  status = "";
  verification_proposal = proposal;
  verification_result = record { complete = false; result = false };
  published_result = "";
  run_output = none;
  version = 4;
  create_time = 1;
  update_time = 2;
}

abbrev asks : List ExecutionState → VerifierRequest
asks es = record {
  job_id = "job";
  deal = record { concurrency = 3; confidence = 2; min_bids = 0 };
  executions = es;
}

abbrev request : VerifierRequest
request = asks (proposed "a" (1 ∷ []) ∷ proposed "b" (2 ∷ []) ∷ proposed "c" (1 ∷ []) ∷ [])

abbrev other_order : VerifierRequest
other_order = asks (proposed "b" (2 ∷ []) ∷ proposed "a" (1 ∷ []) ∷ proposed "c" (1 ∷ []) ∷ [])

valid : validate_executions request ≡ ok tt
unfolding validate_executions ExecutionState.same
valid = refl

other_valid : validate_executions other_order ≡ ok tt
unfolding validate_executions ExecutionState.same
other_valid = refl

abbrev forwards : Groups → Groups
forwards groups = groups

abbrev backwards : Groups → Groups
backwards = reverse

forwards-IsArrangement : IsArrangement forwards
forwards-IsArrangement groups = Permᴰ.refl groups

backwards-IsArrangement : IsArrangement backwards
backwards-IsArrangement groups = Permᴰ.symm (Permᴰ.reverse groups)

verify-IsMajority_example :
    (wins : String → Bool) × (rs : List VerifierResult) × (verify decrypt backwards forwards request
      ≡ ok rs)
    × Permᴰ rs (map (result_of decrypt wins) request.executions)
    × ((hash : String) → (wins hash ≡ true) ↔ IsMajority (votes decrypt request.executions) 2 hash)
verify-IsMajority_example =
    verify-IsMajority decrypt backwards forwards backwards-IsArrangement forwards-IsArrangement
      request valid

verify-perm_example :
    (rs ss : List VerifierResult) × (verify decrypt backwards forwards request ≡ ok rs)
    × (verify decrypt forwards backwards other_order ≡ ok ss)
    × Permᴰ rs ss
verify-perm_example =
    verify-perm decrypt backwards forwards forwards backwards backwards-IsArrangement
      forwards-IsArrangement forwards-IsArrangement backwards-IsArrangement request other_order
      valid other_valid refl (Permᴰ.swap refl refl)
