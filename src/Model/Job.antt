-- ===== src/Model/Job.antt =====
-- A job and its deal (pkg/model/job.go). Of `Spec` the fields that the modelled parts read.
use bacalhau.Base.{ℕ, String, List, ◌==◌, if◌then◌else◌}

pub record JobRequester : Type 0 where
  pub requester_node_id : String
  pub requester_public_key : List ℕ

pub record Metadata : Type 0 where
  pub id : String
  pub created_at : ℕ
  pub client_id : String
  pub requester : JobRequester

-- The counts are Go `int`s, held where they are not negative.
pub record Deal : Type 0 where
  pub concurrency : ℕ
  pub confidence : ℕ
  pub min_bids : ℕ

unfoldable pub get_concurrency : Deal → ℕ
get_concurrency d = if d.concurrency == 0 then 1 else d.concurrency

unfoldable pub get_confidence : Deal → ℕ
unfolding get_concurrency
get_confidence d = if d.confidence == 0 then get_concurrency d else d.confidence

pub record Spec : Type 0 where
  pub verifier : String
  pub timeout : ℕ
  pub inputs : List String
  pub annotations : List String
  pub deal : Deal

pub record Job : Type 0 where
  pub api_version : String
  pub metadata : Metadata
  pub spec : Spec

-- `Job.ID`.
abbrev pub id : Job → String
id j = j.metadata.id
