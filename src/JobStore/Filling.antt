-- ===== src/JobStore/Filling.antt =====
-- One merge of structs that does what the library documents, for runs on concrete data.
use bacalhau.Base.{refl, ◌||◌}
use bacalhau.Base.Result.{ok}
use bacalhau.JobStore.Executions.{Merge}
use bacalhau.JobStore.Merge.{Fills, filled_text, filled_number, filled_state}

-- A merge that fills zero values, as the library documents it.
unfoldable pub fill : Merge
fill dst src = ok (record dst {
  job_id = filled_text dst.job_id src.job_id;
  node_id = filled_text dst.node_id src.node_id;
  compute_reference = filled_text dst.compute_reference src.compute_reference;
  state = filled_state dst.state src.state;
  accepted_ask_for_bid = dst.accepted_ask_for_bid || src.accepted_ask_for_bid;
  version = filled_number dst.version src.version;
})

pub fill-Fills : Fills fill
unfolding fill
fill-Fills dst src = (
  _,
  refl,
  record {
    job_id = refl;
    node_id = refl;
    compute_reference = refl;
    state = refl;
    accepted = refl;
    version = refl;
    create_time = refl;
    update_time = refl;
  },
)
