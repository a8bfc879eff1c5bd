-- ===== src/Tests/Samples.antt =====
-- A credential and an instant, for the other modules of concrete inputs.
use llm_mux_fork.Prelude.{pos, true, false, none, [], txt}
use llm_mux_fork.Clock.{Time, zero_time}
use llm_mux_fork.Provider.Types.{Status, Auth, no_quota, no_runtime}

-- An instant in 2025.
abbrev pub now : Time
now = 63_900_000_000_000_000_000

abbrev pub sample_auth : Auth
sample_auth = record {
  id = txt "a";
  index = 1;
  provider = txt "antigravity";
  file_name = txt "a.json";
  storage = 7;
  label = txt "first";
  status = Status.active;
  status_message = txt "";
  disabled = false;
  unavailable = false;
  proxy_url = txt "";
  attributes = [];
  priority = pos 0;
  metadata = [];
  quota = no_quota;
  last_error = none;
  created_at = zero_time;
  updated_at = zero_time;
  material_version = 1;
  last_refreshed_at = zero_time;
  next_refresh_after = zero_time;
  next_retry_after = zero_time;
  model_states = [];
  runtime = no_runtime;
  index_assigned = true;
}
