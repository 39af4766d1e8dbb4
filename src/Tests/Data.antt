-- ===== src/Tests/Data.antt =====
-- A small database: a running run "run_1" with a running child "run_2", both in the workspace
-- "wsp_in" of the owner "u", an ended run "run_3", and a pending approval of "run_1".
use lite_harness.Common.{ℕ, String, true, [], ◌∷◌, Option, some, none}
use lite_harness.Run.Status.{RunStatus, running, succeeded}
use lite_harness.Run.Record.{ResourceOwner, default_run_budget}
use lite_harness.Store.Json.{Fields, no_fields, field, text}
use lite_harness.Store.Rows.{
  RunRow, RunEvent, RunEventType, run_started, LeaseRow, ApprovalRecord, pending,
  subagent_completed,
}
use lite_harness.Store.Tables.{Store}
use lite_harness.Store.Events.{AppendRunEvent}
use lite_harness.Store.Leases.{WorkspaceLease}

abbrev pub owner : ResourceOwner
owner = record { app_id = "app"; tenant_id = "ten"; user_id = "u" }

abbrev pub row : String → Option String → RunStatus → ℕ → RunRow
row id parent status last = record {
  id = id;
  idempotency_key = record { scope = "u"; key = id };
  request_fingerprint = "f";
  owner = owner;
  agent_id = "coder";
  workspace_id = "demo";
  session_id = none;
  provider_connection_id = none;
  agent_internal_id = some "agt_in";
  workspace_internal_id = some "wsp_in";
  session_internal_id = none;
  parent_run_id = parent;
  depth = 0;
  delivery_allowed = true;
  input = "task";
  budget = default_run_budget;
  usage_input_tokens = 100;
  usage_input_tokens_reported = true;
  usage_output_tokens = 10;
  usage_output_tokens_reported = true;
  usage_cost_usd = 5;
  usage_cost_reported = true;
  usage_tool_calls = 0;
  status = status;
  last_sequence = last;
  error_code = none;
  error_message = none;
  created_at = 0;
  updated_at = 0;
}

abbrev pub event : String → ℕ → RunEvent
event id n = record {
  run_id = id;
  sequence = n;
  type = run_started;
  payload = no_fields;
  created_at = 0;
}

abbrev pub approval : ApprovalRecord
approval = record {
  id = "apr_1";
  run_id = "run_1";
  tool_call_id = "call";
  tool_name = "shell_exec";
  tool_arguments_digest = "args";
  execution_digest = "digest";
  owner = owner;
  workspace_id = "demo";
  policy_generation = 1;
  route_generation = "default-route-v1";
  status = pending;
  expires_at = 100;
  created_at = 0;
  resolved_at = none;
}

abbrev pub lease_of_run_1 : LeaseRow
lease_of_run_1 = record {
  workspace_internal_id = "wsp_in";
  owner_run_id = some "run_1";
  fencing_token = 4;
  expires_at = some 50;
  updated_at = 0;
}

abbrev pub store : Store
store = record {
  runs =
      row "run_1" none running 2
      ∷ row "run_2" (some "run_1") running 1
      ∷ row "run_3" (some "run_1") succeeded 1
      ∷ [];
  events = event "run_1" 1 ∷ event "run_2" 1 ∷ event "run_1" 2 ∷ event "run_3" 1 ∷ [];
  attempts =
      record {
        id = "att_1";
        run_id = "run_1";
        attempt = 1;
        status = running;
        started_at = 0;
        ended_at = none;
      }
      ∷ [];
  leases = lease_of_run_1 ∷ [];
  approvals = approval ∷ [];
}

abbrev pub lease : WorkspaceLease
lease = record { workspace_id = "demo"; owner_run_id = "run_1"; fencing_token = 4; expires_at = 50 }

abbrev pub append : String → RunEventType → Fields → AppendRunEvent
append id type payload = record {
  run_id = id;
  type = type;
  payload = payload;
  status = none;
  error_code = none;
  error_message = none;
  usage = none;
}

-- The summary of the ended child "run_3".
abbrev pub summary : AppendRunEvent
summary =
    append "run_1" subagent_completed
      (field "childRunId" (text "run_3") (field "status" (text "SUCCEEDED") no_fields))
