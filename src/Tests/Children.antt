-- ===== src/Tests/Children.antt =====
-- The theorem on the runs of subagents at a run with no child yet.
use lite_harness.Common.{String, true, none, [], ◌∷◌, ok, err, Result}
use lite_harness.Run.Status.{running}
use lite_harness.Run.Record.{no_overrides}
use lite_harness.Store.Rows.{RunRow}
use lite_harness.Store.Resources.{AgentRow}
use lite_harness.Service.Children.{create_child_run}
use lite_harness.Service.Intake.{Intake, IntakeError, CreateRunResponse, ChildRequest}
use lite_harness.Tests.Data.{store, owner, row}
use lite_harness.Tests.Submission.{database, fresh, fingerprint}

abbrev parent : RunRow
parent = row "run_1" none running 2

abbrev coder : AgentRow
coder = record {
  internal_id = "agt_1";
  id = "coder";
  owner = owner;
  model_capabilities = "text" ∷ "tools" ∷ [];
  allowed_tools = "read_file" ∷ "write_file" ∷ [];
  default_budget = no_overrides;
}

abbrev reader : AgentRow
reader = record coder { internal_id = "agt_2"; id = "reader"; allowed_tools = "read_file" ∷ [] }

abbrev intake : Intake
intake = record {
  database = record database {
    store = record store { runs = parent ∷ [] };
    agents = coder ∷ reader ∷ [];
  };
  is_accepting = true;
  notified = [];
  scheduled = [];
}

abbrev child_request : ChildRequest
child_request = record {
  parent_run_id = "run_1";
  agent = "reader";
  input = "read";
  idempotency_key = "k";
  budget = no_overrides;
}

abbrev suffix : String → String
suffix s = "abc"

abbrev returned : Result IntakeError (Intake × CreateRunResponse) → Intake × CreateRunResponse
returned (err _) =
    (intake, record { run_id = ""; status = running; event_cursor = 0; is_replay = true })
returned (ok r) = r

abbrev spawned : Intake × CreateRunResponse
spawned = returned (create_child_run fingerprint suffix 9 "run_9" fresh 3 intake child_request)
