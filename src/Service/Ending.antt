-- ===== src/Service/Ending.antt =====
-- How the body of an execution ends: packages/control-plane/src/index.ts (`#execute`, its `catch`).
use lite_harness.Common.{String, Bool, true, false, Option, some, none}
use lite_harness.Run.Status.{RunStatus, succeeded, failed, cancelled, timed_out, orphaned}
use lite_harness.Store.Json.{Fields, no_fields, field, text, boolean}
use lite_harness.Store.Rows.{RunEventType, run_timed_out, run_failed, run_orphaned, run_succeeded}
use lite_harness.Service.State.{AbortReason}

pub record Terminal : Type 0 where
  pub status : RunStatus
  pub type : RunEventType
  pub payload : Fields

-- What the body of the execution threw, or the checkpoint: a lost lease, an error with its message, or
-- another value with the text of it.
pub data Thrown : Type 0 where
  lease_lost : Thrown
  thrown thrown_value : String → Thrown

abbrev pub message_of : Thrown → String
message_of lease_lost = "Workspace lease was lost"
message_of (thrown m) = m
message_of (thrown_value m) = m

-- `error instanceof Error ? error.message : otherwise`
abbrev pub message_or : String → Thrown → String
message_or otherwise (thrown_value m) = otherwise
message_or otherwise e = message_of e

abbrev pub is_lease_lost : Thrown → Bool
is_lease_lost lease_lost = true
is_lease_lost (thrown m) = false
is_lease_lost (thrown_value m) = false

-- `{ code, message, retryable }`
abbrev pub failure : String → String → Bool → Fields
failure code message retryable =
    field "code" (text code)
      (field "message" (text message) (field "retryable" (boolean retryable) no_fields))

abbrev pub orphaned_as : String → String → Terminal
orphaned_as code message = record {
  status = orphaned;
  type = run_orphaned;
  payload = failure code message true;
}

abbrev pub success : Terminal
success = record { status = succeeded; type = run_succeeded; payload = no_fields }

-- The `catch`: what ended the execution, by the reason of the abort first.
unfoldable pub caught : Option AbortReason → Thrown → Terminal
caught (some AbortReason.run_cancelled) e = record {
  status = cancelled;
  type = RunEventType.run_cancelled;
  payload = field "reason" (text "requested") no_fields;
}
caught (some (AbortReason.run_timeout message)) e = record {
  status = timed_out;
  type = run_timed_out;
  payload = failure "run_timeout" message true;
}
caught (some (AbortReason.budget_exceeded message)) e = record {
  status = failed;
  type = run_failed;
  payload = failure "budget_exceeded" message false;
}
caught (some AbortReason.workspace_lease_lost) e =
    orphaned_as "workspace_lease_lost" "Workspace lease renewal or fencing validation failed"
caught none lease_lost =
    orphaned_as "workspace_lease_lost" "Workspace lease renewal or fencing validation failed"
caught none (thrown m) = record {
  status = failed;
  type = run_failed;
  payload = field "code" (text "agent_run_failed") (field "message" (text m) no_fields);
}
caught none (thrown_value m) = record {
  status = failed;
  type = run_failed;
  payload = field "code" (text "agent_run_failed") (field "message" (text m) no_fields);
}

-- What `workspaceLifecycle.checkpoint` answers: the fields that it adds to the event, or an error.
pub data Checkpoint : Type 0 where
  checkpointed : Fields → Checkpoint
  checkpoint_threw : Thrown → Checkpoint
