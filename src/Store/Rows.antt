-- ===== src/Store/Rows.antt =====
-- The rows of the tables that hold runs, their events and their attempts:
-- packages/storage-sqlite/src/index.ts (`RunRow`, `EventRow`, `AttemptRow`, `LeaseRow`,
-- `ApprovalRow`, `toRunRecord`) and packages/contracts/src/index.ts (`RunEventTypeSchema`).
-- A time is its number of milliseconds, and NULL is `none`.
use lite_harness.Common.{ℕ, Bool, String, Option, some, none, if◌then◌else◌}
use lite_harness.Run.Status.{RunStatus}
use lite_harness.Run.Record.{RunBudget, RunRecord, ResourceOwner}
use lite_harness.Store.Json.{Fields}

pub data RunEventType : Type 0 where
  run_accepted run_queued run_preparing run_started run_snapshot_frozen : RunEventType
  run_checkpointing run_timed_out run_steered agent_message_delta : RunEventType
  agent_message_completed tool_call_requested tool_call_completed usage_updated : RunEventType
  workspace_lease_acquired workspace_lease_released workspace_restore_started : RunEventType
  workspace_restore_completed workspace_checkpoint_completed : RunEventType
  workspace_checkpoint_failed approval_requested approval_resolved artifact_created : RunEventType
  subagent_started subagent_completed run_succeeded run_failed run_cancelled : RunEventType
  run_orphaned : RunEventType

-- The stored key `${userId.length}:${userId}:${key}`, as its two parts.
pub record ScopedKey : Type 0 where
  pub scope : String
  pub key : String

pub record RunRow : Type 0 where
  pub id : String
  pub idempotency_key : ScopedKey
  pub request_fingerprint : String
  pub owner : ResourceOwner
  pub open owner use *
  pub agent_id : String
  pub workspace_id : String
  pub session_id : Option String
  pub provider_connection_id : Option String
  pub agent_internal_id : Option String
  pub workspace_internal_id : Option String
  pub session_internal_id : Option String
  pub parent_run_id : Option String
  pub depth : ℕ
  pub delivery_allowed : Bool
  pub input : String
  pub budget : RunBudget
  pub usage_input_tokens : ℕ
  pub usage_input_tokens_reported : Bool
  pub usage_output_tokens : ℕ
  pub usage_output_tokens_reported : Bool
  pub usage_cost_usd : ℕ
  pub usage_cost_reported : Bool
  pub usage_tool_calls : ℕ
  pub status : RunStatus
  pub last_sequence : ℕ
  pub error_code : Option String
  pub error_message : Option String
  pub created_at : ℕ
  pub updated_at : ℕ

pub record RunEvent : Type 0 where
  pub run_id : String
  pub sequence : ℕ
  pub type : RunEventType
  pub payload : Fields
  pub created_at : ℕ

-- The status of an attempt is RUNNING or a terminal status of the run.
pub record AttemptRow : Type 0 where
  pub id : String
  pub run_id : String
  pub attempt : ℕ
  pub status : RunStatus
  pub started_at : ℕ
  pub ended_at : Option ℕ

pub record LeaseRow : Type 0 where
  pub workspace_internal_id : String
  pub owner_run_id : Option String
  pub fencing_token : ℕ
  pub expires_at : Option ℕ
  pub updated_at : ℕ

pub data ApprovalStatus : Type 0 where
  pending approved denied expired : ApprovalStatus

pub record ApprovalRecord : Type 0 where
  pub id : String
  pub run_id : String
  pub tool_call_id : String
  pub tool_name : String
  pub tool_arguments_digest : String
  pub execution_digest : String
  pub owner : ResourceOwner
  pub open owner use *
  pub workspace_id : String
  pub policy_generation : ℕ
  pub route_generation : String
  pub status : ApprovalStatus
  pub expires_at : ℕ
  pub created_at : ℕ
  pub resolved_at : Option ℕ

-- `reported === 1 ? value : null`
abbrev reported : Bool → ℕ → Option ℕ
reported is_reported value = if is_reported then some value else none

unfoldable pub to_run_record : RunRow → RunRecord
to_run_record row = record {
  id = row.id;
  idempotency_key = row.idempotency_key.key;
  owner = row.owner;
  agent_id = row.agent_id;
  workspace_id = row.workspace_id;
  session_id = row.session_id;
  provider_connection_id = row.provider_connection_id;
  parent_run_id = row.parent_run_id;
  depth = row.depth;
  delivery_allowed = row.delivery_allowed;
  input = row.input;
  budget = row.budget;
  usage = record {
    input_tokens = reported row.usage_input_tokens_reported row.usage_input_tokens;
    output_tokens = reported row.usage_output_tokens_reported row.usage_output_tokens;
    cost_usd = reported row.usage_cost_reported row.usage_cost_usd;
    tool_calls = row.usage_tool_calls;
  };
  status = row.status;
  last_sequence = row.last_sequence;
  error_code = row.error_code;
  error_message = row.error_message;
  created_at = row.created_at;
  updated_at = row.updated_at;
}
