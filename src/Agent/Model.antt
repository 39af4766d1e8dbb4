-- ===== src/Agent/Model.antt =====
-- Messages, tools and events of an agent: packages/provider-core/src/index.ts (`ModelMessage`),
-- packages/contracts/src/index.ts (`ToolDefinition`, `ToolResult`) and
-- packages/agent-runtime/src/index.ts (`AgentRuntimeEvent`, the parameters of `AgentRunner.run`).
use lite_harness.Common.{ℕ, String, Bool, Option, List, Result}
use lite_harness.Store.Json.{Fields}
use lite_harness.Routing.Models.{ToolCall, UsageEvent, ModelEvent}

-- The messages by their role; images are left out.
pub data ModelMessage : Type 0 where
  system user : String → ModelMessage
  assistant : String → List ToolCall → ModelMessage
  tool : String → String → ModelMessage

pub record ToolDefinition : Type 0 where
  pub name : String
  pub description : String
  pub input_schema : Fields

-- What an artifact is published under, each field if it has the type that the check asks for.
pub record ArtifactMetadata : Type 0 where
  pub artifact_id : Option String
  pub path : Option String
  pub sha256 : Option String
  pub size_bytes : Option ℕ

pub record ToolResult : Type 0 where
  pub call_id : String
  pub is_ok : Bool
  pub content : String
  pub metadata : Option ArtifactMetadata

pub record Artifact : Type 0 where
  pub artifact_id : String
  pub path : String
  pub sha256 : String
  pub size_bytes : ℕ

pub data AgentError : Type 0 where
  aborted context_limit_exceeded unknown_model_price provider_stream_truncated : AgentError
  provider_usage_missing invalid_command_timeout invalid_artifact_metadata : AgentError
  no_stop_reason turn_limit_exceeded : AgentError
  tool_not_advertised invalid_tool_arguments invalid_tool_schema : String → AgentError
  -- What the model, a tool or a hook threw.
  thrown : String → AgentError

-- What a run does, in order: it asks the model with its messages, hands an event to its caller, and
-- has a call executed after some messages.
pub data Action : Type 0 where
  ask : List ModelMessage → Action
  message_delta : String → ℕ → Action
  usage_updated : UsageEvent → Action
  message_completed : String → List ToolCall → ℕ → Action
  call_requested : ToolCall → Action
  execute : List ModelMessage → ToolCall → Action
  call_completed : ToolResult → Action
  artifact_created : Artifact → Action

-- The events of a turn of the model, and the error that ended them.
pub record ModelStream : Type 0 where
  pub events : List ModelEvent
  pub failure : Option AgentError

-- What a run is given, and what it calls: the model, which is asked with the messages, the tools and
-- the hooks, each of which may answer otherwise after other messages.
pub record AgentRun : Type 0 where
  pub input : String
  pub instructions : Option String
  pub history : List ModelMessage
  pub compiled_context : List ModelMessage
  pub listed_tools : List ToolDefinition
  pub allowed_tools : List String
  pub has_cost_ceiling : Bool
  pub require_authoritative_usage : Bool
  pub allow_unmetered_usage : Bool
  pub context_window : Option ℕ
  pub command_timeout_ms : ℕ
  pub trim : String → String
  -- The length of the messages and the tools as JSON.
  pub request_length : List ModelMessage → List ToolDefinition → ℕ
  pub is_aborted : ℕ → Bool
  pub take_steering : ℕ → List ModelMessage
  pub stream_turn : List ModelMessage → ModelStream
  -- Ajv: whether a schema compiles, and whether it accepts arguments.
  pub compiles : ToolDefinition → Bool
  pub accepts : ToolDefinition → Fields → Bool
  -- `beforeToolCall`, with the assertion that it returns.
  pub before_tool_call : List ModelMessage → ToolCall → Option AgentError
  pub execute_tool : List ModelMessage → ToolCall → Result AgentError ToolResult
  -- The regular expressions of an artifact, and `authorizedWorkspaceArtifactPath(path) === path`.
  pub is_artifact_id : String → Bool
  pub is_sha256 : String → Bool
  pub is_workspace_path : String → Bool
