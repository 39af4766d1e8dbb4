-- ===== src/Agent/Tools.antt =====
-- The tools of an agent: packages/agent-runtime/src/index.ts (`compileAdvertisedToolValidators`,
-- `validateAdvertisedToolArguments`, `artifactCreatedPayload`, the calls of a turn). The cache of
-- compiled schemas, keyed by the schema, changes no answer and is left out.
pub mod Guards
pub mod Answers
use lite_harness.Common.{
  ℕ, ◌+◌, String, Bool, true, false, ◌&&◌, ◌||◌, not, Option, some, none, List, [], ◌∷◌, ◌++◌,
  Result, ok, err, ◌>>=◌, ◌>>◌, throw_if, if◌then◌else◌, keep, includes, find_by, ltb, leb, ◌==◌,
}
use lite_harness.Automation.Trigger.{max_safe_integer}
use lite_harness.Routing.Models.{ToolCall}
use lite_harness.Agent.Model.{
  ModelMessage, tool, ToolDefinition, ToolResult, ArtifactMetadata, Artifact, AgentError,
  tool_not_advertised, invalid_tool_arguments, invalid_tool_schema, invalid_command_timeout,
  invalid_artifact_metadata, Action, call_requested, execute, call_completed, artifact_created,
  AgentRun,
}

abbrev pub tool_name : ToolDefinition → String
tool_name d = d.name

-- The tools with their validators, after tools of these names.
unfoldable pub compile_validators :
    AgentRun → List String → List ToolDefinition → Result AgentError (List ToolDefinition)
compile_validators p names [] = ok []
compile_validators p names (d ∷ ds) =
    let rest = compile_validators p (d.name ∷ names) ds in
    if includes names d.name
    then err (invalid_tool_schema d.name)
    else (if p.compiles d
        then (rest >>= λ validators. ok (d ∷ validators))
        else err (invalid_tool_schema d.name))

-- The listed tools that the run allows.
abbrev pub advertised_tools : AgentRun → List ToolDefinition
advertised_tools p = keep (λ d. includes p.allowed_tools d.name) p.listed_tools

unfoldable pub validate_arguments :
    AgentRun → List ToolDefinition → ToolCall → Result AgentError (Unit {0})
validate_arguments p validators call = elim (find_by tool_name call.name validators) [
  | none ↦ err (tool_not_advertised call.name)
  | some d ↦ if p.accepts d call.arguments then ok tt else err (invalid_tool_arguments call.name)
]

abbrev checked_artifact :
    AgentRun → Option String → Option String → Option String → Option ℕ → Option Artifact
checked_artifact p (some artifact_id) (some path) (some sha256) (some size_bytes) =
    if p.is_artifact_id artifact_id
      && p.is_workspace_path path
      && p.is_sha256 sha256
      && leb size_bytes max_safe_integer
    then some (record {
      artifact_id = artifact_id;
      path = path;
      sha256 = sha256;
      size_bytes = size_bytes;
    })
    else none
checked_artifact p _ _ _ _ = none

abbrev artifact_of : AgentRun → Option ArtifactMetadata → Result AgentError (Option Artifact)
artifact_of p none = err invalid_artifact_metadata
artifact_of p (some m) = elim (checked_artifact p m.artifact_id m.path m.sha256 m.size_bytes) [
  | none ↦ err invalid_artifact_metadata
  | some a ↦ ok (some a)
]

unfoldable pub artifact_created_payload :
    AgentRun → ToolCall → ToolResult → Result AgentError (Option Artifact)
artifact_created_payload p call result =
    if not (call.name == "artifact_publish") || not result.is_ok
    then ok none
    else artifact_of p result.metadata

-- What a call did, and its result or the error that it threw.
pub record Called : Type 0 where
  pub actions : List Action
  pub result : Result AgentError ToolResult

abbrev pub artifact_event : Option Artifact → List Action
artifact_event none = []
artifact_event (some a) = artifact_created a ∷ []

abbrev pub stopped_by : List ModelMessage → ToolCall → AgentError → Called
stopped_by messages call e = record {
  actions = call_requested call ∷ execute messages call ∷ [];
  result = err e;
}

abbrev pub completed_call : List ModelMessage → ToolCall → ToolResult → Option Artifact → Called
completed_call messages call r a = record {
  actions = call_requested call ∷ execute messages call ∷ call_completed r ∷ artifact_event a;
  result = ok r;
}

unfoldable pub after_execution :
    AgentRun → List ModelMessage → ToolCall → Result AgentError ToolResult → Called
after_execution p messages call (err e) = stopped_by messages call e
after_execution p messages call (ok r) = elim (artifact_created_payload p call r) [
  | err e ↦ stopped_by messages call e
  | ok a ↦ completed_call messages call r a
]

-- Between 100 milliseconds and an hour.
abbrev pub is_command_timeout : ℕ → Bool
is_command_timeout ms = leb 100 ms && leb ms 3_600_000

abbrev pub refused_after_request : ToolCall → AgentError → Called
refused_after_request call e = record { actions = call_requested call ∷ []; result = err e }

-- One call of a turn, after these messages.
unfoldable pub run_call : AgentRun → List ToolDefinition → List ModelMessage → ToolCall → Called
run_call p validators messages call = elim (validate_arguments p validators call) [
  | err e ↦ record { actions = []; result = err e }
  | ok _ ↦ elim (p.before_tool_call messages call) [
    | some e ↦ refused_after_request call e
    | none ↦
        if not (is_command_timeout p.command_timeout_ms)
        then refused_after_request call invalid_command_timeout
        else after_execution p messages call (p.execute_tool messages call)
  ]
]

-- What the calls of a turn did, the messages after them, and the error that ended them.
pub record CallsDone : Type 0 where
  pub actions : List Action
  pub messages : List ModelMessage
  pub failure : Option AgentError

abbrev pub after_call : Called → (ToolResult → CallsDone) → List ModelMessage → CallsDone
after_call c rest messages = elim c.result [
  | err e ↦ record { actions = c.actions; messages = messages; failure = some e }
  | ok r ↦ record (rest r) { actions = c.actions ++ (rest r).actions }
]

-- `for (const call of toolCalls)`
unfoldable pub run_calls :
    AgentRun → List ToolDefinition → List ModelMessage → List ToolCall → CallsDone
run_calls p validators messages [] = record { actions = []; messages = messages; failure = none }
run_calls p validators messages (call ∷ calls) =
    after_call (run_call p validators messages call)
      (λ r. run_calls p validators (messages ++ tool r.content r.call_id ∷ []) calls) messages
