-- ===== src/Tests/Agent.antt =====
-- The theorems on an agent at a run of two turns and one tool.
use lite_harness.Common.{
  ◌≤◌, ◌≡◌, ◌==◌, refl, true, false, some, none, List, [], ◌∷◌, ◌++◌, ok, all, if◌then◌else◌, arith,
}
use lite_harness.Store.Json.{no_fields}
use lite_harness.Routing.Models.{
  ToolCall, ModelEvent, stop, tool_calls, text_delta, tool_call, completed,
}
use lite_harness.Agent.Model.{
  ModelMessage, user, assistant, tool, ToolDefinition, ToolResult, Action, ask, message_delta,
  message_completed, call_requested, execute, call_completed, AgentRun,
}
use lite_harness.Agent.Tools.{
  compile_validators, validate_arguments, artifact_created_payload, after_execution, run_call,
  run_calls, advertised_tools,
}
use lite_harness.Agent.Tools.Guards.{is_guarded}
use lite_harness.Agent.Tools.Answers.{is_answered, is_answered_ask}
use lite_harness.Agent.Turns.{
  read_stream, stream_error, turn_end, after_stream, run_turn, after_turn, run_turns,
  initial_messages, run,
}
use lite_harness.Agent.Turns.Guards.{run-is_guarded}
use lite_harness.Agent.Turns.Answers.{run-asks}
use lite_harness.Agent.Turns.Ending.{asks, run_bounded, EndsPlainly, run-EndsPlainly}

abbrev write_file : ToolDefinition
write_file = record {
  name = "write_file";
  description = "Writes a file.";
  input_schema = no_fields;
}

abbrev call : ToolCall
call = record { id = "call_1"; name = "write_file"; arguments = no_fields }

abbrev result_of : ToolCall → ToolResult
result_of c = record { call_id = c.id; is_ok = true; content = "Wrote"; metadata = none }

-- The model calls the tool on the first message, and stops after the result.
abbrev answer : List ModelMessage → List ModelEvent
answer (user s ∷ []) =
    text_delta "I " ∷ text_delta "write." ∷ tool_call call ∷ completed tool_calls ∷ []
answer _ = text_delta "Done." ∷ completed stop ∷ []

abbrev agent : AgentRun
agent = record {
  input = "write";
  instructions = some " ";
  history = [];
  compiled_context = [];
  listed_tools = write_file ∷ record write_file { name = "shell_exec" } ∷ [];
  allowed_tools = "write_file" ∷ [];
  has_cost_ceiling = false;
  require_authoritative_usage = false;
  allow_unmetered_usage = false;
  context_window = some 1_000;
  command_timeout_ms = 300_000;
  trim = λ s. if s == " " then "" else s;
  request_length = λ _ _. 100;
  is_aborted = λ _. false;
  take_steering = λ _. [];
  stream_turn = λ ms. record { events = answer ms; failure = none };
  compiles = λ _. true;
  accepts = λ _ _. true;
  before_tool_call = λ _ _. none;
  execute_tool = λ _ c. ok (result_of c);
  is_artifact_id = λ _. true;
  is_sha256 = λ _. true;
  is_workspace_path = λ _. true;
}

abbrev first_messages : List ModelMessage
first_messages = user "write" ∷ []

abbrev called_messages : List ModelMessage
called_messages = user "write" ∷ assistant "I write." (call ∷ []) ∷ []

abbrev actions : List Action
actions =
    ask first_messages
    ∷ message_delta "I " 0
    ∷ message_delta "write." 0
    ∷ message_completed "I write." (call ∷ []) 0
    ∷ call_requested call
    ∷ execute called_messages call
    ∷ call_completed (result_of call)
    ∷ ask (called_messages ++ tool "Wrote" "call_1" ∷ [])
    ∷ message_delta "Done." 1
    ∷ message_completed "Done." [] 1
    ∷ []

agent_runs : run agent 8 ≡ record { actions = actions; error = none }
unfolding run compile_validators initial_messages run_turns after_turn run_turn after_stream
    read_stream stream_error turn_end run_calls run_call validate_arguments after_execution
    artifact_created_payload
agent_runs = refl

run-is_guarded_example : is_guarded agent (advertised_tools agent) none (run agent 8).actions ≡ true
run-is_guarded_example = run-is_guarded agent 8

answers_by_id :
    (messages : List ModelMessage) (c : ToolCall) (r : ToolResult)
    → agent.execute_tool messages c ≡ ok r
    → r.call_id ≡ c.id
answers_by_id messages c r h = ground arith

first_answered : is_answered (initial_messages agent) ≡ true
unfolding initial_messages
first_answered = refl

run-asks_example : all is_answered_ask (run agent 8).actions ≡ true
run-asks_example = run-asks agent 8 answers_by_id (λ turn. refl) first_answered

run_bounded_example : asks (run agent 2).actions ≤ 2
run_bounded_example = run_bounded agent 2

throws_nothing : (run agent 8).error ≡ none
throws_nothing = rw agent_runs refl

run-EndsPlainly_example : EndsPlainly (run agent 8).actions
run-EndsPlainly_example = run-EndsPlainly agent 8 throws_nothing
