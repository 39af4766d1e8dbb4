-- ===== src/Agent/Turns.antt =====
-- The turns of an agent: packages/agent-runtime/src/index.ts (`AgentRunner.run`, from the compiled
-- context on). The idle timeout and an abort during a turn are errors that end its stream.
pub mod Answers
pub mod Guards
pub mod Ending
use lite_harness.Common.{
  concat_text, ℕ, ◌+◌, ◌/◌, zero, suc, String, Bool, true, false, ◌&&◌, not, Option, some, none,
  List, [], ◌∷◌, ◌++◌, Result, ok, err, ◌==◌, if◌then◌else◌, ltb,
}
use lite_harness.Run.Record.{or_else}
use lite_harness.Store.Events.{absent}
use lite_harness.Routing.Models.{
  ToolCall, ModelEvent, FinishReason, stop, tool_calls, text_delta, tool_call, usage, completed,
  request_accepted,
}
use lite_harness.Agent.Model.{
  ModelMessage, system, user, assistant, ToolDefinition, AgentError, aborted,
  context_limit_exceeded, unknown_model_price, provider_stream_truncated, provider_usage_missing,
  no_stop_reason, turn_limit_exceeded, Action, ask, message_delta, usage_updated, message_completed,
  ModelStream, AgentRun,
}
use lite_harness.Agent.Tools.{advertised_tools, compile_validators, run_calls, CallsDone}

-- What a stream was read to: the text, the calls and the reason of the turn, what was told of them,
-- and the error that ended the reading.
pub record StreamRead : Type 0 where
  pub text : String
  pub calls : List ToolCall
  pub finish_reason : Option FinishReason
  pub saw_usage : Bool
  pub actions : List Action
  pub failure : Option AgentError

abbrev pub ended : Option AgentError → StreamRead
ended failure = record {
  text = "";
  calls = [];
  finish_reason = none;
  saw_usage = false;
  actions = [];
  failure = failure;
}

-- The loop over the events of a stream, in turn number `turn`.
unfoldable pub read_stream : AgentRun → ℕ → List ModelEvent → Option AgentError → StreamRead
read_stream p turn [] failure = ended failure
read_stream p turn (text_delta delta ∷ es) failure =
    let rest = read_stream p turn es failure in
    record rest {
      text = concat_text delta rest.text;
      actions = message_delta delta turn ∷ rest.actions;
    }
read_stream p turn (tool_call call ∷ es) failure =
    let rest = read_stream p turn es failure in record rest { calls = call ∷ rest.calls }
read_stream p turn (usage u ∷ es) failure =
    let rest = read_stream p turn es failure in
    if p.has_cost_ceiling && absent u.cost
    then ended (some unknown_model_price)
    else record rest { saw_usage = true; actions = usage_updated u ∷ rest.actions }
read_stream p turn (completed reason ∷ es) failure =
    let rest = read_stream p turn es failure in
    record rest { finish_reason = some (or_else rest.finish_reason reason) }
read_stream p turn (request_accepted ∷ es) failure = read_stream p turn es failure

-- The checks after the stream.
unfoldable pub stream_error : AgentRun → StreamRead → Option AgentError
stream_error p r = elim r.failure [
  | some e ↦ some e
  | none ↦
      if absent r.finish_reason
      then some provider_stream_truncated
      else (if p.require_authoritative_usage && not r.saw_usage && not p.allow_unmetered_usage
          then some provider_usage_missing
          else none)
]

-- How a turn ends: the run returns, it throws, or another turn follows.
pub data TurnEnd : Type 0 where
  returns : TurnEnd
  throws : AgentError → TurnEnd
  continues : List ModelMessage → TurnEnd

-- After the calls of a turn.
unfoldable pub turn_end : List ToolCall → Option FinishReason → List ModelMessage → TurnEnd
turn_end [] (some stop) messages = returns
turn_end [] none messages = throws no_stop_reason
turn_end calls reason messages = continues messages

pub record TurnDone : Type 0 where
  pub actions : List Action
  pub end : TurnEnd

abbrev pub after_calls : StreamRead → ℕ → CallsDone → TurnDone
after_calls r turn done = record {
  actions = r.actions ++ message_completed r.text r.calls turn ∷ done.actions;
  end = elim done.failure [
    | some e ↦ throws e
    | none ↦ turn_end r.calls r.finish_reason done.messages
  ];
}

-- From the reading of a stream to the end of its turn.
unfoldable pub after_stream :
    AgentRun → List ToolDefinition → ℕ → List ModelMessage → StreamRead → TurnDone
after_stream p validators turn messages r = elim (stream_error p r) [
  | some e ↦ record { actions = r.actions; end = throws e }
  | none ↦
      after_calls r turn
        (run_calls p validators (messages ++ assistant r.text r.calls ∷ []) r.calls)
]

abbrev exceeds_context : AgentRun → List ModelMessage → Bool
exceeds_context p messages = elim p.context_window [
  | none ↦ false
  | some window ↦ ltb window ((p.request_length messages (advertised_tools p) + 3) / 4)
]

abbrev refused : AgentError → TurnDone
refused e = record { actions = []; end = throws e }

abbrev pub asked : List ModelMessage → TurnDone → TurnDone
asked messages done = record done { actions = ask messages ∷ done.actions }

-- One turn.
unfoldable pub run_turn : AgentRun → List ToolDefinition → ℕ → List ModelMessage → TurnDone
run_turn p validators turn before =
    let messages = before ++ p.take_steering turn in
    let stream = p.stream_turn messages in
    if p.is_aborted turn
    then refused aborted
    else (if exceeds_context p messages
        then refused context_limit_exceeded
        else asked messages (
            after_stream p validators turn messages
              (read_stream p turn stream.events stream.failure)))

-- What a run did, and the error that it threw.
pub record AgentDone : Type 0 where
  pub actions : List Action
  pub error : Option AgentError

unfoldable pub after_turn : List Action → TurnEnd → (List ModelMessage → AgentDone) → AgentDone
after_turn actions returns next = record { actions = actions; error = none }
after_turn actions (throws e) next = record { actions = actions; error = some e }
after_turn actions (continues messages) next = record (next messages) {
  actions = actions ++ (next messages).actions;
}

-- The turns that are left, from number `turn` on.
unfoldable pub run_turns : AgentRun → List ToolDefinition → ℕ → ℕ → List ModelMessage → AgentDone
run_turns p validators zero turn messages = record {
  actions = [];
  error = some turn_limit_exceeded;
}
run_turns p validators (suc left) turn messages =
    let t = run_turn p validators turn messages in
    after_turn t.actions t.end (run_turns p validators left (suc turn))

abbrev instruction_messages : AgentRun → List ModelMessage
instruction_messages p = elim p.instructions [
  | none ↦ []
  | some text ↦ if p.trim text == "" then [] else system (p.trim text) ∷ []
]

abbrev history_or_input : AgentRun → List ModelMessage → List ModelMessage
history_or_input p [] = user p.input ∷ []
history_or_input p (m ∷ ms) = m ∷ ms

unfoldable pub initial_messages : AgentRun → List ModelMessage
initial_messages p = instruction_messages p ++ p.compiled_context ++ history_or_input p p.history

-- `run`, with at most `turn_limit` turns.
unfoldable pub run : AgentRun → ℕ → AgentDone
run p turn_limit = elim (compile_validators p [] (advertised_tools p)) [
  | err e ↦ record { actions = []; error = some e }
  | ok validators ↦ run_turns p validators turn_limit 0 (initial_messages p)
]
