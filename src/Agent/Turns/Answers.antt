-- ===== src/Agent/Turns/Answers.antt =====
-- The model is asked only with messages whose calls are all answered.
use lite_harness.Common.{
  ℕ, zero, suc, ◌≡◌, true, Option, some, none, List, [], ◌∷◌, ◌++◌, map, ok, arith, refl, ◌∙◌, all,
  all-append, all_mono, Option-cases, Result-cases, inl, inr,
}
use lite_harness.Routing.Models.{
  ToolCall, ModelEvent, FinishReason, text_delta, tool_call, usage, completed, request_accepted,
}
use lite_harness.Agent.Model.{
  ModelMessage, assistant, ToolDefinition, ToolResult, AgentError, Action, message_completed,
  AgentRun,
}
use lite_harness.Agent.Tools.{advertised_tools, compile_validators, run_calls}
use lite_harness.Agent.Tools.Answers.{
  pending, pending-append, is_answered, is_answered_ask, is_silent, is_silent-is_answered,
  is_answered-pending, call_id_of, run_calls-silent, run_calls-answers,
}
use lite_harness.Agent.Turns.{
  StreamRead, read_stream, after_stream, run_turn, run_turns, run, TurnEnd, AgentDone, after_turn,
  returns, throws, continues, initial_messages, stream_error, turn_end,
}

-- The messages with which the run goes on, if it does.
abbrev goes_on : TurnEnd → Option (List ModelMessage)
goes_on (continues messages) = some messages
goes_on _ = none

turn_end-goes_on :
    (calls : List ToolCall) (reason : Option FinishReason) (messages later : List ModelMessage)
    → goes_on (turn_end calls reason messages) ≡ some later
    → later ≡ messages
unfolding turn_end
turn_end-goes_on calls reason messages later h = ground arith

module _ (p : AgentRun) (tools : List ToolDefinition) where
  pub read_stream-silent :
      (turn : ℕ) (es : List ModelEvent) (failure : Option AgentError)
      → all is_silent (read_stream p turn es failure).actions ≡ true
  unfolding read_stream
  read_stream-silent turn [] failure = refl
  read_stream-silent turn (text_delta s ∷ es) failure = read_stream-silent turn es failure
  read_stream-silent turn (tool_call c ∷ es) failure = read_stream-silent turn es failure
  read_stream-silent turn (completed r ∷ es) failure = read_stream-silent turn es failure
  read_stream-silent turn (request_accepted ∷ es) failure = read_stream-silent turn es failure
  read_stream-silent turn (usage u ∷ es) failure =
      ground (arith, read_stream-silent turn es failure)

  pub after_stream-silent :
      (turn : ℕ) (messages : List ModelMessage) (r : StreamRead)
      → all is_silent r.actions ≡ true
      → all is_silent (after_stream p tools turn messages r).actions ≡ true
  unfolding after_stream
  after_stream-silent turn messages r h =
      let later = messages ++ assistant r.text r.calls ∷ [] in
      let done = run_calls p tools later r.calls in
      ground (
        arith,
        run_calls-silent p tools r.calls later,
        all-append is_silent r.actions (message_completed r.text r.calls turn ∷ done.actions),
      )

  module _
      (by_id : (messages : List ModelMessage) (call : ToolCall) (r : ToolResult)
        → p.execute_tool messages call ≡ ok r
        → r.call_id ≡ call.id) where
    after_stream-goes_on :
        (turn : ℕ) (messages later : List ModelMessage) (r : StreamRead)
        → pending [] messages ≡ some []
        → goes_on (after_stream p tools turn messages r).end ≡ some later
        → pending [] later ≡ some []
    unfolding after_stream
    after_stream-goes_on turn messages later r h on =
        let asked = messages ++ assistant r.text r.calls ∷ [] in
        let done = run_calls p tools asked r.calls in
        let waiting : pending [] asked ≡ some (map call_id_of r.calls) =
          pending-append [] [] messages (assistant r.text r.calls ∷ []) h in
        elim (Option-cases (stream_error p r)) [
          | inr (e, failed) ↦ absurd (ground (arith, failed))
          | inl fine ↦ elim (Option-cases done.failure) [
            | inr (e, failed) ↦ absurd (ground (arith, fine, failed))
            | inl all_done ↦ ground (
              arith,
              fine,
              all_done,
              turn_end-goes_on r.calls r.finish_reason done.messages later,
              run_calls-answers p tools by_id r.calls asked waiting all_done,
            )
          ]
        ]

    module _ (steering : (turn : ℕ) → is_answered (p.take_steering turn) ≡ true) where
      steered :
          (turn : ℕ) (before : List ModelMessage)
          → pending [] before ≡ some []
          → pending [] (before ++ p.take_steering turn) ≡ some []
      steered turn before h =
          pending-append [] [] before (p.take_steering turn) h
          ∙ is_answered-pending (p.take_steering turn) (steering turn)

      run_turn-asks :
          (turn : ℕ) (before : List ModelMessage)
          → pending [] before ≡ some []
          → all is_answered_ask (run_turn p tools turn before).actions ≡ true
      unfolding run_turn
      run_turn-asks turn before h =
          let messages = before ++ p.take_steering turn in
          let stream = p.stream_turn messages in
          let read = read_stream p turn stream.events stream.failure in
          ground (
            arith,
            steered turn before h,
            all_mono is_silent is_answered_ask is_silent-is_answered
                (after_stream p tools turn messages read).actions
                (after_stream-silent turn messages read
                  (read_stream-silent turn stream.events stream.failure)),
          )

      run_turn-goes_on :
          (turn : ℕ) (before later : List ModelMessage)
          → pending [] before ≡ some []
          → goes_on (run_turn p tools turn before).end ≡ some later
          → pending [] later ≡ some []
      unfolding run_turn
      run_turn-goes_on turn before later h on =
          let messages = before ++ p.take_steering turn in
          let stream = p.stream_turn messages in
          let read = read_stream p turn stream.events stream.failure in
          ground (arith, after_stream-goes_on turn messages later read (steered turn before h))

      after_turn-asks :
          (actions : List Action) (end : TurnEnd) (next : List ModelMessage → AgentDone)
          → all is_answered_ask actions ≡ true
          → ((later : List ModelMessage)
              → goes_on end ≡ some later
              → all is_answered_ask (next later).actions ≡ true)
          → all is_answered_ask (after_turn actions end next).actions ≡ true
      unfolding after_turn
      after_turn-asks actions returns next h k = h
      after_turn-asks actions (throws e) next h k = h
      after_turn-asks actions (continues later) next h k =
          ground (arith, h, k later refl, all-append is_answered_ask actions (next later).actions)

      run_turns-asks :
          (left turn : ℕ) (messages : List ModelMessage)
          → pending [] messages ≡ some []
          → all is_answered_ask (run_turns p tools left turn messages).actions ≡ true
      unfolding run_turns
      run_turns-asks zero turn messages h = refl
      run_turns-asks (suc left) turn messages h =
          let t = run_turn p tools turn messages in
          after_turn-asks t.actions t.end (run_turns p tools left (suc turn))
            (run_turn-asks turn messages h)
            (λ later on.
              run_turns-asks left (suc turn) later (run_turn-goes_on turn messages later h on))

-- If tools answer with the ids of their calls, and the first messages and the steering have no call
-- without its result, then a run asks the model only with messages in which each message of the model
-- is followed by the results of its calls, in their order.
pub run-asks :
    (p : AgentRun) (turn_limit : ℕ)
    (by_id : (messages : List ModelMessage) (call : ToolCall) (r : ToolResult)
      → p.execute_tool messages call ≡ ok r
      → r.call_id ≡ call.id)
    (steering : (turn : ℕ) → is_answered (p.take_steering turn) ≡ true)
    → is_answered (initial_messages p) ≡ true
    → all is_answered_ask (run p turn_limit).actions ≡ true
unfolding run
run-asks p turn_limit by_id steering h =
    elim (Result-cases (compile_validators p [] (advertised_tools p))) [
      | inl (e, failed) ↦ ground (arith, failed)
      | inr (validators, done) ↦ ground (
        arith,
        done,
        run_turns-asks p validators by_id steering turn_limit 0 (initial_messages p)
            (is_answered-pending (initial_messages p) h),
      )
    ]
