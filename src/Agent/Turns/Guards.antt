-- ===== src/Agent/Turns/Guards.antt =====
-- A run executes only calls of tools that it advertised and may use.
use lite_harness.Common.{
  ℕ, zero, suc, ◌≡◌, String, true, Option, none, List, [], ◌∷◌, ◌++◌, ok, arith, refl, Option-cases,
  inl, inr, Result-cases,
}
use lite_harness.Routing.Models.{
  ModelEvent, text_delta, tool_call, usage, completed, request_accepted,
}
use lite_harness.Agent.Model.{
  ModelMessage, assistant, ToolDefinition, AgentError, Action, message_completed, AgentRun,
}
use lite_harness.Agent.Tools.{advertised_tools, compile_validators, run_calls}
use lite_harness.Agent.Tools.Guards.{is_guarded, is_guarded-append, run_calls-is_guarded}
use lite_harness.Agent.Turns.{
  StreamRead, read_stream, after_stream, run_turn, run_turns, run, TurnEnd, AgentDone, after_turn,
  returns, throws, continues, initial_messages, stream_error,
}

compiled_unchanged :
    (p : AgentRun) (ds : List ToolDefinition) (names : List String)
    (validators : List ToolDefinition)
    → compile_validators p names ds ≡ ok validators
    → validators ≡ ds
unfolding compile_validators
compiled_unchanged p [] names validators h = ground arith
compiled_unchanged p (d ∷ ds) names validators h =
    elim (Result-cases (compile_validators p (d.name ∷ names) ds)) [
      | inl (e, failed) ↦ absurd (ground (arith, failed))
      | inr (vs, done) ↦ ground (arith, done, compiled_unchanged p ds (d.name ∷ names) vs done)
    ]

module _ (p : AgentRun) (tools : List ToolDefinition) where
  read_stream-is_guarded :
      (turn : ℕ) (es : List ModelEvent) (failure : Option AgentError)
      → is_guarded p tools none (read_stream p turn es failure).actions ≡ true
  unfolding read_stream
  read_stream-is_guarded turn [] failure = refl
  read_stream-is_guarded turn (text_delta s ∷ es) failure = read_stream-is_guarded turn es failure
  read_stream-is_guarded turn (tool_call c ∷ es) failure = read_stream-is_guarded turn es failure
  read_stream-is_guarded turn (completed r ∷ es) failure = read_stream-is_guarded turn es failure
  read_stream-is_guarded turn (request_accepted ∷ es) failure =
      read_stream-is_guarded turn es failure
  read_stream-is_guarded turn (usage u ∷ es) failure =
      ground (arith, read_stream-is_guarded turn es failure)

  after_stream-is_guarded :
      (turn : ℕ) (messages : List ModelMessage) (r : StreamRead)
      → is_guarded p tools none r.actions ≡ true
      → is_guarded p tools none (after_stream p tools turn messages r).actions ≡ true
  unfolding after_stream
  after_stream-is_guarded turn messages r h = elim (Option-cases (stream_error p r)) [
    | inr (e, failed) ↦ ground (arith, failed)
    | inl fine ↦
        let done = run_calls p tools (messages ++ assistant r.text r.calls ∷ []) r.calls in
        let whole : is_guarded p tools none
              (r.actions ++ message_completed r.text r.calls turn ∷ done.actions)
            ≡ true =
          is_guarded-append p tools none r.actions
            (message_completed r.text r.calls turn ∷ done.actions) h
            (run_calls-is_guarded p tools r.calls (messages ++ assistant r.text r.calls ∷ [])) in
        ground (arith, fine, whole)
  ]

  run_turn-is_guarded :
      (turn : ℕ) (before : List ModelMessage)
      → is_guarded p tools none (run_turn p tools turn before).actions ≡ true
  unfolding run_turn
  run_turn-is_guarded turn before =
      let messages = before ++ p.take_steering turn in
      let stream = p.stream_turn messages in
      let read = read_stream p turn stream.events stream.failure in
      ground (
        arith,
        after_stream-is_guarded turn messages read
            (read_stream-is_guarded turn stream.events stream.failure),
      )

  after_turn-is_guarded :
      (actions : List Action) (end : TurnEnd) (next : List ModelMessage → AgentDone)
      → is_guarded p tools none actions ≡ true
      → ((messages : List ModelMessage) → is_guarded p tools none (next messages).actions ≡ true)
      → is_guarded p tools none (after_turn actions end next).actions ≡ true
  unfolding after_turn
  after_turn-is_guarded actions returns next h k = h
  after_turn-is_guarded actions (throws e) next h k = h
  after_turn-is_guarded actions (continues messages) next h k =
      is_guarded-append p tools none actions (next messages).actions h (k messages)

  run_turns-is_guarded :
      (left turn : ℕ) (messages : List ModelMessage)
      → is_guarded p tools none (run_turns p tools left turn messages).actions ≡ true
  unfolding run_turns
  run_turns-is_guarded zero turn messages = refl
  run_turns-is_guarded (suc left) turn messages =
      let t = run_turn p tools turn messages in
      after_turn-is_guarded t.actions t.end (run_turns p tools left (suc turn))
        (run_turn-is_guarded turn messages) (run_turns-is_guarded left (suc turn))

-- A run executes a call only if the call names one of the listed tools that the run allows, with
-- arguments that the schema of such a tool accepts, after the hook before the call let it pass, under
-- a timeout between 100 milliseconds and an hour, and directly after the request for a call of that id
-- was told.
pub run-is_guarded :
    (p : AgentRun) (turn_limit : ℕ)
    → is_guarded p (advertised_tools p) none (run p turn_limit).actions ≡ true
unfolding run
run-is_guarded p turn_limit = elim (Result-cases (compile_validators p [] (advertised_tools p))) [
  | inl (e, h) ↦ ground (arith, h)
  | inr (validators, h) ↦
      let same : validators ≡ advertised_tools p =
        compiled_unchanged p (advertised_tools p) [] validators h in
      ground (
        arith,
        h,
        same,
        run_turns-is_guarded p (advertised_tools p) turn_limit 0 (initial_messages p),
      )
]
