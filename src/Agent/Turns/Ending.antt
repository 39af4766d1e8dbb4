-- ===== src/Agent/Turns/Ending.antt =====
-- How long a run goes on, and how it returns.
use mathlib.Core.List.{append_assoc}
use lite_harness.Common.{
  ℕ, ◌+◌, zero, suc, ◌≤◌, ◌≡◌, Bool, true, not, List, [], ◌++◌, arith, all, keep, keep_none,
  keep-append, length, length-append, Result-cases, inl, inr, refl, ◌∷◌, Option-cases, ap, ◌∙◌, sym,
}
use lite_harness.Agent.Model.{
  ModelMessage, ToolDefinition, Action, AgentRun, message_completed, assistant, ask,
}
use lite_harness.Agent.Tools.{advertised_tools, compile_validators, run_calls}
use lite_harness.Agent.Tools.Answers.{is_silent}
use lite_harness.Agent.Turns.{
  read_stream, after_stream, run_turn, run_turns, run, TurnEnd, AgentDone, after_turn, returns,
  throws, continues, initial_messages, String, turn_end, StreamRead, ToolCall, some, Option, stop,
  FinishReason, stream_error, none,
}
use lite_harness.Agent.Turns.Answers.{read_stream-silent, after_stream-silent}

abbrev pub is_ask : Action → Bool
is_ask a = not (is_silent a)

-- How often the model was asked.
abbrev pub asks : List Action → ℕ
asks xs = length (keep is_ask xs)

asks-append : (xs ys : List Action) → asks (xs ++ ys) ≡ asks xs + asks ys
asks-append xs ys =
    ground (arith, keep-append is_ask xs ys, length-append (keep is_ask xs) (keep is_ask ys))

asks_none : (xs : List Action) → all is_silent xs ≡ true → asks xs ≡ 0
asks_none xs h = ground (arith, keep_none is_ask is_silent (λ a k. ground arith) xs h)

module _ (p : AgentRun) (tools : List ToolDefinition) where
  asks-run_turn :
      (turn : ℕ) (before : List ModelMessage) → asks (run_turn p tools turn before).actions ≤ 1
  unfolding run_turn
  asks-run_turn turn before =
      let messages = before ++ p.take_steering turn in
      let stream = p.stream_turn messages in
      let read = read_stream p turn stream.events stream.failure in
      ground (
        arith,
        asks_none (after_stream p tools turn messages read).actions (
            after_stream-silent p tools turn messages read
              (read_stream-silent p tools turn stream.events stream.failure)),
      )

  asks-after_turn :
      (left : ℕ) (actions : List Action) (end : TurnEnd) (next : List ModelMessage → AgentDone)
      → asks actions ≤ 1
      → ((later : List ModelMessage) → asks (next later).actions ≤ left)
      → asks (after_turn actions end next).actions ≤ suc left
  unfolding after_turn
  asks-after_turn left actions returns next h k = omega (arith, h)
  asks-after_turn left actions (throws e) next h k = omega (arith, h)
  asks-after_turn left actions (continues later) next h k =
      omega (arith, h, k later, asks-append actions (next later).actions)

  asks-run_turns :
      (left turn : ℕ) (messages : List ModelMessage)
      → asks (run_turns p tools left turn messages).actions ≤ left
  unfolding run_turns
  asks-run_turns zero turn messages = omega arith
  asks-run_turns (suc left) turn messages =
      let t = run_turn p tools turn messages in
      asks-after_turn left t.actions t.end (run_turns p tools left (suc turn))
        (asks-run_turn turn messages) (asks-run_turns left (suc turn))

-- Nothing follows a message of the model without calls.
pub EndsPlainly : List Action → Type 0
EndsPlainly xs =
    (before : List Action) × (text : String) × (turn : ℕ) × (xs
      ≡ before ++ message_completed text [] turn ∷ [])

turn_end-returns :
    (calls : List ToolCall) (reason : Option FinishReason) (messages : List ModelMessage)
    → turn_end calls reason messages ≡ returns
    → (calls ≡ []) × (reason ≡ some stop)
unfolding turn_end
turn_end-returns calls reason messages h = ground arith

module _ (p : AgentRun) (tools : List ToolDefinition) where
  no_calls-actions : (messages : List ModelMessage) → (run_calls p tools messages []).actions ≡ []
  unfolding run_calls
  no_calls-actions messages = refl

  after_stream-returns :
      (turn : ℕ) (messages : List ModelMessage) (r : StreamRead)
      → (after_stream p tools turn messages r).end ≡ returns
      → (r.finish_reason ≡ some stop)
        × ((after_stream p tools turn messages r).actions
            ≡ r.actions ++ message_completed r.text [] turn ∷ [])
  unfolding after_stream
  after_stream-returns turn messages r h =
      let asked = messages ++ assistant r.text r.calls ∷ [] in
      let done = run_calls p tools asked r.calls in
      elim (Option-cases (stream_error p r)) [
        | inr (e, failed) ↦ absurd (ground (arith, failed))
        | inl fine ↦ elim (Option-cases done.failure) [
          | inr (e, failed) ↦ absurd (ground (arith, fine, failed))
          | inl all_done ↦
              let (none_called, stopped) =
                turn_end-returns r.calls r.finish_reason done.messages
                  (ground (arith, fine, all_done)) in
              (stopped, ground (arith, fine, none_called, no_calls-actions asked))
        ]
      ]

  run_turn-EndsPlainly :
      (turn : ℕ) (before : List ModelMessage)
      → (run_turn p tools turn before).end ≡ returns
      → EndsPlainly (run_turn p tools turn before).actions
  unfolding run_turn EndsPlainly
  run_turn-EndsPlainly turn before h =
      let messages = before ++ p.take_steering turn in
      let stream = p.stream_turn messages in
      let read = read_stream p turn stream.events stream.failure in
      let after : (after_stream p tools turn messages read).end ≡ returns = ground arith in
      let (_, same) = after_stream-returns turn messages read after in
      (ask messages ∷ read.actions, read.text, turn, ground (arith, same))

  after_turn-EndsPlainly :
      (actions : List Action) (end : TurnEnd) (next : List ModelMessage → AgentDone)
      → (end ≡ returns → EndsPlainly actions)
      → ((later : List ModelMessage) → (next later).error ≡ none → EndsPlainly (next later).actions)
      → (after_turn actions end next).error ≡ none
      → EndsPlainly (after_turn actions end next).actions
  unfolding after_turn EndsPlainly
  after_turn-EndsPlainly actions returns next h k fine = h refl
  after_turn-EndsPlainly actions (throws e) next h k fine = cc
  after_turn-EndsPlainly actions (continues later) next h k fine =
      let (before, text, turn, same) = k later fine in
      (
        actions ++ before,
        text,
        turn,
        ap (λ xs. actions ++ xs) same
            ∙ sym (append_assoc actions before (message_completed text [] turn ∷ [])),
      )

  run_turns-EndsPlainly :
      (left turn : ℕ) (messages : List ModelMessage)
      → (run_turns p tools left turn messages).error ≡ none
      → EndsPlainly (run_turns p tools left turn messages).actions
  unfolding run_turns
  run_turns-EndsPlainly zero turn messages h = cc
  run_turns-EndsPlainly (suc left) turn messages h =
      let t = run_turn p tools turn messages in
      after_turn-EndsPlainly t.actions t.end (run_turns p tools left (suc turn))
        (run_turn-EndsPlainly turn messages) (run_turns-EndsPlainly left (suc turn)) h

-- A run that throws nothing returns directly after a message of the model without calls.
pub run-EndsPlainly :
    (p : AgentRun) (turn_limit : ℕ)
    → (run p turn_limit).error ≡ none
    → EndsPlainly (run p turn_limit).actions
unfolding run
run-EndsPlainly p turn_limit h =
    elim (Result-cases (compile_validators p [] (advertised_tools p))) [
      | inl (e, failed) ↦ absurd (ground (arith, failed))
      | inr (validators, done) ↦
          rw (run, done)
            (run_turns-EndsPlainly p validators turn_limit 0 (initial_messages p)
              (ground (arith, done)))
    ]

-- A run asks the model at most as often as its limit of turns says.
pub run_bounded : (p : AgentRun) (turn_limit : ℕ) → asks (run p turn_limit).actions ≤ turn_limit
unfolding run
run_bounded p turn_limit = elim (Result-cases (compile_validators p [] (advertised_tools p))) [
  | inl (e, failed) ↦ ground (arith, failed)
  | inr (validators, done) ↦
      ground (arith, done, asks-run_turns p validators turn_limit 0 (initial_messages p))
]
