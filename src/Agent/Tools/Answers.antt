-- ===== src/Agent/Tools/Answers.antt =====
-- The results of the calls of a message follow it.
use lite_harness.Common.{
  ◌≡◌, String, Bool, true, false, Option, some, none, List, [], ◌∷◌, ◌++◌, map, Result, ok, err,
  arith, refl, ◌==◌, eq_refl, if◌then◌else◌, all, all-append, Result-cases, Option-cases, inl, inr,
}
use lite_harness.Routing.Models.{ToolCall}
use lite_harness.Agent.Model.{
  ModelMessage, system, user, assistant, tool, ToolDefinition, ToolResult, AgentError, Action, ask,
  AgentRun,
}
use lite_harness.Agent.Tools.{after_execution, run_call, run_calls, artifact_created_payload}

abbrev pub call_id_of : ToolCall → String
call_id_of call = call.id

-- The calls that wait for a result after a message, if they may wait for it.
abbrev pub next_pending : List String → ModelMessage → Option (List String)
next_pending [] (system s) = some []
next_pending [] (user s) = some []
next_pending [] (assistant s calls) = some (map call_id_of calls)
next_pending (id ∷ ids) (tool s answered) = if id == answered then some ids else none
next_pending _ _ = none

abbrev pub pending : List String → List ModelMessage → Option (List String)
pending ids [] = some ids
pending ids (m ∷ ms) = elim (next_pending ids m) [ none ↦ none | some next ↦ pending next ms ]

abbrev is_empty : Option (List String) → Bool
is_empty (some []) = true
is_empty _ = false

-- Each message with calls is followed by their results, in the order of the calls.
abbrev pub is_answered : List ModelMessage → Bool
is_answered ms = is_empty (pending [] ms)

abbrev pub is_answered_ask : Action → Bool
is_answered_ask (ask ms) = is_answered ms
is_answered_ask _ = true

-- Whether the action is not a question to the model.
abbrev pub is_silent : Action → Bool
is_silent (ask ms) = false
is_silent _ = true

pub is_silent-is_answered : (a : Action) → is_silent a ≡ true → is_answered_ask a ≡ true
is_silent-is_answered (ask ms) h = cc
is_silent-is_answered a h = ground arith

pub pending-append :
    (ids next : List String) (xs ys : List ModelMessage)
    → pending ids xs ≡ some next
    → pending ids (xs ++ ys) ≡ pending next ys
pending-append ids next [] ys h = ground arith
pending-append ids next (m ∷ xs) ys h = elim (Option-cases (next_pending ids m)) [
  | inl stuck ↦ absurd (ground (arith, stuck))
  | inr (others, on) ↦ ground (arith, on, pending-append others next xs ys)
]

is_empty-some : (o : Option (List String)) → is_empty o ≡ true → o ≡ some []
is_empty-some none h = cc
is_empty-some (some []) h = refl
is_empty-some (some (id ∷ ids)) h = cc

pub is_answered-pending : (ms : List ModelMessage) → is_answered ms ≡ true → pending [] ms ≡ some []
is_answered-pending ms h = is_empty-some (pending [] ms) h

module _ (p : AgentRun) where
  after_execution-silent :
      (messages : List ModelMessage) (call : ToolCall) (r : Result AgentError ToolResult)
      → all is_silent (after_execution p messages call r).actions ≡ true
  unfolding after_execution
  after_execution-silent messages call (err e) = refl
  after_execution-silent messages call (ok r) =
      elim (Result-cases (artifact_created_payload p call r)) [
        | inl (e, h) ↦ ground (arith, h)
        | inr (none, h) ↦ ground (arith, h)
        | inr (some a, h) ↦ ground (arith, h)
      ]

  after_execution-result :
      (messages : List ModelMessage) (call : ToolCall) (r : Result AgentError ToolResult)
      (s : ToolResult)
      → (after_execution p messages call r).result ≡ ok s
      → r ≡ ok s
  unfolding after_execution
  after_execution-result messages call (err e) s h = cc
  after_execution-result messages call (ok r) s h =
      elim (Result-cases (artifact_created_payload p call r)) [
        | inl (e, failed) ↦ absurd (ground (arith, failed))
        | inr (a, made) ↦ ground (arith, made)
      ]

  module _ (tools : List ToolDefinition) where
    run_call-silent :
        (messages : List ModelMessage) (call : ToolCall)
        → all is_silent (run_call p tools messages call).actions ≡ true
    unfolding run_call
    run_call-silent messages call =
        ground (arith, after_execution-silent messages call (p.execute_tool messages call))

    run_call-result :
        (messages : List ModelMessage) (call : ToolCall) (s : ToolResult)
        → (run_call p tools messages call).result ≡ ok s
        → p.execute_tool messages call ≡ ok s
    unfolding run_call
    run_call-result messages call s h =
        ground (arith, after_execution-result messages call (p.execute_tool messages call) s)

    pub run_calls-silent :
        (calls : List ToolCall) (messages : List ModelMessage)
        → all is_silent (run_calls p tools messages calls).actions ≡ true
    unfolding run_calls
    run_calls-silent [] messages = refl
    run_calls-silent (call ∷ calls) messages =
        let c = run_call p tools messages call in
        elim (Result-cases c.result) [
          | inl (e, h) ↦ ground (arith, h, run_call-silent messages call)
          | inr (r, h) ↦
              let later = messages ++ tool r.content r.call_id ∷ [] in
              ground (
                arith,
                h,
                run_call-silent messages call,
                run_calls-silent calls later,
                all-append is_silent c.actions (run_calls p tools later calls).actions,
              )
        ]

    pub run_calls-answers :
        ((messages : List ModelMessage) (call : ToolCall) (r : ToolResult)
          → p.execute_tool messages call ≡ ok r
          → r.call_id ≡ call.id)
        → (calls : List ToolCall) (messages : List ModelMessage)
        → pending [] messages ≡ some (map call_id_of calls)
        → (run_calls p tools messages calls).failure ≡ none
        → pending [] (run_calls p tools messages calls).messages ≡ some []
    unfolding run_calls
    run_calls-answers by_id [] messages waiting fine = waiting
    run_calls-answers by_id (call ∷ calls) messages waiting fine =
        let c = run_call p tools messages call in
        elim (Result-cases c.result) [
          | inl (e, h) ↦ absurd (ground (arith, h))
          | inr (r, h) ↦
              let later = messages ++ tool r.content r.call_id ∷ [] in
              let same : r.call_id ≡ call.id =
                by_id messages call r (run_call-result messages call r h) in
              let answered : pending [] later ≡ some (map call_id_of calls) = ground (
                arith,
                same,
                waiting,
                eq_refl call.id,
                pending-append [] (map call_id_of (call ∷ calls)) messages
                    (tool r.content r.call_id ∷ []),
              ) in
              let rest : pending [] (run_calls p tools later calls).messages ≡ some [] =
                run_calls-answers by_id calls later answered (ground (arith, h)) in
              ground (arith, h, rest)
        ]
