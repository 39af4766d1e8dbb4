-- ===== src/Agent/Tools/Guards.antt =====
-- What precedes the execution of a call.
use lite_harness.Common.{
  ◌≡◌, Bool, true, false, ◌&&◌, Option, some, none, List, [], ◌∷◌, ◌++◌, Result, ok, err, arith,
  refl, ◌==◌, eq_refl, find_by, any, Result-cases, Option-cases, inl, inr,
}
use lite_harness.Store.Events.{absent}
use lite_harness.Routing.Models.{ToolCall}
use lite_harness.Agent.Model.{
  ModelMessage, tool, ToolDefinition, ToolResult, AgentError, Action, ask, message_delta,
  usage_updated, message_completed, call_requested, execute, call_completed, artifact_created,
  AgentRun,
}
use lite_harness.Agent.Tools.{
  tool_name, validate_arguments, is_command_timeout, after_execution, run_call, run_calls,
  artifact_created_payload,
}

-- Whether the call names one of the tools, with arguments that the tool's schema accepts.
abbrev pub accepts_call : AgentRun → List ToolDefinition → ToolCall → Bool
accepts_call p tools call = any (λ d. d.name == call.name && p.accepts d call.arguments) tools

-- Whether the call may be executed after these messages.
abbrev pub may_execute : AgentRun → List ToolDefinition → List ModelMessage → ToolCall → Bool
may_execute p tools messages call =
    accepts_call p tools call
    && absent (p.before_tool_call messages call)
    && is_command_timeout p.command_timeout_ms

abbrev pub is_request_of : Option ToolCall → ToolCall → Bool
is_request_of none call = false
is_request_of (some requested) call = requested.id == call.id

-- Each call that is executed may be executed, and its request is the action directly before; the
-- action before the list is `requested` if that is a request.
abbrev pub is_guarded : AgentRun → List ToolDefinition → Option ToolCall → List Action → Bool
is_guarded p tools requested [] = true
is_guarded p tools requested (execute messages call ∷ xs) =
    is_request_of requested call && may_execute p tools messages call && is_guarded p tools none xs
is_guarded p tools requested (call_requested call ∷ xs) = is_guarded p tools (some call) xs
is_guarded p tools requested (_ ∷ xs) = is_guarded p tools none xs

module _ (p : AgentRun) (tools : List ToolDefinition) where
  is_guarded_after :
      (requested : Option ToolCall) (xs : List Action)
      → is_guarded p tools none xs ≡ true
      → is_guarded p tools requested xs ≡ true
  is_guarded_after requested [] h = refl
  is_guarded_after requested (execute messages call ∷ xs) h = cc
  is_guarded_after requested (call_requested call ∷ xs) h = h
  is_guarded_after requested (ask messages ∷ xs) h = h
  is_guarded_after requested (message_delta s n ∷ xs) h = h
  is_guarded_after requested (usage_updated u ∷ xs) h = h
  is_guarded_after requested (message_completed s cs n ∷ xs) h = h
  is_guarded_after requested (call_completed r ∷ xs) h = h
  is_guarded_after requested (artifact_created a ∷ xs) h = h

  pub is_guarded-append :
      (requested : Option ToolCall) (xs ys : List Action)
      → is_guarded p tools requested xs ≡ true
      → is_guarded p tools none ys ≡ true
      → is_guarded p tools requested (xs ++ ys) ≡ true
  is_guarded-append requested [] ys h k = is_guarded_after requested ys k
  is_guarded-append requested (execute messages call ∷ xs) ys h k =
      ground (arith, is_guarded-append none xs ys)
  is_guarded-append requested (call_requested call ∷ xs) ys h k =
      is_guarded-append (some call) xs ys h k
  is_guarded-append requested (ask messages ∷ xs) ys h k = is_guarded-append none xs ys h k
  is_guarded-append requested (message_delta s n ∷ xs) ys h k = is_guarded-append none xs ys h k
  is_guarded-append requested (usage_updated u ∷ xs) ys h k = is_guarded-append none xs ys h k
  is_guarded-append requested (message_completed s cs n ∷ xs) ys h k =
      is_guarded-append none xs ys h k
  is_guarded-append requested (call_completed r ∷ xs) ys h k = is_guarded-append none xs ys h k
  is_guarded-append requested (artifact_created a ∷ xs) ys h k = is_guarded-append none xs ys h k

  found_accepts :
      (ds : List ToolDefinition) (call : ToolCall) (d : ToolDefinition)
      → find_by tool_name call.name ds ≡ some d
      → p.accepts d call.arguments ≡ true
      → accepts_call p ds call ≡ true
  found_accepts [] call d h k = cc
  found_accepts (e ∷ ds) call d h k = ground (arith, found_accepts ds call d)

  validate_arguments-accepts :
      (call : ToolCall) → validate_arguments p tools call ≡ ok tt → accepts_call p tools call ≡ true
  unfolding validate_arguments
  validate_arguments-accepts call h = elim (Option-cases (find_by tool_name call.name tools)) [
    | inl missing ↦ absurd (ground (arith, missing))
    | inr (d, found) ↦ found_accepts tools call d found (ground (arith, found))
  ]

  after_execution-is_guarded :
      (messages : List ModelMessage) (call : ToolCall) (r : Result AgentError ToolResult)
      → may_execute p tools messages call ≡ true
      → is_guarded p tools none (after_execution p messages call r).actions ≡ true
  unfolding after_execution
  after_execution-is_guarded messages call (err e) may = ground (arith, eq_refl call.id)
  after_execution-is_guarded messages call (ok r) may =
      elim (Result-cases (artifact_created_payload p call r)) [
        | inl (e, h) ↦ ground (arith, h, eq_refl call.id)
        | inr (none, h) ↦ ground (arith, h, eq_refl call.id)
        | inr (some a, h) ↦ ground (arith, h, eq_refl call.id)
      ]

  run_call-is_guarded :
      (messages : List ModelMessage) (call : ToolCall)
      → is_guarded p tools none (run_call p tools messages call).actions ≡ true
  unfolding run_call
  run_call-is_guarded messages call = ground (
    arith,
    validate_arguments-accepts call,
    after_execution-is_guarded messages call (p.execute_tool messages call),
  )

  pub run_calls-is_guarded :
      (calls : List ToolCall) (messages : List ModelMessage)
      → is_guarded p tools none (run_calls p tools messages calls).actions ≡ true
  unfolding run_calls
  run_calls-is_guarded [] messages = refl
  run_calls-is_guarded (call ∷ calls) messages =
      let c = run_call p tools messages call in
      elim (Result-cases c.result) [
        | inl (e, h) ↦ ground (arith, h, run_call-is_guarded messages call)
        | inr (r, h) ↦
            let rest = run_calls p tools (messages ++ tool r.content r.call_id ∷ []) calls in
            let done : is_guarded p tools none (c.actions ++ rest.actions) ≡ true =
              is_guarded-append none c.actions rest.actions (run_call-is_guarded messages call)
                (run_calls-is_guarded calls (messages ++ tool r.content r.call_id ∷ [])) in
            ground (arith, h, done)
      ]
