-- ===== src/Service/Children.antt =====
-- Runs of subagents: packages/control-plane/src/index.ts (`createChildRun`). The hash that names a
-- child's workspace and session is a parameter.
pub mod Authority
pub mod Spawning
use lite_harness.Service.Intake.{
  ChildRequest, CreateRunResponse, Intake, IntakeError, append_error, budget_error,
  capabilities_not_subset, child_key_reused, nesting_limit_reached, parent_unavailable,
  profile_unavailable, response_of, shutting_down, submit_error, submit_run, submitted,
  tools_not_subset,
}
use lite_harness.Common.{
  ℕ, ◌+◌, String, Bool, true, false, ◌&&◌, ◌||◌, not, Option, some, none, List, [], ◌∷◌, ◌++◌, map,
  Result, ok, err, ◌>>=◌, ◌>>◌, throw_if, if◌then◌else◌, all, includes, ltb, leb, eqb, find?, ◌==◌,
  concat_text,
}
use lite_harness.Run.Status.{RunStatus, is_terminal_run_status}
use lite_harness.Run.Record.{RunBudget, RunBudgetOverrides, RunRecord, ResourceOwner}
use lite_harness.Run.ChildBudget.{ChildBudgetError, remaining_child_budget, bounded_child_budget}
use lite_harness.Store.Json.{Fields, field, text, number, no_fields}
use lite_harness.Store.Rows.{RunRow, subagent_started, to_run_record}
use lite_harness.Store.Tables.{Store, StoreError, get_row}
use lite_harness.Store.Events.{AppendRunEvent, append_event}
use lite_harness.Store.Resources.{Database, StartRunRequest, AgentRow, find_agent}
use lite_harness.Store.Submission.{create_or_get_run}
use lite_harness.Store.Provision.{SubmitError, FreshIds}
use lite_harness.Service.Cancel.{list_child_runs}

abbrev pub is_subset : List String → List String → Bool
is_subset xs ys = all (includes ys) xs

-- Whether the child's profile may be used, by the profile of the parent if there is one.
abbrev pub check_profiles : Option AgentRow → Option AgentRow → Result IntakeError (Unit {0})
check_profiles parent none = err profile_unavailable
check_profiles none (some child) = ok tt
check_profiles (some parent) (some child) =
    if not (is_subset child.allowed_tools parent.allowed_tools)
    then err tools_not_subset
    else (if not (is_subset child.model_capabilities parent.model_capabilities)
        then err capabilities_not_subset
        else ok tt)

-- The key of a child, from its parent's id and the key of its request.
abbrev child_key : String → String → String
child_key parent_id key = concat_text "subagent:" (concat_text parent_id (concat_text ":" key))

abbrev differs : Option ℕ → ℕ → Bool
differs none n = false
differs (some m) n = not (eqb m n)

abbrev budget_differs : RunBudgetOverrides → RunBudget → Bool
budget_differs o b =
    differs o.max_turns b.max_turns
    || differs o.max_tool_calls b.max_tool_calls
    || differs o.max_input_tokens b.max_input_tokens
    || differs o.max_output_tokens b.max_output_tokens
    || differs o.max_cost_usd b.max_cost_usd
    || differs o.total_timeout_ms b.total_timeout_ms
    || differs o.model_idle_timeout_ms b.model_idle_timeout_ms
    || differs o.command_timeout_ms b.command_timeout_ms

-- A child that the parent has under the key already.
unfoldable pub replay_child :
    Intake → ChildRequest → RunRecord → Result IntakeError (Intake × CreateRunResponse)
replay_child s q child =
    if not (child.agent_id == q.agent)
      || not (child.input == q.input)
      || budget_differs q.budget child.budget
    then err child_key_reused
    else ok (s, response_of child true)

abbrev all_fields : RunBudget → RunBudgetOverrides
all_fields b = record {
  max_turns = some b.max_turns;
  max_tool_calls = some b.max_tool_calls;
  max_input_tokens = some b.max_input_tokens;
  max_output_tokens = some b.max_output_tokens;
  max_cost_usd = some b.max_cost_usd;
  total_timeout_ms = some b.total_timeout_ms;
  model_idle_timeout_ms = some b.model_idle_timeout_ms;
  command_timeout_ms = some b.command_timeout_ms;
}

-- The request for a child's run; `suffix` is the hash of its key.
abbrev pub child_run_request :
    (String → String) → RunRecord → ChildRequest → RunBudget → StartRunRequest
child_run_request suffix parent q budget = record {
  agent = q.agent;
  workspace = concat_text "wsp_sub_" (suffix (child_key parent.id q.idempotency_key));
  session = some (concat_text "ses_sub_" (suffix (child_key parent.id q.idempotency_key)));
  provider_connection_id = parent.provider_connection_id;
  input = q.input;
  budget = some (all_fields budget);
  idempotency_key = child_key parent.id q.idempotency_key;
  principal = parent.owner;
  parent_run_id = some parent.id;
  depth = some (parent.depth + 1);
  delivery_allowed = some false;
  create_if_missing = some true;
}

abbrev started_event : (String → String) → RunRecord → ChildRequest → String → AppendRunEvent
started_event suffix parent q child_id = record {
  run_id = parent.id;
  type = subagent_started;
  payload = field "childRunId" (text child_id) (
      field "agent" (text q.agent) (
        field "workspaceId"
          (text (concat_text "wsp_sub_" (suffix (child_key parent.id q.idempotency_key))))
          (field "depth" (number (parent.depth + 1)) no_fields)));
  status = none;
  error_code = none;
  error_message = none;
  usage = none;
}

-- The parent is told of a child that is new. A throw here leaves the child where it is.
unfoldable pub tell_of_child :
    (String → String)
    → ℕ
    → RunRecord
    → ChildRequest
    → Intake × CreateRunResponse
    → Result IntakeError (Intake × CreateRunResponse)
tell_of_child suffix now parent q (s, response) =
    if response.is_replay
    then ok (s, response)
    else elim (append_event now s.database.store (started_event suffix parent q response.run_id)) [
      | err e ↦ err (append_error e)
      | ok (t, _) ↦ ok (
        record s {
          database = record (s.database) { store = t };
          notified = s.notified ++ parent.id ∷ [];
        },
        response,
      )
    ]

unfoldable pub spawn_child :
    (StartRunRequest → String)
    → (String → String)
    → ℕ
    → String
    → FreshIds
    → Intake
    → ChildRequest
    → RunRecord
    → List RunRecord
    → Result IntakeError (Intake × CreateRunResponse)
spawn_child fingerprint suffix now id fresh s q parent children =
    elim (bounded_child_budget q.budget parent (remaining_child_budget parent children)) [
      | err e ↦ err (budget_error e)
      | ok budget ↦
          submit_run fingerprint now id fresh s (child_run_request suffix parent q budget)
          >>= tell_of_child suffix now parent q
    ]

abbrev pub children_of : Intake → RunRecord → List RunRecord
children_of s parent = map to_run_record (list_child_runs s.database.store parent.id)

unfoldable pub create_child_of :
    (StartRunRequest → String)
    → (String → String)
    → ℕ
    → String
    → FreshIds
    → ℕ
    → Intake
    → ChildRequest
    → RunRecord
    → Result IntakeError (Intake × CreateRunResponse)
create_child_of fingerprint suffix now id fresh max_depth s q parent = do
  throw_if (is_terminal_run_status parent.status) parent_unavailable
  throw_if (leb max_depth parent.depth) nesting_limit_reached
  check_profiles (find_agent parent.owner parent.agent_id s.database.agents)
      (find_agent parent.owner q.agent s.database.agents)
  elim (find? (λ c. c.idempotency_key == child_key parent.id q.idempotency_key)
      (children_of s parent)) [
        | some child ↦ replay_child s q child
        | none ↦ spawn_child fingerprint suffix now id fresh s q parent (children_of s parent)
      ]

-- `createChildRun`, with `maxSubagentDepth`.
unfoldable pub create_child_run :
    (StartRunRequest → String)
    → (String → String)
    → ℕ
    → String
    → FreshIds
    → ℕ
    → Intake
    → ChildRequest
    → Result IntakeError (Intake × CreateRunResponse)
create_child_run fingerprint suffix now id fresh max_depth s q =
    elim (get_row s.database.store q.parent_run_id) [
      | none ↦ err parent_unavailable
      | some row ↦ create_child_of fingerprint suffix now id fresh max_depth s q (to_run_record row)
    ]
