-- ===== src/Store/Events.antt =====
-- The event log: packages/storage-sqlite/src/index.ts (`appendEvent`,
-- `#appendEventWithinTransaction`, `getRun`, `listEvents`, `getLastEvent`, `listNonTerminalRuns`,
-- `recordUsage`) and packages/domain/src/index.ts (`AppendRunEvent`). The clock is an argument.
pub mod Append
pub mod Finality
pub mod Log
use lite_harness.Common.{
  ℕ, ◌+◌, String, Bool, true, false, ◌&&◌, not, Option, some, none, List, [], ◌∷◌, ◌++◌, ok, err,
  any, eqb, throw_if, ◌>>◌, if◌then◌else◌, update_by, update_where, ◌==◌,
}
use mathlib.Core.Option
use lite_harness.Run.Status.{RunStatus, running, is_status, is_terminal_run_status, status_name}
use lite_harness.Run.Record.{RunRecord, or_else}
use lite_harness.Store.Json.{Fields, text_field}
use lite_harness.Store.Rows.{
  RunRow, RunEvent, RunEventType, subagent_completed, AttemptRow, to_run_record,
}
use lite_harness.Store.Tables.{
  Store, run_not_found, invalid_detached_summary, run_is_terminal, constraint_violated, Transaction,
  run_id_of, get_row,
}

-- `Partial<RunUsage>`; a `null` counts as absent.
pub record UsageDelta : Type 0 where
  pub input_tokens : Option ℕ
  pub output_tokens : Option ℕ
  pub cost_usd : Option ℕ
  pub tool_calls : Option ℕ

abbrev pub no_usage : UsageDelta
no_usage = record { input_tokens = none; output_tokens = none; cost_usd = none; tool_calls = none }

pub record AppendRunEvent : Type 0 where
  pub run_id : String
  pub type : RunEventType
  pub payload : Fields
  pub status : Option RunStatus
  pub error_code : Option String
  pub error_message : Option String
  pub usage : Option UsageDelta

abbrev pub absent {ℓ} : {A : Type ℓ} → Option A → Bool
absent none = true
absent (some _) = false

-- `COALESCE(?, column)`
abbrev pub coalesce {ℓ} : {A : Type ℓ} → Option A → Option A → Option A
coalesce none column = column
coalesce (some a) column = some a

abbrev pub is_subagent_completed : RunEventType → Bool
is_subagent_completed subagent_completed = true
is_subagent_completed _ = false

-- `child?.parent_run_id === params.runId && isTerminalRunStatus(child.status) &&
-- payload.status === child.status`
abbrev summary_of_child : String → Fields → Option RunRow → Bool
summary_of_child run_id payload none = false
summary_of_child run_id payload (some child) =
    or_else (Option.map (λ p. p == run_id) child.parent_run_id) false
    && is_terminal_run_status child.status
    && or_else (Option.map (λ s. s == status_name child.status) (text_field "status" payload)) false

-- The row of the run that `payload.childRunId` names.
abbrev child_of : Store → Fields → Option RunRow
child_of s payload = elim (text_field "childRunId" payload) [
  | none ↦ none
  | some id ↦ if id == "" then none else get_row s id
]

unfoldable pub detached_subagent_summary : Store → AppendRunEvent → Bool
detached_subagent_summary s params =
    is_subagent_completed params.type
    && absent params.status
    && absent params.error_code
    && absent params.error_message
    && absent params.usage
    && summary_of_child params.run_id params.payload (child_of s params.payload)

-- `CASE WHEN ? IS NULL THEN usage ELSE usage + ? END`, and its flag.
abbrev add_usage : ℕ → Option ℕ → ℕ
add_usage column none = column
add_usage column (some n) = column + n

abbrev pub apply_usage : UsageDelta → RunRow → RunRow
apply_usage delta row = record row {
  usage_input_tokens = add_usage row.usage_input_tokens delta.input_tokens;
  usage_input_tokens_reported =
      if absent delta.input_tokens then row.usage_input_tokens_reported else true;
  usage_output_tokens = add_usage row.usage_output_tokens delta.output_tokens;
  usage_output_tokens_reported =
      if absent delta.output_tokens then row.usage_output_tokens_reported else true;
  usage_cost_usd = add_usage row.usage_cost_usd delta.cost_usd;
  usage_cost_reported = if absent delta.cost_usd then row.usage_cost_reported else true;
  usage_tool_calls = row.usage_tool_calls + or_else delta.tool_calls 0;
}

-- The `UPDATE runs` of an appended event.
unfoldable pub apply_event : ℕ → ℕ → AppendRunEvent → RunRow → RunRow
apply_event now sequence params row = record (apply_usage (or_else params.usage no_usage) row) {
  status = or_else params.status row.status;
  last_sequence = sequence;
  error_code = coalesce params.error_code row.error_code;
  error_message = coalesce params.error_message row.error_message;
  updated_at = now;
}

-- `UPDATE run_attempts SET status, ended_at WHERE run_id = ? AND status = 'RUNNING'`
unfoldable pub complete_running_attempts :
    ℕ → String → RunStatus → List AttemptRow → List AttemptRow
complete_running_attempts now run_id status attempts =
    update_where (λ a. a.run_id == run_id && is_status a.status running)
      (λ a. record a { status = status; ended_at = some now }) attempts

unfoldable pub attempts_after : ℕ → AppendRunEvent → List AttemptRow → List AttemptRow
attempts_after now params attempts = elim params.status [
  | none ↦ attempts
  | some status ↦
      if is_terminal_run_status status
      then complete_running_attempts now params.run_id status attempts
      else attempts
]

unfoldable pub event_at : ℕ → ℕ → AppendRunEvent → RunEvent
event_at now sequence params = record {
  run_id = params.run_id;
  sequence = sequence;
  type = params.type;
  payload = params.payload;
  created_at = now;
}

-- The rows after the writes.
unfoldable pub after_event : ℕ → Store → AppendRunEvent → ℕ → Store
unfolding event_at attempts_after
after_event now s params sequence = record s {
  events = s.events ++ event_at now sequence params ∷ [];
  runs = update_by run_id_of params.run_id (apply_event now sequence params) s.runs;
  attempts = attempts_after now params s.attempts;
}

-- The primary key of `run_events` is (run_id, sequence).
unfoldable pub write_event : ℕ → Store → AppendRunEvent → ℕ → Transaction RunEvent
unfolding after_event
write_event now s params sequence =
    if any (λ e. e.run_id == params.run_id && eqb e.sequence sequence) s.events
    then err constraint_violated
    else ok (after_event now s params sequence, event_at now sequence params)

unfoldable pub append_to_run : ℕ → Store → AppendRunEvent → RunRow → Transaction RunEvent
append_to_run now s params row = do
  throw_if (is_subagent_completed params.type && not (detached_subagent_summary s params))
      (invalid_detached_summary params.run_id)
  throw_if (is_terminal_run_status row.status && not (detached_subagent_summary s params))
      (run_is_terminal params.run_id)
  write_event now s params (row.last_sequence + 1)

unfoldable pub append_event : ℕ → Store → AppendRunEvent → Transaction RunEvent
unfolding append_to_run
append_event now s params = elim (get_row s params.run_id) [
  | none ↦ err (run_not_found params.run_id)
  | some row ↦ append_to_run now s params row
]

unfoldable pub get_run : Store → String → Option RunRecord
get_run s id = Option.map to_run_record (get_row s id)
