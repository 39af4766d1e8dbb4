-- ===== src/Service/Transition.antt =====
-- Transitions of a run: packages/control-plane/src/index.ts (`#transition`, `#transitionIfActive`,
-- `#timeoutQueuedRun`) and packages/storage-sqlite/src/index.ts (`getLastEvent`).
pub mod Log
pub mod Parent
pub mod Refinement
pub mod Statuses
use lite_harness.Common.{
  ℕ, String, Bool, true, false, Option, some, none, List, [], ◌∷◌, Result, ok, err, if◌then◌else◌,
  ◌>>=◌, not, ltb, keep,
}
use lite_harness.Run.Status.{
  RunStatus, is_terminal_run_status, assert_run_transition, status_name, timed_out, queued,
  is_status,
}
use lite_harness.Store.Json.{Fields, no_fields, field, text, boolean, get_field, text_field}
use lite_harness.Store.Rows.{
  RunRow, RunEvent, RunEventType, agent_message_completed, subagent_completed, run_timed_out,
}
use lite_harness.Store.Tables.{Store, StoreError, get_row, events_of}
use lite_harness.Store.Events.{append_event, AppendRunEvent}
use lite_harness.Service.State.{
  Service, ServiceError, run_missing, store_error, lift_store, lift_transition, notify,
}

abbrev later_event : Option RunEvent → RunEvent → Option RunEvent
later_event none e = some e
later_event (some best) e = if ltb best.sequence e.sequence then some e else some best

latest_from : Option RunEvent → List RunEvent → Option RunEvent
latest_from best [] = best
latest_from best (e ∷ es) = latest_from (later_event best e) es

abbrev is_message_completed : RunEventType → Bool
is_message_completed agent_message_completed = true
is_message_completed _ = false

-- `getLastEvent(runId, "agent.message.completed")`: the row with the greatest sequence number.
pub last_message : Store → String → Option RunEvent
unfolding latest_from
last_message s run_id =
    latest_from none (keep (λ e. is_message_completed e.type) (events_of run_id s.events))

-- `{ status, ...payload }`
abbrev pub with_status : RunStatus → Fields → Fields
with_status status payload = elim (get_field "status" payload) [
  | none ↦ field "status" (text (status_name status)) payload
  | some _ ↦ payload
]

-- `...(typeof value === "string" ? { key: value } : {})`
abbrev optional_text : String → Option String → Fields
optional_text key none = no_fields
optional_text key (some s) = field key (text s) no_fields

abbrev concat_fields : Fields → Fields → Fields
concat_fields no_fields more = more
concat_fields (field k v fs) more = field k v (concat_fields fs more)

abbrev content_of : Option RunEvent → Option String
content_of none = none
content_of (some e) = text_field "content" e.payload

unfoldable pub transition_event : String → RunStatus → RunEventType → Fields → AppendRunEvent
transition_event run_id status type payload = record {
  run_id = run_id;
  type = type;
  payload = with_status status payload;
  status = some status;
  error_code = text_field "code" payload;
  error_message = text_field "message" payload;
  usage = none;
}

-- What the parent of a run is told when the run ends.
unfoldable pub child_summary : Store → String → String → RunStatus → Fields → AppendRunEvent
child_summary s parent_id run_id status payload = record {
  run_id = parent_id;
  type = subagent_completed;
  payload = field "childRunId" (text run_id) (
      field "status" (text (status_name status)) (
        concat_fields (optional_text "summary" (content_of (last_message s run_id)))
          (optional_text "errorCode" (text_field "code" payload))));
  status = none;
  error_code = none;
  error_message = none;
  usage = none;
}

-- The `catch`: the failed summary is dropped if the parent is terminal.
unfoldable pub drop_summary : Service → String → StoreError → Result ServiceError Service
drop_summary s parent_id e = elim (get_row s.store parent_id) [
  | none ↦ err (store_error e)
  | some parent ↦ if is_terminal_run_status parent.status then ok s else err (store_error e)
]

unfoldable pub tell_parent_with :
    Service → String → Result StoreError (Store × RunEvent) → Result ServiceError Service
unfolding drop_summary
tell_parent_with s parent_id (err e) = drop_summary s parent_id e
tell_parent_with s parent_id (ok (t, _)) = ok (notify parent_id (record s { store = t }))

unfoldable pub tell_parent :
    ℕ → Service → String → String → RunStatus → Fields → Result ServiceError Service
unfolding tell_parent_with
tell_parent now s parent_id run_id status payload =
    tell_parent_with s parent_id
      (append_event now s.store (child_summary s.store parent_id run_id status payload))

-- The parent of the run, if the status that it enters is terminal.
abbrev pub parent_to_tell : RunStatus → RunRow → Option String
parent_to_tell status run = if is_terminal_run_status status then run.parent_run_id else none

unfoldable pub after_transition :
    ℕ → Service → String → RunStatus → Fields → Option String → Result ServiceError Service
after_transition now s run_id status payload none = ok s
after_transition now s run_id status payload (some parent_id) =
    tell_parent now s parent_id run_id status payload

unfoldable pub transition_run :
    ℕ → Service → String → RunStatus → RunEventType → Fields → RunRow → Result ServiceError Service
unfolding after_transition
transition_run now s run_id status type payload run = do
  _ ← lift_transition (assert_run_transition run.status status)
  (t, _) ← lift_store (append_event now s.store (transition_event run_id status type payload))
  after_transition now (notify run_id (record s { store = t })) run_id status payload
      (parent_to_tell status run)

unfoldable pub transition :
    ℕ → Service → String → RunStatus → RunEventType → Fields → Result ServiceError Service
unfolding transition_run
transition now s run_id status type payload = elim (get_row s.store run_id) [
  | none ↦ err (run_missing run_id)
  | some run ↦ transition_run now s run_id status type payload run
]

-- Whether the run was there and live, with the service after the transition.
pub transition_if_active :
    ℕ → Service → String → RunStatus → RunEventType → Fields → Result ServiceError (Service × Bool)
transition_if_active now s run_id status type payload = elim (get_row s.store run_id) [
  | none ↦ ok (s, false)
  | some run ↦
      if is_terminal_run_status run.status
      then ok (s, false)
      else transition now s run_id status type payload >>= λ t. ok (t, true)
]

-- The payload names the code; its message holds the timeout in digits.
pub timeout_queued_run : ℕ → Service → String → String → Result ServiceError Service
timeout_queued_run now s run_id message = elim (get_row s.store run_id) [
  | none ↦ ok s
  | some run ↦
      if not (is_status run.status queued)
      then ok s
      else transition now s run_id timed_out run_timed_out (
          field "code" (text "run_timeout") (
            field "message" (text message)
              (field "retryable" (boolean true) (field "phase" (text "queue") no_fields))))
]
