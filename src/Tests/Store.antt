-- ===== src/Tests/Store.antt =====
-- The theorems on the store at the small database.
use lite_harness.Common.{◌≡◌, refl, some, ok, String, eq_iff, Bool-cases, ◌==◌, inl, subst, inr}
use lite_harness.Run.Status.{succeeded, is_terminal_run_status, status_name}
use lite_harness.Store.Rows.{RunRow, agent_message_delta}
use lite_harness.Store.Json.{no_fields}
use lite_harness.Store.Tables.{get_row}
use lite_harness.Store.Events.{
  append_event, AppendRunEvent, event_at, after_event, detached_subagent_summary, write_event,
  append_to_run, attempts_after, apply_event,
}
use lite_harness.Store.Events.Log.{IsLog, append_event-IsLog, sequences, up_to, last_sequence}
use lite_harness.Store.Events.Finality.{IsFrozen, append_event-IsFrozen}
use lite_harness.Tests.Data.{store, summary, append, row}

IsLogOf : String → Type 0
IsLogOf id = sequences id store.events ≡ up_to (last_sequence (get_row store id))

pub store-IsLog : IsLog store
unfolding IsLogOf
store-IsLog id = elim (Bool-cases ("run_1" == id)) [
  | inl a ↦ subst IsLogOf ((eq_iff "run_1" id).0 a) refl
  | inr a ↦ elim (Bool-cases ("run_2" == id)) [
    | inl b ↦ subst IsLogOf ((eq_iff "run_2" id).0 b) refl
    | inr b ↦ elim (Bool-cases ("run_3" == id)) [
      | inl c ↦ subst IsLogOf ((eq_iff "run_3" id).0 c) refl
      | inr c ↦ rw (a, b, c)
    ]
  ]
]

unfoldable pub store_code : Unit {0}
unfolding append_event detached_subagent_summary is_terminal_run_status status_name write_event
    append_to_run after_event event_at attempts_after apply_event
store_code = tt

after_summary :
    append_event 7 store summary ≡ ok (after_event 7 store summary 3, event_at 7 3 summary)
unfolding store_code
after_summary = refl

append_event-IsLog_example : IsLog (after_event 7 store summary 3)
append_event-IsLog_example =
    append_event-IsLog 7 store summary (after_event 7 store summary 3) (event_at 7 3 summary)
      store-IsLog after_summary

abbrev run_3 : RunRow
run_3 = row "run_3" (some "run_1") succeeded 1

append_event-IsFrozen_example :
    (after : RunRow) × (get_row (after_event 7 store summary 3) "run_3" ≡ some after)
    × IsFrozen run_3 after
unfolding is_terminal_run_status
append_event-IsFrozen_example =
    append_event-IsFrozen 7 store summary (after_event 7 store summary 3) (event_at 7 3 summary)
      "run_3" run_3 refl refl after_summary

abbrev delta : AppendRunEvent
delta = append "run_1" agent_message_delta no_fields
