-- ===== src/Store/Events/Finality.antt =====
-- A terminal run is final, and a live run takes every event.
use lite_harness.Common.{
  ℕ, ◌+◌, ◌≡◌, refl, String, true, false, some, arith, ok, err, ◌==◌, eq_iff, inl, inr, Bool-cases,
}
use lite_harness.Run.Status.{is_terminal_run_status}
use lite_harness.Store.Tables.{Store, get_row, run_is_terminal}
use lite_harness.Store.Rows.{RunRow, RunEvent}
use lite_harness.Store.Events.{
  AppendRunEvent, append_event, append_to_run, write_event, event_at, apply_event, after_event,
  is_subagent_completed, detached_subagent_summary,
}
use lite_harness.Store.Events.Append.{append_event-Appended}
use lite_harness.Store.Events.Log.{IsLog, get_row-append, next_is_free}

-- The row `after` is the row `before` but for its last sequence number and its time of change.
abbrev pub IsFrozen : RunRow → RunRow → Type 0
IsFrozen before after =
    record after { last_sequence = before.last_sequence; updated_at = before.updated_at } ≡ before

summary-IsFrozen :
    (now n : ℕ) (s : Store) (params : AppendRunEvent) (row : RunRow)
    → detached_subagent_summary s params ≡ true
    → IsFrozen row (apply_event now n params row)
unfolding detached_subagent_summary apply_event
summary-IsFrozen now n s params row h = ground arith

-- An append that returns leaves a terminal run with its status, its usage, its errors and all else
-- but its last sequence number and time of change.
pub append_event-IsFrozen :
    (now : ℕ) (s : Store) (params : AppendRunEvent) (t : Store) (e : RunEvent) (id : String)
    (row : RunRow)
    → get_row s id ≡ some row
    → is_terminal_run_status row.status ≡ true
    → append_event now s params ≡ ok (t, e)
    → (after : RunRow) × (get_row t id ≡ some after) × IsFrozen row after
append_event-IsFrozen now s params t e id row found final h =
    let a = append_event-Appended now s params t e h in
    elim (Bool-cases (params.run_id == id)) [
      | inl same ↦
          let n = a.row.last_sequence + 1 in
          let same_row : a.row ≡ row = ground (arith, a.found, eq_iff params.run_id id) in
          (
            apply_event now n params row,
            ground (arith, get_row-append now s params t e a id),
            summary-IsFrozen now n s params row (ground (arith, a.open_run, same_row)),
          )
      | inr other ↦ (row, ground (arith, get_row-append now s params t e a id), refl)
    ]

-- In gapless logs, a run that is there and not terminal takes every event but a subagent summary:
-- the append writes the event under the next number and returns it.
pub append_event_total :
    (now : ℕ) (s : Store) (params : AppendRunEvent) (row : RunRow)
    → IsLog s
    → get_row s params.run_id ≡ some row
    → is_terminal_run_status row.status ≡ false
    → is_subagent_completed params.type ≡ false
    → append_event now s params
      ≡ ok (
        after_event now s params (row.last_sequence + 1),
        event_at now (row.last_sequence + 1) params,
      )
unfolding append_event append_to_run write_event
append_event_total now s params row log found live plain =
    ground (arith, next_is_free s params.run_id row log found)

-- A terminal run refuses every event that is no subagent summary, with the error that the run is
-- terminal.
pub append_event_refused :
    (now : ℕ) (s : Store) (params : AppendRunEvent) (row : RunRow)
    → get_row s params.run_id ≡ some row
    → is_terminal_run_status row.status ≡ true
    → is_subagent_completed params.type ≡ false
    → append_event now s params ≡ err (run_is_terminal params.run_id)
unfolding append_event append_to_run detached_subagent_summary
append_event_refused now s params row found final plain = ground arith
