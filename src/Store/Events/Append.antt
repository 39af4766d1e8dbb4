-- ===== src/Store/Events/Append.antt =====
-- What one appended event changes: the outcome of `append_event` on each of its branches.
use lite_harness.Common.{
  ℕ, ◌+◌, ◌≡◌, arith, some, ok, ◌++◌, ◌∷◌, [], update_by, true, false, ◌⊎◌, Option-cases, inl, inr,
}
use lite_harness.Store.Tables.{Store, get_row, run_id_of}
use lite_harness.Store.Rows.{RunRow, RunEvent}
use lite_harness.Store.Events.{
  AppendRunEvent, append_to_run, write_event, event_at, attempts_after, is_subagent_completed,
  detached_subagent_summary, apply_event, append_event,
}
use lite_harness.Run.Status.{is_terminal_run_status}

-- What is known of a store `t` and an event `e` that an append returns.
pub record Appended (now : ℕ) (s : Store) (params : AppendRunEvent) (t : Store) (e : RunEvent)
    : Type 0 where
  pub row : RunRow
  pub found : get_row s params.run_id ≡ some row
  pub event : e ≡ event_at now (row.last_sequence + 1) params
  pub events : t.events ≡ s.events ++ e ∷ []
  pub runs :
      t.runs
      ≡ update_by run_id_of params.run_id (apply_event now (row.last_sequence + 1) params) s.runs
  pub attempts : t.attempts ≡ attempts_after now params s.attempts
  pub leases : t.leases ≡ s.leases
  pub approvals : t.approvals ≡ s.approvals
  pub summary : is_subagent_completed params.type ≡ true → detached_subagent_summary s params ≡ true
  pub open_run :
      (is_terminal_run_status row.status ≡ false) ⊎ (detached_subagent_summary s params ≡ true)

write_event-Appended :
    (now : ℕ) (s : Store) (params : AppendRunEvent) (row : RunRow) (t : Store) (e : RunEvent)
    → get_row s params.run_id ≡ some row
    → append_to_run now s params row ≡ ok (t, e)
    → Appended now s params t e
unfolding append_to_run write_event
write_event-Appended now s params row t e found h = record {
  row = row;
  found = found;
  event = ground arith;
  events = ground arith;
  runs = ground arith;
  attempts = ground arith;
  leases = ground arith;
  approvals = ground arith;
  summary = ground arith;
  open_run = ground arith;
}

-- An append that returns found the run, gave the event the next number, and changed no more than
-- the log, the row of the run and the attempts of the run.
pub append_event-Appended :
    (now : ℕ) (s : Store) (params : AppendRunEvent) (t : Store) (e : RunEvent)
    → append_event now s params ≡ ok (t, e)
    → Appended now s params t e
unfolding append_event
append_event-Appended now s params t e h = elim (Option-cases (get_row s params.run_id)) [
  | inl missing ↦ ground (arith, missing)
  | inr (row, found) ↦
      write_event-Appended now s params row t e found (rw (found, append_event) at h)
]
