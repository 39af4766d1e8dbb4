-- ===== src/Service/Recovery.antt =====
-- The runs that a stop of the manager left behind: packages/control-plane/src/index.ts
-- (`reconcileInterruptedRuns`) and packages/storage-sqlite/src/index.ts (`listNonTerminalRuns`, whose
-- order among runs of one time is left open there, and `completeRunningAttempts`).
pub mod Completion
use lite_harness.Common.{
  ℕ, String, Bool, not, Option, some, none, List, [], ◌∷◌, Result, ok, err, ◌>>=◌, keep, true,
}
use lite_harness.Run.Status.{is_terminal_run_status, status_name, orphaned}
use lite_harness.Store.Json.{field, text, boolean, no_fields}
use lite_harness.Store.Rows.{RunRow, run_orphaned}
use lite_harness.Store.Tables.{Store}
use lite_harness.Store.Events.{AppendRunEvent, append_event, complete_running_attempts}
use lite_harness.Service.State.{Service, ServiceError, lift_store, notify}
use lite_harness.Service.Cancel.{sort_runs}

abbrev pub is_live : RunRow → Bool
is_live row = not (is_terminal_run_status row.status)

unfoldable pub list_non_terminal_runs : Store → List RunRow
list_non_terminal_runs s = sort_runs (keep is_live s.runs)

abbrev pub interrupted_event : RunRow → AppendRunEvent
interrupted_event run = record {
  run_id = run.id;
  type = run_orphaned;
  payload = field "status" (text "ORPHANED") (
      field "retryable" (boolean true)
        (field "previousStatus" (text (status_name run.status)) no_fields));
  status = some orphaned;
  error_code = some "manager_restarted";
  error_message =
      some "Manager restarted while the run was nonterminal; retry with a new idempotency key.";
  usage = none;
}

-- The store after `completeRunningAttempts(run.id, "ORPHANED")`.
abbrev pub with_ended_attempts : ℕ → String → Store → Store
with_ended_attempts now run_id s = record s {
  attempts = complete_running_attempts now run_id orphaned s.attempts;
}

unfoldable pub reconcile_run : ℕ → Service → RunRow → Result ServiceError Service
reconcile_run now s run = do
  (t, _) ←
      lift_store (append_event now (with_ended_attempts now run.id s.store) (interrupted_event run))
  ok (notify run.id (record s { store = t }))

unfoldable pub reconcile_each : ℕ → Service → List RunRow → Result ServiceError Service
reconcile_each now s [] = ok s
reconcile_each now s (run ∷ runs) = do t ← reconcile_run now s run; reconcile_each now t runs

-- `reconcileInterruptedRuns`; it also returns how many runs the list has.
unfoldable pub reconcile_interrupted_runs : ℕ → Service → Result ServiceError Service
reconcile_interrupted_runs now s = reconcile_each now s (list_non_terminal_runs s.store)
