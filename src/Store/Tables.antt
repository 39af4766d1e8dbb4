-- ===== src/Store/Tables.antt =====
-- The database of the run store, and the errors that its operations throw.
use lite_harness.Common.{String, List, Option, Result, find_by, keep, ◌==◌}
use lite_harness.Store.Rows.{RunRow, RunEvent, AttemptRow, LeaseRow, ApprovalRecord}

pub record Store : Type 0 where
  pub runs : List RunRow
  pub events : List RunEvent
  pub attempts : List AttemptRow
  pub leases : List LeaseRow
  pub approvals : List ApprovalRecord

pub data StoreError : Type 0 where
  run_not_found : String → StoreError
  invalid_detached_summary : String → StoreError
  run_is_terminal : String → StoreError
  constraint_violated : StoreError
  lease_not_of_run : StoreError
  attempt_not_found : String → StoreError

-- An operation that fails rolls its transaction back: the caller keeps the store that it had.
abbrev pub Transaction : Type 0 → Type 0
Transaction A = Result StoreError (Store × A)

abbrev pub run_id_of : RunRow → String
run_id_of r = r.id

-- `SELECT * FROM runs WHERE id = ?`
abbrev pub get_row : Store → String → Option RunRow
get_row s id = find_by run_id_of id s.runs

-- `SELECT * FROM run_events WHERE run_id = ?`
abbrev pub events_of : String → List RunEvent → List RunEvent
events_of id = keep (λ e. e.run_id == id)
