-- ===== src/Service/Intake.antt =====
-- The submission of runs to the service: packages/control-plane/src/index.ts (`createRun`), and the
-- errors of `createChildRun`.
use lite_harness.Common.{
  ℕ, String, Bool, true, false, not, List, [], ◌∷◌, ◌++◌, Result, ok, err, if◌then◌else◌,
}
use lite_harness.Run.Status.{RunStatus}
use lite_harness.Run.Record.{RunBudgetOverrides, RunRecord}
use lite_harness.Run.ChildBudget.{ChildBudgetError}
use lite_harness.Store.Tables.{StoreError}
use lite_harness.Store.Resources.{Database, StartRunRequest}
use lite_harness.Store.Submission.{create_or_get_run}
use lite_harness.Store.Provision.{SubmitError, FreshIds}

-- What the submission of runs reads and writes of the service.
pub record Intake : Type 0 where
  pub database : Database
  pub is_accepting : Bool
  pub notified : List String
  pub scheduled : List String

pub data IntakeError : Type 0 where
  shutting_down parent_unavailable nesting_limit_reached profile_unavailable : IntakeError
  tools_not_subset capabilities_not_subset child_key_reused : IntakeError
  submit_error : SubmitError → IntakeError
  budget_error : ChildBudgetError → IntakeError
  append_error : StoreError → IntakeError

pub record CreateRunResponse : Type 0 where
  pub run_id : String
  pub status : RunStatus
  pub event_cursor : ℕ
  pub is_replay : Bool

pub record ChildRequest : Type 0 where
  pub parent_run_id : String
  pub agent : String
  pub input : String
  pub idempotency_key : String
  pub budget : RunBudgetOverrides

abbrev pub response_of : RunRecord → Bool → CreateRunResponse
response_of run is_replay = record {
  run_id = run.id;
  status = run.status;
  event_cursor = run.last_sequence;
  is_replay = is_replay;
}

abbrev pub submitted : Intake → Database × RunRecord × Bool → Intake × CreateRunResponse
submitted s (db, run, true) = (
  record s {
    database = db;
    notified = s.notified ++ run.id ∷ [];
    scheduled = s.scheduled ++ run.id ∷ [];
  },
  response_of run false,
)
submitted s (db, run, false) = (record s { database = db }, response_of run true)

unfoldable pub submit_run :
    (StartRunRequest → String)
    → ℕ
    → String
    → FreshIds
    → Intake
    → StartRunRequest
    → Result IntakeError (Intake × CreateRunResponse)
submit_run fingerprint now id fresh s q =
    if not s.is_accepting
    then err shutting_down
    else elim (create_or_get_run fingerprint now id fresh s.database q) [
      | err e ↦ err (submit_error e)
      | ok r ↦ ok (submitted s r)
    ]
