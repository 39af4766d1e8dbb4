-- ===== src/Tests/Submission.antt =====
-- The theorems on the submission of runs at the small database.
use lite_harness.Common.{
  ◌≡◌, ◌==◌, refl, String, true, false, some, none, [], ◌∷◌, ok, err, Result, if◌then◌else◌,
  concat_text,
}
use lite_harness.Run.Status.{running}
use lite_harness.Store.Rows.{RunRow, to_run_record}
use lite_harness.Store.Resources.{
  Database, StartRunRequest, normalize_budget, next_message_sequence,
}
use lite_harness.Store.Submission.{insert_submitted, create_run, create_or_get_run}
use lite_harness.Store.Provision.{
  SubmitError, FreshIds, child_depth_invalid, idempotency_key_reused, check_connection,
  check_parent, ensure_agent, ensure_workspace, ensure_session,
}
use lite_harness.Store.Submission.Created.{IsCreated, create_run-IsCreated}
use lite_harness.Store.Submission.Replay.{create_or_get_run_again}
use lite_harness.Tests.Data.{store, owner, row}

abbrev pub database : Database
database = record {
  store = store;
  agents = [];
  workspaces = record { internal_id = "wsp_in"; id = "demo"; owner = owner } ∷ [];
  sessions = [];
  messages = [];
  connections = record { id = "main"; owner = owner; is_ready = true } ∷ [];
}

-- A child of "run_1".
abbrev request : StartRunRequest
request = record {
  agent = "coder";
  workspace = "demo";
  session = none;
  provider_connection_id = some "main";
  input = "task";
  budget = none;
  idempotency_key = "key";
  principal = owner;
  parent_run_id = some "run_1";
  depth = some 1;
  delivery_allowed = none;
  create_if_missing = none;
}

abbrev pub fresh : FreshIds
fresh = record { agent = "agt_new"; workspace = "wsp_new"; session = "ses_new"; suffix = "9" }

-- A hash of the input alone.
abbrev pub fingerprint : StartRunRequest → String
fingerprint q = concat_text "sha256:" q.input

abbrev row_of : Result SubmitError (Database × RunRow) → Database × RunRow
row_of (err e) = (database, row "run_1" none running 1)
row_of (ok (d, r)) = (d, r)

abbrev created : Database × RunRow
created = row_of (create_run fingerprint 5 "run_9" fresh database request)

unfoldable pub submission_code : Unit {0}
unfolding check_connection check_parent ensure_agent ensure_workspace ensure_session
    insert_submitted create_run create_or_get_run normalize_budget next_message_sequence
    to_run_record
submission_code = tt

creates : create_run fingerprint 5 "run_9" fresh database request ≡ ok created
unfolding submission_code
creates = refl

submits :
    create_or_get_run fingerprint 5 "run_9" fresh database request
    ≡ ok (created.0, to_run_record created.1, true)
unfolding submission_code
submits = refl

-- The depth of a child is the depth of its parent and one.
refuses_depth :
    create_run fingerprint 5 "run_9" fresh database (record request { depth = some 2 })
    ≡ err child_depth_invalid
unfolding submission_code
refuses_depth = refl

create_run-IsCreated_example :
    IsCreated fingerprint 5 "run_9" fresh database request created.0 created.1
create_run-IsCreated_example =
    create_run-IsCreated fingerprint 5 "run_9" fresh database created.0 request created.1 creates

create_or_get_run_again_example :
    create_or_get_run fingerprint 6 "run_10" fresh created.0 (record request { input = "other" })
    ≡ (if fingerprint request == fingerprint (record request { input = "other" })
        then ok (created.0, to_run_record created.1, false)
        else err idempotency_key_reused)
create_or_get_run_again_example =
    create_or_get_run_again fingerprint 5 6 "run_9" "run_10" fresh fresh database created.0 request
      (record request { input = "other" }) (to_run_record created.1) true submits refl refl
