-- ===== src/Store/Submission.antt =====
-- The submission of a run: packages/storage-sqlite/src/index.ts (`createOrGetRun`). The hash of a
-- request is a parameter; the ids that are drawn at random are arguments.
pub mod Replay
pub mod Checks
pub mod Created
pub mod Log
use lite_harness.Store.Provision.{
  FreshIds, SubmitError, agent_unavailable, check_connection, check_parent, child_depth_invalid,
  connection_not_owned, connection_not_ready, constraint_violated, ensure_agent, ensure_session,
  ensure_workspace, find_submission, has_key, idempotency_key_reused, insert_unless, must_exist,
  parent_not_owned, root_depth_not_zero, scoped_key, session_id_of, session_of_other_agent,
  session_of_other_workspace, workspace_unavailable,
}
use lite_harness.Common.{
  ℕ, ◌+◌, String, Bool, true, false, ◌&&◌, ◌||◌, not, Option, some, none, List, [], ◌∷◌, ◌++◌,
  Result, ok, err, ◌>>=◌, ◌>>◌, throw_if, if◌then◌else◌, find?, any, eqb, ◌==◌, concat_text,
}
use lite_harness.Run.Status.{accepted}
use lite_harness.Run.Record.{same_owner, RunRecord, RunBudget, ResourceOwner, no_overrides, or_else}
use lite_harness.Store.Json.{field, text, no_fields}
use lite_harness.Store.Rows.{RunRow, RunEvent, ScopedKey, run_accepted, to_run_record}
use lite_harness.Store.Tables.{Store, get_row}
use lite_harness.Store.Resources.{
  Database, StartRunRequest, AgentRow, WorkspaceRow, SessionRow, MessageRow, user, find_agent,
  find_workspace, find_session, find_connection, normalize_budget, default_overrides,
  next_message_sequence,
}

abbrev pub is_text : Option String → String → Bool
is_text none s = false
is_text (some t) s = t == s

-- A run of the session in another workspace: the set of the workspaces of the session's runs is
-- neither empty nor this workspace alone exactly if there is one.
abbrev pub is_bound_elsewhere : String → String → RunRow → Bool
is_bound_elsewhere session workspace r =
    is_text r.session_internal_id session
    && elim r.workspace_internal_id [ none ↦ false | some w ↦ not (w == workspace) ]

-- The row of the run: a request's defaults are the agent's, and then those of every run.
abbrev pub submitted_row :
    ℕ → String → String → StartRunRequest → String → AgentRow → WorkspaceRow → SessionRow → RunRow
submitted_row now id fingerprint q session_id a w s = record {
  id = id;
  idempotency_key = scoped_key q;
  request_fingerprint = fingerprint;
  owner = q.principal;
  agent_id = q.agent;
  workspace_id = q.workspace;
  session_id = some session_id;
  provider_connection_id = q.provider_connection_id;
  agent_internal_id = some a.internal_id;
  workspace_internal_id = some w.internal_id;
  session_internal_id = some s.internal_id;
  parent_run_id = q.parent_run_id;
  depth = or_else q.depth 0;
  delivery_allowed = or_else q.delivery_allowed true;
  input = q.input;
  budget = normalize_budget a.default_budget (or_else q.budget no_overrides);
  usage_input_tokens = 0;
  usage_input_tokens_reported = false;
  usage_output_tokens = 0;
  usage_output_tokens_reported = false;
  usage_cost_usd = 0;
  usage_cost_reported = false;
  usage_tool_calls = 0;
  status = accepted;
  last_sequence = 1;
  error_code = none;
  error_message = none;
  created_at = now;
  updated_at = now;
}

abbrev pub accepted_event : ℕ → String → RunEvent
accepted_event now id = record {
  run_id = id;
  sequence = 1;
  type = run_accepted;
  payload = field "status" (text "ACCEPTED") no_fields;
  created_at = now;
}

abbrev pub input_message : Database → StartRunRequest → String → String → SessionRow → MessageRow
input_message db q id suffix s = record {
  id = concat_text "msg_" (concat_text suffix "_user");
  session_internal_id = s.internal_id;
  run_id = id;
  role = user;
  content = q.input;
  sequence = next_message_sequence s.internal_id db.messages;
}

-- The last three inserts, and their primary keys.
abbrev pub inserted : Database → RunRow → RunEvent → MessageRow → Database
inserted db row e m = record db {
  store = record (db.store) {
    runs = db.store.runs ++ row ∷ [];
    events = db.store.events ++ e ∷ [];
  };
  messages = db.messages ++ m ∷ [];
}

abbrev pub key_is_taken : Database → String → MessageRow → Bool
key_is_taken db id m =
    any (λ r. r.id == id) db.store.runs
    || any (λ e. e.run_id == id && eqb e.sequence 1) db.store.events
    || any (λ o. o.id == m.id) db.messages

unfoldable pub insert_submitted :
    (StartRunRequest → String)
    → ℕ
    → String
    → FreshIds
    → Database
    → StartRunRequest
    → AgentRow
    → WorkspaceRow
    → SessionRow
    → Result SubmitError (Database × RunRow)
insert_submitted fingerprint now id fresh db q a w s =
    let row = submitted_row now id (fingerprint q) q (session_id_of q fresh) a w s in
    let m = input_message db q id fresh.suffix s in
    if any (is_bound_elsewhere s.internal_id w.internal_id) db.store.runs
    then err session_of_other_workspace
    else insert_unless (key_is_taken db id m) (inserted db row (accepted_event now id) m, row)

unfoldable pub create_run :
    (StartRunRequest → String)
    → ℕ
    → String
    → FreshIds
    → Database
    → StartRunRequest
    → Result SubmitError (Database × RunRow)
create_run fingerprint now id fresh db q = do
  check_connection db q
  check_parent db q
  (db1, a) ← ensure_agent db q fresh.agent
  (db2, w) ← ensure_workspace db1 q fresh.workspace
  (db3, s) ← ensure_session db2 q fresh a
  insert_submitted fingerprint now id fresh db3 q a w s

-- The database, the run, and whether it was created; an error rolls back.
unfoldable pub create_or_get_run :
    (StartRunRequest → String)
    → ℕ
    → String
    → FreshIds
    → Database
    → StartRunRequest
    → Result SubmitError (Database × RunRecord × Bool)
create_or_get_run fingerprint now id fresh db q =
    elim (find_submission q.principal q.idempotency_key db.store.runs) [
      | some existing ↦
          if existing.request_fingerprint == fingerprint q
          then ok (db, to_run_record existing, false)
          else err idempotency_key_reused
      | none ↦
          create_run fingerprint now id fresh db q >>= λ (d, row). ok (d, to_run_record row, true)
    ]
