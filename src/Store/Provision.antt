-- ===== src/Store/Provision.antt =====
-- What the submission of a run checks, and what it provides for: packages/storage-sqlite/src/index.ts
-- (`createOrGetRun`).
use lite_harness.Common.{
  ◌+◌, String, Bool, true, false, ◌&&◌, not, Option, some, none, List, [], ◌∷◌, ◌++◌, Result, ok,
  err, if◌then◌else◌, find?, any, eqb, ◌==◌, concat_text,
}
use lite_harness.Run.Record.{same_owner, ResourceOwner, or_else}
use lite_harness.Store.Rows.{RunRow, ScopedKey}
use lite_harness.Store.Tables.{get_row}
use lite_harness.Store.Resources.{
  Database, StartRunRequest, AgentRow, WorkspaceRow, SessionRow, find_agent, find_workspace,
  find_session, find_connection, default_overrides,
}

pub data SubmitError : Type 0 where
  idempotency_key_reused connection_not_owned connection_not_ready : SubmitError
  parent_not_owned child_depth_invalid root_depth_not_zero : SubmitError
  agent_unavailable workspace_unavailable session_of_other_agent : SubmitError
  session_of_other_workspace constraint_violated : SubmitError

-- The ids of the rows that a submission may insert, and `id.slice(4)`.
pub record FreshIds : Type 0 where
  pub agent : String
  pub workspace : String
  pub session : String
  pub suffix : String

abbrev pub scoped_key : StartRunRequest → ScopedKey
scoped_key q = record { scope = q.principal.user_id; key = q.idempotency_key }

-- `WHERE app_id = ? AND tenant_id = ? AND idempotency_key = ?`
abbrev pub has_key : ResourceOwner → String → RunRow → Bool
has_key principal key r =
    r.app_id == principal.app_id
    && r.tenant_id == principal.tenant_id
    && r.idempotency_key.scope == principal.user_id
    && r.idempotency_key.key == key

abbrev pub find_submission : ResourceOwner → String → List RunRow → Option RunRow
find_submission principal key = find? (has_key principal key)

unfoldable pub check_connection : Database → StartRunRequest → Result SubmitError (Unit {0})
check_connection db q = elim q.provider_connection_id [
  | none ↦ ok tt
  | some id ↦ elim (find_connection q.principal id db.connections) [
    | none ↦ err connection_not_owned
    | some c ↦ if c.is_ready then ok tt else err connection_not_ready
  ]
]

unfoldable pub check_parent : Database → StartRunRequest → Result SubmitError (Unit {0})
check_parent db q = elim q.parent_run_id [
  | none ↦ if eqb (or_else q.depth 0) 0 then ok tt else err root_depth_not_zero
  | some id ↦ elim (get_row db.store id) [
    | none ↦ err parent_not_owned
    | some parent ↦
        if not (same_owner parent.owner q.principal)
        then err parent_not_owned
        else (if eqb (or_else q.depth 0) (parent.depth + 1) then ok tt else err child_depth_invalid)
  ]
]

-- `createIfMissing === false`
abbrev pub must_exist : StartRunRequest → Bool
must_exist q = not (or_else q.create_if_missing true)

-- An insert of a row whose primary key must be free.
abbrev pub insert_unless {ℓ} : {A : Type ℓ} → Bool → A → Result SubmitError A
insert_unless true a = err constraint_violated
insert_unless false a = ok a

unfoldable pub ensure_agent :
    Database → StartRunRequest → String → Result SubmitError (Database × AgentRow)
ensure_agent db q fresh = elim (find_agent q.principal q.agent db.agents) [
  | some a ↦ ok (db, a)
  | none ↦
      let a : AgentRow = record {
        internal_id = fresh;
        id = q.agent;
        owner = q.principal;
        model_capabilities = "text" ∷ "tools" ∷ [];
        allowed_tools = "read_file" ∷ "write_file" ∷ [];
        default_budget = default_overrides;
      } in
      if must_exist q
      then err agent_unavailable
      else insert_unless (any (λ b. b.internal_id == fresh) db.agents)
          (record db { agents = db.agents ++ a ∷ [] }, a)
]

unfoldable pub ensure_workspace :
    Database → StartRunRequest → String → Result SubmitError (Database × WorkspaceRow)
ensure_workspace db q fresh = elim (find_workspace q.principal q.workspace db.workspaces) [
  | some w ↦ ok (db, w)
  | none ↦
      let w : WorkspaceRow = record {
        internal_id = fresh;
        id = q.workspace;
        owner = q.principal;
      } in
      if must_exist q
      then err workspace_unavailable
      else insert_unless (any (λ b. b.internal_id == fresh) db.workspaces)
          (record db { workspaces = db.workspaces ++ w ∷ [] }, w)
]

abbrev pub session_id_of : StartRunRequest → FreshIds → String
session_id_of q fresh = or_else q.session (concat_text "ses_" fresh.suffix)

unfoldable pub ensure_session :
    Database → StartRunRequest → FreshIds → AgentRow → Result SubmitError (Database × SessionRow)
ensure_session db q fresh a = elim (find_session q.principal (session_id_of q fresh) db.sessions) [
  | some s ↦ if s.agent_internal_id == a.internal_id then ok (db, s) else err session_of_other_agent
  | none ↦
      let s : SessionRow = record {
        internal_id = fresh.session;
        id = session_id_of q fresh;
        owner = q.principal;
        agent_id = q.agent;
        agent_internal_id = a.internal_id;
      } in
      insert_unless (any (λ b. b.internal_id == fresh.session) db.sessions)
        (record db { sessions = db.sessions ++ s ∷ [] }, s)
]
