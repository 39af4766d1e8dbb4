-- ===== src/Store/Submission/Created.antt =====
-- What a submission that creates a run leaves behind.
use lite_harness.Common.{
  passed, returned_before, subst, ◌≡◌, String, true, ◌&&◌, some, [], ◌∷◌, ok, arith, find?-append,
  eq_refl, Option-cases, inl, inr, ◌==◌, ℕ, ◌++◌, any, false, eqb, Bool,
}
use lite_harness.Run.Record.{RunRecord, same_owner, same_owner_refl}
use lite_harness.Store.Resources.{
  Database, StartRunRequest, AgentRow, find_agent, WorkspaceRow, find_workspace, SessionRow,
  find_session,
}
use lite_harness.Store.Submission.{
  create_or_get_run, insert_submitted, RunRow, submitted_row, inserted, accepted_event,
  input_message, is_bound_elsewhere, create_run, to_run_record,
}
use lite_harness.Store.Provision.{
  find_submission, ensure_agent, ensure_workspace, ensure_session, FreshIds, session_id_of,
  check_connection, check_parent,
}
use lite_harness.Store.Submission.Checks.{
  HasParent, HasConnection, find_agent-owner, find_workspace-owner, find_session-owner,
  check_parent-HasParent, check_connection-HasConnection,
}

ensure_agent-found :
    (db d : Database) (q : StartRunRequest) (fresh : String) (a : AgentRow)
    → ensure_agent db q fresh ≡ ok (d, a)
    → (d ≡ record db { agents = d.agents }) × (find_agent q.principal q.agent d.agents ≡ some a)
unfolding ensure_agent
ensure_agent-found db d q fresh a h =
    elim (Option-cases (find_agent q.principal q.agent db.agents)) [
      | inr (b, found) ↦ (ground (arith, found), ground (arith, found))
      | inl missing ↦
          let mine =
            find?-append (λ b. same_owner b.owner q.principal && b.id == q.agent) db.agents
              (a ∷ []) in
          (
            ground (arith, missing),
            ground (arith, missing, mine, same_owner_refl q.principal, eq_refl q.agent),
          )
    ]

ensure_workspace-found :
    (db d : Database) (q : StartRunRequest) (fresh : String) (w : WorkspaceRow)
    → ensure_workspace db q fresh ≡ ok (d, w)
    → (d ≡ record db { workspaces = d.workspaces })
      × (find_workspace q.principal q.workspace d.workspaces ≡ some w)
unfolding ensure_workspace
ensure_workspace-found db d q fresh w h =
    elim (Option-cases (find_workspace q.principal q.workspace db.workspaces)) [
      | inr (b, found) ↦ (ground (arith, found), ground (arith, found))
      | inl missing ↦
          let mine =
            find?-append (λ b. same_owner b.owner q.principal && b.id == q.workspace) db.workspaces
              (w ∷ []) in
          (
            ground (arith, missing),
            ground (arith, missing, mine, same_owner_refl q.principal, eq_refl q.workspace),
          )
    ]

ensure_session-found :
    (db d : Database) (q : StartRunRequest) (fresh : FreshIds) (a : AgentRow) (s : SessionRow)
    → ensure_session db q fresh a ≡ ok (d, s)
    → (d ≡ record db { sessions = d.sessions })
      × (find_session q.principal (session_id_of q fresh) d.sessions ≡ some s)
      × ((s.agent_internal_id == a.internal_id) ≡ true)
unfolding ensure_session
ensure_session-found db d q fresh a s h =
    let id = session_id_of q fresh in
    elim (Option-cases (find_session q.principal id db.sessions)) [
      | inr (b, found) ↦ (ground (arith, found), ground (arith, found), ground (arith, found))
      | inl missing ↦
          let mine =
            find?-append (λ b. same_owner b.owner q.principal && b.id == id) db.sessions (s ∷ []) in
          (
            ground (arith, missing),
            ground (arith, missing, mine, same_owner_refl q.principal, eq_refl id),
            ground (arith, missing, eq_refl a.internal_id),
          )
    ]

-- A run that was created: it is its principal's; its agent, its workspace and its session are the
-- rows that its principal has under the names of the request, the session is of that agent, no other
-- run of the session is in another workspace, its connection is a ready one of the principal, its
-- parent a run of the principal one level above, and the run and its first event, under an id that was
-- free, are all that is new in the store.
pub record IsCreated (fingerprint : StartRunRequest → String) (now : ℕ) (id : String)
    (fresh : FreshIds) (db : Database) (q : StartRunRequest) (d : Database) (row : RunRow)
    : Type 0 where
  pub agent : AgentRow
  pub workspace : WorkspaceRow
  pub session : SessionRow
  pub row_is :
      row ≡ submitted_row now id (fingerprint q) q (session_id_of q fresh) agent workspace session
  pub store_is : d.store ≡ record (db.store) {
    runs = db.store.runs ++ row ∷ [];
    events = db.store.events ++ accepted_event now id ∷ [];
  }
  pub agent_of_principal : find_agent q.principal q.agent d.agents ≡ some agent
  pub workspace_of_principal : find_workspace q.principal q.workspace d.workspaces ≡ some workspace
  pub session_of_principal :
      find_session q.principal (session_id_of q fresh) d.sessions ≡ some session
  pub session_of_agent : (session.agent_internal_id == agent.internal_id) ≡ true
  pub owner : row.owner ≡ q.principal
  pub row_agent : row.agent_internal_id ≡ some agent.internal_id
  pub row_workspace : row.workspace_internal_id ≡ some workspace.internal_id
  pub row_session : row.session_internal_id ≡ some session.internal_id
  pub agent_owner : (agent.owner ≡ q.principal) × (agent.id ≡ q.agent)
  pub workspace_owner : (workspace.owner ≡ q.principal) × (workspace.id ≡ q.workspace)
  pub session_owner : (session.owner ≡ q.principal) × (session.id ≡ session_id_of q fresh)
  pub connection : HasConnection db q
  pub row_connection : row.provider_connection_id ≡ q.provider_connection_id
  pub parent : HasParent db q row.depth
  pub row_parent : row.parent_run_id ≡ q.parent_run_id
  pub one_workspace :
      any (is_bound_elsewhere session.internal_id workspace.internal_id) db.store.runs ≡ false
  pub id_was_free : any (λ r. r.id == id) db.store.runs ≡ false
  pub event_was_free : any (λ e. e.run_id == id && eqb e.sequence 1) db.store.events ≡ false

insert_submitted-inserted :
    (fingerprint : StartRunRequest → String) (now : ℕ) (id : String) (fresh : FreshIds)
    (db d : Database) (q : StartRunRequest) (a : AgentRow) (w : WorkspaceRow) (s : SessionRow)
    (row : RunRow)
    → insert_submitted fingerprint now id fresh db q a w s ≡ ok (d, row)
    → (row ≡ submitted_row now id (fingerprint q) q (session_id_of q fresh) a w s)
      × (d ≡ inserted db row (accepted_event now id) (input_message db q id fresh.suffix s))
      × (any (is_bound_elsewhere s.internal_id w.internal_id) db.store.runs ≡ false)
      × (any (λ r. r.id == id) db.store.runs ≡ false)
      × (any (λ e. e.run_id == id && eqb e.sequence 1) db.store.events ≡ false)
unfolding insert_submitted
insert_submitted-inserted fingerprint now id fresh db d q a w s row h =
    (ground arith, ground arith, ground arith, ground arith, ground arith)

-- A submission that creates a run and returns has created it in the name of its principal: the run's
-- owner is the principal, its agent, its workspace and its session are rows of the principal with the
-- names of the request, the session is of that agent and has no run in another workspace, the
-- connection, if one is named, is the principal's and ready, the parent, if one is named, is a run of
-- the principal one level above (and else the depth is 0), and the run with its first event, under an
-- id that was free, is all that is new in the tables of runs and events.
pub create_run-IsCreated :
    (fingerprint : StartRunRequest → String) (now : ℕ) (id : String) (fresh : FreshIds)
    (db d : Database) (q : StartRunRequest) (row : RunRow)
    → create_run fingerprint now id fresh db q ≡ ok (d, row)
    → IsCreated fingerprint now id fresh db q d row
unfolding create_run
create_run-IsCreated fingerprint now id fresh db d q row h =
    let (connected, h1) = passed (check_connection db q) _ h in
    let (parent, h2) = passed (check_parent db q) _ h1 in
    let ((db1, a), h3, e1) = returned_before _ (ensure_agent db q fresh.agent) h2 in
    let ((db2, w), h4, e2) = returned_before _ (ensure_workspace db1 q fresh.workspace) h3 in
    let ((db3, s), h5, e3) = returned_before _ (ensure_session db2 q fresh a) h4 in
    let (a_same, a_found) = ensure_agent-found db db1 q fresh.agent a e1 in
    let (w_same, w_found) = ensure_workspace-found db1 db2 q fresh.workspace w e2 in
    let (s_same, s_found, s_agent) = ensure_session-found db2 db3 q fresh a s e3 in
    let (row_is, d_is, unbound, free, event_free) =
      insert_submitted-inserted fingerprint now id fresh db3 d q a w s row h5 in
    let kept : db3.store ≡ db.store = ground (arith, a_same, w_same, s_same) in
    record {
      agent = a;
      workspace = w;
      session = s;
      row_is = row_is;
      store_is = ground (arith, d_is, kept);
      agent_of_principal = ground (arith, d_is, s_same, w_same, a_found);
      workspace_of_principal = ground (arith, d_is, s_same, w_found);
      session_of_principal = ground (arith, d_is, s_found);
      session_of_agent = s_agent;
      owner = ground (arith, row_is);
      row_agent = ground (arith, row_is);
      row_workspace = ground (arith, row_is);
      row_session = ground (arith, row_is);
      agent_owner = find_agent-owner q.principal q.agent _ a a_found;
      workspace_owner = find_workspace-owner q.principal q.workspace _ w w_found;
      session_owner = find_session-owner q.principal (session_id_of q fresh) _ s s_found;
      connection = check_connection-HasConnection db q connected;
      row_connection = ground (arith, row_is);
      parent = rw row_is (check_parent-HasParent db q parent);
      row_parent = ground (arith, row_is);
      one_workspace =
          subst (λ t. any (is_bound_elsewhere s.internal_id w.internal_id) t.runs ≡ false) kept
            unbound;
      id_was_free = subst (λ t. any (λ r. r.id == id) t.runs ≡ false) kept free;
      event_was_free =
          subst (λ t. any (λ e. e.run_id == id && eqb e.sequence 1) t.events ≡ false) kept
            event_free;
    }

-- The row of a run that a submission says it created.
pub create_or_get_run-IsCreated :
    (fingerprint : StartRunRequest → String) (now : ℕ) (id : String) (fresh : FreshIds)
    (db d : Database) (q : StartRunRequest) (run : RunRecord)
    → create_or_get_run fingerprint now id fresh db q ≡ ok (d, run, true)
    → (row : RunRow) × IsCreated fingerprint now id fresh db q d row × (run ≡ to_run_record row)
unfolding create_or_get_run
create_or_get_run-IsCreated fingerprint now id fresh db d q run h =
    elim (Option-cases (find_submission q.principal q.idempotency_key db.store.runs)) [
      | inr (row, found) ↦ absurd (ground (arith, found))
      | inl new ↦
          let ((e, row), ends, made) =
            returned_before {Next = Database × RunRecord × Bool} {w = (d, run, true)}
              (λ (e, row). ok (e, to_run_record row, true))
              (create_run fingerprint now id fresh db q) (ground (arith, new)) in
          let same : e ≡ d = ground (arith, ends) in
          (
            row,
            subst (λ f. IsCreated fingerprint now id fresh db q f row) same
                (create_run-IsCreated fingerprint now id fresh db e q row made),
            ground (arith, ends),
          )
    ]
