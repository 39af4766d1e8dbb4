-- ===== src/Store/Submission/Checks.antt =====
-- What the checks of a submission find: packages/storage-sqlite/src/index.ts (`createOrGetRun`).
use lite_harness.Common.{
  subst, ◌≡◌, String, true, ◌&&◌, some, ok, arith, find?-holds, key-find_by, eq_iff, sym, none,
  List, ◌+◌, Option-cases, inl, inr, ◌==◌, ℕ, Bool,
}
use lite_harness.Run.Record.{ResourceOwner, same_owner, same_owner→eq, or_else}
use lite_harness.Store.Resources.{
  Database, StartRunRequest, AgentRow, find_agent, WorkspaceRow, find_workspace, SessionRow,
  find_session, ConnectionRow, find_connection,
}
use lite_harness.Store.Tables.{get_row, run_id_of}
use lite_harness.Store.Submission.{RunRow}
use lite_harness.Store.Provision.{check_connection, check_parent}

pub find_agent-owner :
    (owner : ResourceOwner) (id : String) (xs : List AgentRow) (x : AgentRow)
    → find_agent owner id xs ≡ some x
    → (x.owner ≡ owner) × (x.id ≡ id)
find_agent-owner owner id xs x h =
    let p : AgentRow → Bool = λ y. same_owner y.owner owner && y.id == id in
    let holds = find?-holds p xs x h in
    (same_owner→eq x.owner owner (ground arith), ground (arith, eq_iff x.id id))

pub find_workspace-owner :
    (owner : ResourceOwner) (id : String) (xs : List WorkspaceRow) (x : WorkspaceRow)
    → find_workspace owner id xs ≡ some x
    → (x.owner ≡ owner) × (x.id ≡ id)
find_workspace-owner owner id xs x h =
    let p : WorkspaceRow → Bool = λ y. same_owner y.owner owner && y.id == id in
    let holds = find?-holds p xs x h in
    (same_owner→eq x.owner owner (ground arith), ground (arith, eq_iff x.id id))

pub find_session-owner :
    (owner : ResourceOwner) (id : String) (xs : List SessionRow) (x : SessionRow)
    → find_session owner id xs ≡ some x
    → (x.owner ≡ owner) × (x.id ≡ id)
find_session-owner owner id xs x h =
    let p : SessionRow → Bool = λ y. same_owner y.owner owner && y.id == id in
    let holds = find?-holds p xs x h in
    (same_owner→eq x.owner owner (ground arith), ground (arith, eq_iff x.id id))

-- The parent that a request names is a run of the principal, one level above; without a parent the
-- depth is 0.
pub data HasParent (db : Database) (q : StartRunRequest) (depth : ℕ) : Type 0 where
  is_root : q.parent_run_id ≡ none → depth ≡ 0 → HasParent db q depth
  has_parent :
      (parent : RunRow)
      → q.parent_run_id ≡ some parent.id
      → get_row db.store parent.id ≡ some parent
      → parent.owner ≡ q.principal
      → depth ≡ parent.depth + 1
      → HasParent db q depth

-- The connection that a request names is a ready one of the principal.
pub data HasConnection (db : Database) (q : StartRunRequest) : Type 0 where
  no_connection : q.provider_connection_id ≡ none → HasConnection db q
  has_connection :
      (c : ConnectionRow)
      → q.provider_connection_id ≡ some c.id
      → find_connection q.principal c.id db.connections ≡ some c
      → c.owner ≡ q.principal
      → c.is_ready ≡ true
      → HasConnection db q

pub check_parent-HasParent :
    (db : Database) (q : StartRunRequest)
    → check_parent db q ≡ ok tt
    → HasParent db q (or_else q.depth 0)
unfolding check_parent
check_parent-HasParent db q h = elim (Option-cases q.parent_run_id) [
  | inl root ↦ is_root root (ground (arith, root))
  | inr (id, named) ↦ elim (Option-cases (get_row db.store id)) [
    | inl gone ↦ absurd (ground (arith, named, gone))
    | inr (parent, found) ↦
        let same : parent.id ≡ id = key-find_by run_id_of id db.store.runs parent found in
        has_parent parent (rw same named)
          (subst (λ k. get_row db.store k ≡ some parent) (sym same) found)
          (same_owner→eq parent.owner q.principal (ground (arith, named, found)))
          (ground (arith, named, found))
  ]
]

pub check_connection-HasConnection :
    (db : Database) (q : StartRunRequest) → check_connection db q ≡ ok tt → HasConnection db q
unfolding check_connection
check_connection-HasConnection db q h = elim (Option-cases q.provider_connection_id) [
  | inl absent ↦ no_connection absent
  | inr (id, named) ↦ elim (Option-cases (find_connection q.principal id db.connections)) [
    | inl gone ↦ absurd (ground (arith, named, gone))
    | inr (c, found) ↦
        let p : ConnectionRow → Bool = λ c. same_owner c.owner q.principal && c.id == id in
        let holds = find?-holds p db.connections c found in
        let same : c.id ≡ id = ground (arith, eq_iff c.id id) in
        has_connection c (rw same named)
          (subst (λ k. find_connection q.principal k db.connections ≡ some c) (sym same) found)
          (same_owner→eq c.owner q.principal (ground arith)) (ground (arith, named, found))
  ]
]
