-- ===== src/Store/Approvals.antt =====
-- Approvals of tool calls: packages/storage-sqlite/src/index.ts (`createApproval`, `getApproval`,
-- `#resolveApprovalWithinTransaction`, `resolveApproval`, `resolveApprovalAndAppendEvent`).
pub mod Resolution
pub mod Once
use lite_harness.Common.{
  ℕ, String, Bool, true, false, ◌&&◌, ◌||◌, not, Option, some, none, [], ◌∷◌, ◌++◌, ok, err, ltb,
  if◌then◌else◌, find_by, update_by, ◌==◌, ◌>>=◌,
}
use lite_harness.Run.Status.{is_terminal_run_status}
use lite_harness.Store.Json.{Fields}
use lite_harness.Store.Rows.{ApprovalRecord, ApprovalStatus, pending, approved, approval_resolved}
use lite_harness.Store.Tables.{Store, Transaction, get_row, constraint_violated}
use lite_harness.Store.Events.{append_event, absent}

abbrev pub approval_id : ApprovalRecord → String
approval_id a = a.id

abbrev pub is_pending : ApprovalStatus → Bool
is_pending pending = true
is_pending _ = false

abbrev pub is_approved : ApprovalStatus → Bool
is_approved approved = true
is_approved _ = false

unfoldable pub get_approval : Store → String → Option ApprovalRecord
get_approval s id = find_by approval_id id s.approvals

-- The primary key of `approvals` is the id, and `run_id` refers to a run.
unfoldable pub create_approval : Store → ApprovalRecord → Transaction ApprovalRecord
unfolding get_approval
create_approval s a =
    if not (absent (get_approval s a.id)) || absent (get_row s a.run_id)
    then err constraint_violated
    else ok (record s { approvals = s.approvals ++ a ∷ [] }, a)

-- `EXISTS (SELECT 1 FROM runs WHERE runs.id = approvals.run_id AND runs.status NOT IN (...))`
abbrev pub has_live_run : Store → String → Bool
has_live_run s run_id = elim (get_row s run_id) [
  | none ↦ false
  | some run ↦ not (is_terminal_run_status run.status)
]

-- The `WHERE` of the update.
unfoldable pub may_resolve : ℕ → Store → ApprovalStatus → String → ApprovalRecord → Bool
may_resolve now s status digest a =
    is_pending a.status
    && a.execution_digest == digest
    && (not (is_approved status) || ltb now a.expires_at)
    && has_live_run s a.run_id

abbrev pub resolved : ℕ → ApprovalStatus → ApprovalRecord → ApprovalRecord
resolved now status a = record a { status = status; resolved_at = some now }

unfoldable pub resolve_within_transaction :
    ℕ → Store → String → ApprovalStatus → String → Store × Bool
unfolding get_approval may_resolve
resolve_within_transaction now s id status digest = elim (get_approval s id) [
  | none ↦ (s, false)
  | some a ↦
      if may_resolve now s status digest a
      then (
        record s { approvals = update_by approval_id id (resolved now status) s.approvals },
        true,
      )
      else (s, false)
]

pub resolve_approval : ℕ → Store → String → ApprovalStatus → String → Store × Option ApprovalRecord
unfolding resolve_within_transaction
resolve_approval now s id status digest =
    let (t, changed) = resolve_within_transaction now s id status digest in (t, get_approval t id)

-- The event of a resolution, in the same transaction.
pub append_resolution :
    ℕ → Store × Bool → Option ApprovalRecord → Fields → Transaction (Option ApprovalRecord)
append_resolution now (t, true) (some a) payload =
    append_event now t (record {
      run_id = a.run_id;
      type = approval_resolved;
      payload = payload;
      status = none;
      error_code = none;
      error_message = none;
      usage = none;
    })
    >>= λ r. ok (r.0, some a)
append_resolution now (t, _) found payload = ok (t, found)

unfoldable pub resolve_approval_and_append_event :
    ℕ → Store → String → ApprovalStatus → String → Fields → Transaction (Option ApprovalRecord)
unfolding append_resolution
resolve_approval_and_append_event now s id status digest payload =
    let r = resolve_within_transaction now s id status digest in
    append_resolution now r (get_approval r.0 id) payload
