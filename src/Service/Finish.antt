-- ===== src/Service/Finish.antt =====
-- The end of an execution: packages/control-plane/src/index.ts (`#execute`, its
-- `finally`). What the workspace lifecycle and the release of the run's snapshot answer are values;
-- each call of the store has a clock of its own.
pub mod Ready
pub mod Phases
pub mod Completion
use lite_harness.Service.Ending.{
  Checkpoint, Terminal, Thrown, caught, checkpoint_threw, checkpointed, failure, is_lease_lost,
  lease_lost, message_of, message_or, orphaned_as, success, thrown,
}
use lite_harness.Common.{
  ℕ, String, Bool, true, false, ◌&&◌, not, Option, some, none, Result, ok, err, ◌>>=◌,
  if◌then◌else◌, keep, ◌==◌,
}
use lite_harness.Run.Status.{
  RunStatus, succeeded, failed, cancelled, timed_out, orphaned, is_status, is_terminal_run_status,
}
use lite_harness.Store.Json.{Fields, no_fields, field, text, boolean, number}
use lite_harness.Store.Rows.{
  RunRow, RunEventType, run_cancelled, run_timed_out, run_failed, run_orphaned, run_succeeded,
  workspace_checkpoint_completed, workspace_checkpoint_failed, workspace_lease_released,
}
use lite_harness.Store.Tables.{StoreError, get_row}
use lite_harness.Store.Events.{append_event, AppendRunEvent}
use lite_harness.Store.Leases.{WorkspaceLease, validate_workspace_lease, release_workspace_lease}
use lite_harness.Service.State.{Service, ServiceError, AbortReason, lift_store, notify}
use lite_harness.Service.Transition.{transition}

-- What `runSnapshot.releaseRun` answers.
pub data RunRelease : Type 0 where
  run_released cleanup_debt_recorded release_threw : RunRelease

-- The variables of an execution that its `finally` reads.
pub record Execution : Type 0 where
  pub run_id : String
  pub workspace_prepared : Bool
  pub lease : Option WorkspaceLease
  pub lease_loss : Bool
  pub has_attempt : Bool
  pub checkpoint : Checkpoint
  pub release : RunRelease
  pub validated_at : ℕ
  pub checkpointed_at : ℕ
  pub released_at : ℕ
  pub finished_at : ℕ

abbrev pub plain_event : String → RunEventType → Fields → AppendRunEvent
plain_event run_id type payload = record {
  run_id = run_id;
  type = type;
  payload = payload;
  status = none;
  error_code = none;
  error_message = none;
  usage = none;
}

-- `this.store.appendEvent(...)` and `this.#notify(runId)`
unfoldable pub append_and_notify :
    ℕ → Service → String → RunEventType → Fields → Result StoreError Service
append_and_notify now s run_id type payload =
    append_event now s.store (plain_event run_id type payload) >>= λ r.
    ok (notify run_id (record s { store = r.0 }))

-- The terminal outcome after a checkpoint that failed.
unfoldable pub after_failed_checkpoint : Bool → Thrown → Terminal → Terminal
after_failed_checkpoint lease_loss e terminal =
    if is_lease_lost e
    then orphaned_as "workspace_lease_lost" (message_of e)
    else (if lease_loss
        then orphaned_as "workspace_lease_lost"
            (message_or "Workspace lease renewal or fencing validation failed" e)
        else (if is_status terminal.status succeeded
            then record {
              status = failed;
              type = run_failed;
              payload =
                  field "code" (text "workspace_checkpoint_failed")
                    (field "message" (text (message_of e)) no_fields);
            }
            else terminal))

module _ (error_text : StoreError → String) where
  -- The `try` of the checkpoint, for a run that is there.
  unfoldable pub try_checkpoint :
      Service → Execution → WorkspaceLease → RunRow → Result Thrown Service
  try_checkpoint s e lease run =
      if not (validate_workspace_lease e.validated_at s.store lease)
      then err lease_lost
      else elim e.checkpoint [
        | checkpoint_threw t ↦ err t
        | checkpointed more ↦
            elim (append_and_notify e.checkpointed_at s e.run_id workspace_checkpoint_completed
              (field "workspaceId" (text run.workspace_id) more)) [
                | err x ↦ err (thrown (error_text x))
                | ok t ↦ ok t
              ]
      ]

  abbrev pub workspace_field : Option RunRow → Fields → Fields
  workspace_field none more = more
  workspace_field (some run) more = field "workspaceId" (text run.workspace_id) more

  -- The `catch` of the checkpoint.
  unfoldable pub settle_checkpoint :
      Service
      → Execution
      → Terminal
      → Result Thrown Service
      → Result StoreError (Service × Terminal)
  settle_checkpoint s e terminal (ok t) = ok (t, terminal)
  settle_checkpoint s e terminal (err x) =
      append_and_notify e.checkpointed_at s e.run_id workspace_checkpoint_failed (
        workspace_field (get_row s.store e.run_id)
          (field "message" (text (message_of x)) no_fields))
      >>= λ t. ok (t, after_failed_checkpoint e.lease_loss x terminal)

  unfoldable pub checkpoint_run :
      Service → Execution → WorkspaceLease → Terminal → Result StoreError (Service × Terminal)
  unfolding try_checkpoint settle_checkpoint
  checkpoint_run s e lease terminal = elim (get_row s.store e.run_id) [
    | none ↦ ok (s, terminal)
    | some run ↦ settle_checkpoint s e terminal (try_checkpoint s e lease run)
  ]

  unfoldable pub checkpoint_phase :
      Service
      → Execution
      → Option WorkspaceLease
      → Option Terminal
      → Result StoreError (Service × Option Terminal)
  unfolding checkpoint_run
  checkpoint_phase s e (some lease) (some terminal) =
      if e.workspace_prepared
      then (checkpoint_run s e lease terminal >>= λ r. ok (r.0, some r.1))
      else ok (s, some terminal)
  checkpoint_phase s e lease terminal = ok (s, terminal)

-- A success whose lease could not be released is an orphan.
abbrev pub after_refused_release : Option Terminal → Option Terminal
after_refused_release none = none
after_refused_release (some terminal) =
    if is_status terminal.status succeeded
    then some (
        orphaned_as "workspace_lease_lost"
          "Workspace lease could not be released with the active fencing token")
    else some terminal

-- The event of a release that changed the row.
unfoldable pub released_event :
    Service → Execution → WorkspaceLease → Option RunRow → Result StoreError Service
released_event s e lease none = ok s
released_event s e lease (some run) =
    append_and_notify e.released_at s e.run_id workspace_lease_released (
      field "workspaceId" (text run.workspace_id)
        (field "fencingToken" (number lease.fencing_token) no_fields))

unfoldable pub release_phase :
    Service
    → Execution
    → Option WorkspaceLease
    → Option Terminal
    → Result StoreError (Service × Option Terminal)
unfolding released_event
release_phase s e none terminal = ok (s, terminal)
release_phase s e (some lease) terminal =
    let (t, changed) = release_workspace_lease e.released_at s.store lease in
    if changed
    then (released_event (record s { store = t }) e lease (get_row t e.run_id) >>= λ u.
        ok (u, terminal))
    else ok (record s { store = t }, after_refused_release terminal)

-- The outcome after `releaseRun`.
unfoldable pub after_run_release : RunRelease → Option Terminal → Option Terminal
after_run_release run_released terminal = terminal
after_run_release cleanup_debt_recorded terminal = some (
    orphaned_as "run_cleanup_failed"
      "Required run cleanup exhausted its retry budget; durable cleanup debt was recorded")
after_run_release release_threw terminal = some (
    orphaned_as "run_finalization_failed"
      "Required run finalization failed before cleanup completion or durable recovery state could be confirmed")

abbrev pub forget_active : String → Service → Service
forget_active run_id s = record s { active = keep (λ c. not (c.run_id == run_id)) s.active }

-- The last transition of an execution.
unfoldable pub conclude :
    ℕ → Service → String → Bool → Option Terminal → Result ServiceError Service
conclude now s run_id has_attempt terminal = elim (get_row s.store run_id) [
  | none ↦ ok s
  | some latest ↦ if is_terminal_run_status latest.status then ok s else elim terminal [
    | some t ↦ transition now s run_id t.status t.type t.payload
    | none ↦
        if has_attempt
        then transition now s run_id failed run_failed (
            field "code" (text "run_finalization_failed")
              (field "message" (text "Run execution ended without a terminal result") no_fields))
        else ok s
  ]
]

-- The `finally` of an execution.
unfoldable pub finish :
    (StoreError → String) → Service → Execution → Option Terminal → Result ServiceError Service
finish error_text s e terminal = do
  (s1, t1) ← lift_store (checkpoint_phase error_text s e e.lease terminal)
  (s2, t2) ← lift_store (release_phase s1 e e.lease t1)
  conclude e.finished_at (forget_active e.run_id s2) e.run_id e.has_attempt
      (after_run_release e.release t2)
