-- ===== src/Service/Finish/Phases.antt =====
-- What each phase of the end of an execution keeps: the run as it was, and an outcome that the
-- table of transitions takes.
use lite_harness.Common.{
  ℕ, String, List, ◌⊎◌, Bool, true, false, ◌≡◌, some, none, arith, refl, ok, err, Option, inl, inr,
  Result, sym, Bool-cases, subst, if◌then◌else◌,
}
use lite_harness.Run.Status.{
  RunStatus, is_terminal_run_status, assert_run_transition, failed, orphaned, succeeded, is_status,
}
use lite_harness.Store.Json.{Fields, no_fields, field, text, number}
use lite_harness.Store.Rows.{
  RunRow, LeaseRow, workspace_checkpoint_completed, workspace_checkpoint_failed,
  workspace_lease_released,
}
use lite_harness.Store.Tables.{Store, StoreError}
use lite_harness.Store.Events.{is_subagent_completed}
use lite_harness.Store.Leases.{
  WorkspaceLease, validate_workspace_lease, release_workspace_lease, update_lease,
}
use lite_harness.Service.State.{Service}
use lite_harness.Service.Finish.{
  Execution, RunRelease, after_failed_checkpoint, after_refused_release, after_run_release,
  try_checkpoint, settle_checkpoint, checkpoint_run, checkpoint_phase, release_phase,
  released_event, run_released, cleanup_debt_recorded, release_threw,
}
use lite_harness.Service.Ending.{
  Terminal, orphaned_as, message_of, is_lease_lost, lease_lost, Thrown, Checkpoint, checkpointed,
  checkpoint_threw,
}
use lite_harness.Service.Finish.Ready.{Ready, HasFamily, append_and_notify_total}

-- The table takes the outcome as the end of a run in this status.
abbrev pub IsEnd : RunStatus → Terminal → Type 0
IsEnd status t =
    (assert_run_transition status t.status ≡ ok tt)
    × (is_terminal_run_status t.status ≡ true)
    × (is_subagent_completed t.type ≡ false)

abbrev pub IsEndIfSome : RunStatus → Option Terminal → Type 0
IsEndIfSome status none = Unit {0}
IsEndIfSome status (some t) = IsEnd status t

-- A live status from which a run may fail and be orphaned: RUNNING and CHECKPOINTING.
abbrev pub HasStarted : RunStatus → Type 0
HasStarted status =
    (is_terminal_run_status status ≡ false)
    × (assert_run_transition status failed ≡ ok tt)
    × (assert_run_transition status orphaned ≡ ok tt)

Checkpoint-cases :
    (c : Checkpoint)
    → ((x : Thrown) × (c ≡ checkpoint_threw x)) ⊎ ((more : Fields) × (c ≡ checkpointed more))
Checkpoint-cases (checkpoint_threw x) = inl (x, refl)
Checkpoint-cases (checkpointed more) = inr (more, refl)

-- A release writes the leases only.
release-leases :
    (now : ℕ) (s : Store) (lease : WorkspaceLease)
    → (release_workspace_lease now s lease).0
      ≡ record s { leases = (release_workspace_lease now s lease).0.leases }
unfolding release_workspace_lease update_lease
release-leases now s lease = ground arith

leases-HasFamily :
    (s : Store) (leases : List LeaseRow) (run_id : String) (parent : Option String)
    → HasFamily s run_id parent
    → HasFamily (record s { leases = leases }) run_id parent
leases-HasFamily s leases run_id none f = tt
leases-HasFamily s leases run_id (some p) f = f

release-Ready :
    (now : ℕ) (s : Store) (lease : WorkspaceLease) (run_id : String) (status : RunStatus)
    → Ready s run_id status
    → Ready (release_workspace_lease now s lease).0 run_id status
release-Ready now s lease run_id status r =
    subst (λ t. Ready t run_id status) (sym (release-leases now s lease))
      (record {
        log = r.log;
        run = r.run;
        found = r.found;
        current = r.current;
        family =
            leases-HasFamily s (release_workspace_lease now s lease).0.leases run_id
              r.run.parent_run_id r.family;
      })

module _ (status : RunStatus) where
  if-IsEnd :
      (b : Bool) (t u : Terminal)
      → IsEnd status t
      → IsEnd status u
      → IsEnd status (if b then t else u)
  if-IsEnd true t u h k = h
  if-IsEnd false t u h k = k

  if-IsEndIfSome :
      (b : Bool) (t u : Option Terminal)
      → IsEndIfSome status t
      → IsEndIfSome status u
      → IsEndIfSome status (if b then t else u)
  if-IsEndIfSome true t u h k = h
  if-IsEndIfSome false t u h k = k

module _ (status : RunStatus) (started : HasStarted status) where
  orphaned_as-IsEnd : (code message : String) → IsEnd status (orphaned_as code message)
  unfolding is_terminal_run_status
  orphaned_as-IsEnd code message = (started.2, refl, refl)

  after_failed_checkpoint-IsEnd :
      (lease_loss : Bool) (e : Thrown) (t : Terminal)
      → IsEnd status t
      → IsEnd status (after_failed_checkpoint lease_loss e t)
  unfolding after_failed_checkpoint is_terminal_run_status
  after_failed_checkpoint-IsEnd lease_loss e t h =
      let lost = orphaned_as-IsEnd "workspace_lease_lost" (message_of e) in
      if-IsEnd status (is_lease_lost e) _ _ lost (
        if-IsEnd status lease_loss _ _ lost
          (if-IsEnd status (is_status t.status succeeded) _ t (started.1, refl, refl) h))

  after_refused_release-IsEnd :
      (t : Option Terminal) → IsEndIfSome status t → IsEndIfSome status (after_refused_release t)
  after_refused_release-IsEnd none h = tt
  after_refused_release-IsEnd (some t) h =
      if-IsEndIfSome status (is_status t.status succeeded) _ (some t)
        (orphaned_as-IsEnd "workspace_lease_lost"
          "Workspace lease could not be released with the active fencing token")
        h

  pub after_run_release-IsEnd :
      (release : RunRelease) (t : Option Terminal)
      → IsEndIfSome status t
      → IsEndIfSome status (after_run_release release t)
  unfolding after_run_release is_terminal_run_status
  after_run_release-IsEnd run_released t h = h
  after_run_release-IsEnd cleanup_debt_recorded t h = (started.2, refl, refl)
  after_run_release-IsEnd release_threw t h = (started.2, refl, refl)

  -- A phase that returns, with the run as it was and an outcome that is an end.
  abbrev pub Passes : String → Result StoreError (Service × Option Terminal) → Type 0
  Passes run_id r =
      (u : Service) × (t : Option Terminal) × (r ≡ ok (u, t))
      × Ready u.store run_id status
      × IsEndIfSome status t

  -- The `try` of a checkpoint leaves the run as it was, when it returns.
  try_checkpoint_cases :
      (error_text : StoreError → String) (s : Service) (e : Execution) (lease : WorkspaceLease)
      (run : RunRow)
      → Ready s.store e.run_id status
      → ((x : Thrown) × (try_checkpoint error_text s e lease run ≡ err x))
        ⊎ ((u : Service) × (try_checkpoint error_text s e lease run ≡ ok u)
            × Ready u.store e.run_id status)
  unfolding try_checkpoint
  try_checkpoint_cases error_text s e lease run r =
      elim (Bool-cases (validate_workspace_lease e.validated_at s.store lease)) [
        | inr n ↦ inl (lease_lost, rw n refl)
        | inl v ↦ elim (Checkpoint-cases e.checkpoint) [
          | inl (x, h) ↦ inl (x, rw (v, h) refl)
          | inr (more, h) ↦
              let (u, total, k) =
                append_and_notify_total e.checkpointed_at s e.run_id status
                  workspace_checkpoint_completed (field "workspaceId" (text run.workspace_id) more)
                  started.0 refl r in
              inr (u, rw (v, h) (rw total refl), k)
        ]
      ]

  checkpoint_run-Passes :
      (error_text : StoreError → String) (s : Service) (e : Execution) (lease : WorkspaceLease)
      (t : Terminal)
      → Ready s.store e.run_id status
      → IsEnd status t
      → (u : Service) × (v : Terminal) × (checkpoint_run error_text s e lease t ≡ ok (u, v))
        × Ready u.store e.run_id status
        × IsEnd status v
  unfolding checkpoint_run settle_checkpoint
  checkpoint_run-Passes error_text s e lease t r h =
      elim (try_checkpoint_cases error_text s e lease r.run r) [
        | inr (u, c, k) ↦ (u, t, ground (arith, r.found, c), k, h)
        | inl (x, c) ↦
            let (u, total, k) =
              append_and_notify_total e.checkpointed_at s e.run_id status
                workspace_checkpoint_failed
                (field "workspaceId" (text r.run.workspace_id)
                  (field "message" (text (message_of x)) no_fields))
                started.0 refl r in
            (
              u,
              after_failed_checkpoint e.lease_loss x t,
              ground (arith, r.found, c, total),
              k,
              after_failed_checkpoint-IsEnd e.lease_loss x t h,
            )
      ]

  pub checkpoint_phase-Passes :
      (error_text : StoreError → String) (s : Service) (e : Execution)
      (lease : Option WorkspaceLease) (t : Option Terminal)
      → Ready s.store e.run_id status
      → IsEndIfSome status t
      → Passes e.run_id (checkpoint_phase error_text s e lease t)
  unfolding checkpoint_phase
  checkpoint_phase-Passes error_text s e none t r h = (s, t, refl, r, h)
  checkpoint_phase-Passes error_text s e (some lease) none r h = (s, none, refl, r, h)
  checkpoint_phase-Passes error_text s e (some lease) (some t) r h =
      elim (Bool-cases e.workspace_prepared) [
        | inr n ↦ (s, some t, rw n refl, r, h)
        | inl p ↦
            let (u, v, c, k, end) = checkpoint_run-Passes error_text s e lease t r h in
            (u, some v, ground (arith, c), k, end)
      ]

  pub release_phase-Passes :
      (s : Service) (e : Execution) (lease : Option WorkspaceLease) (t : Option Terminal)
      → Ready s.store e.run_id status
      → IsEndIfSome status t
      → Passes e.run_id (release_phase s e lease t)
  unfolding release_phase released_event
  release_phase-Passes s e none t r h = (s, t, refl, r, h)
  release_phase-Passes s e (some lease) t r h =
      let (u, changed) = release_workspace_lease e.released_at s.store lease in
      let k = release-Ready e.released_at s.store lease e.run_id status r in
      elim (Bool-cases (release_workspace_lease e.released_at s.store lease).1) [
        | inr n ↦ (
          record s { store = u },
          after_refused_release t,
          ground (arith),
          k,
          after_refused_release-IsEnd t h,
        )
        | inl c ↦
            let (w, total, l) =
              append_and_notify_total e.released_at (record s { store = u }) e.run_id status
                workspace_lease_released
                (field "workspaceId" (text k.run.workspace_id)
                  (field "fencingToken" (number lease.fencing_token) no_fields))
                started.0 refl k in
            (w, t, ground (arith, k.found, total), l, h)
      ]
