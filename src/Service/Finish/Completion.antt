-- ===== src/Service/Finish/Completion.antt =====
-- Every execution that has started ends its run; one that has not cannot end as an orphan.
use lite_harness.Common.{
  ℕ, String, Bool, true, ◌≡◌, ◌≢◌, some, none, arith, eq_refl, refl, ok, err, Option,
}
use lite_harness.Run.Status.{
  RunStatus, running, checkpointing, failed, orphaned, is_terminal_run_status,
  assert_run_transition, invalid_run_transition,
}
use lite_harness.Run.Transitions.{early}
use lite_harness.Store.Json.{no_fields, field, text}
use lite_harness.Store.Rows.{run_failed}
use lite_harness.Store.Tables.{StoreError}
use lite_harness.Store.Events.Log.{IsLog}
use lite_harness.Service.State.{Service, AbortReason, transition_error}
use lite_harness.Service.Transition.{transition, transition_run}
use lite_harness.Service.Transition.Log.{transition-IsLog}
use lite_harness.Service.Transition.Statuses.{status_of, transition-status_of}
use lite_harness.Service.Finish.{
  Execution, RunRelease, run_released, cleanup_debt_recorded, release_threw, after_run_release,
  conclude, finish, forget_active,
}
use lite_harness.Service.Ending.{Terminal, Thrown, success, caught}
use lite_harness.Service.Finish.Ready.{Ready, transition_total}
use lite_harness.Service.Finish.Phases.{
  IsEnd, IsEndIfSome, HasStarted, after_run_release-IsEnd, checkpoint_phase-Passes,
  release_phase-Passes,
}

-- How the body of an execution ends, by the status of its run: in RUNNING it returned or threw, in
-- CHECKPOINTING it returned.
pub data BodyEnds (status : RunStatus) (t : Terminal) : Type 0 where
  returned : status ≡ running → t ≡ success → BodyEnds status t
  returned_to_checkpoint : status ≡ checkpointing → t ≡ success → BodyEnds status t
  threw :
      (reason : Option AbortReason) (e : Thrown)
      → status ≡ running
      → t ≡ caught reason e
      → BodyEnds status t

BodyEnds-HasStarted : (status : RunStatus) (t : Terminal) → BodyEnds status t → HasStarted status
unfolding assert_run_transition is_terminal_run_status
BodyEnds-HasStarted status t (returned p q) = rw p (refl, refl, refl)
BodyEnds-HasStarted status t (returned_to_checkpoint p q) = rw p (refl, refl, refl)
BodyEnds-HasStarted status t (threw reason e p q) = rw p (refl, refl, refl)

caught-IsEnd : (reason : Option AbortReason) (e : Thrown) → IsEnd running (caught reason e)
unfolding assert_run_transition is_terminal_run_status caught
caught-IsEnd none (Thrown.lease_lost) = (refl, refl, refl)
caught-IsEnd none (Thrown.thrown m) = (refl, refl, refl)
caught-IsEnd none (Thrown.thrown_value m) = (refl, refl, refl)
caught-IsEnd (some AbortReason.run_cancelled) e = (refl, refl, refl)
caught-IsEnd (some AbortReason.workspace_lease_lost) e = (refl, refl, refl)
caught-IsEnd (some (AbortReason.run_timeout m)) e = (refl, refl, refl)
caught-IsEnd (some (AbortReason.budget_exceeded m)) e = (refl, refl, refl)

BodyEnds-IsEnd : (status : RunStatus) (t : Terminal) → BodyEnds status t → IsEnd status t
unfolding assert_run_transition is_terminal_run_status
BodyEnds-IsEnd status t (returned p q) = rw (p, q) (refl, refl, refl)
BodyEnds-IsEnd status t (returned_to_checkpoint p q) = rw (p, q) (refl, refl, refl)
BodyEnds-IsEnd status t (threw reason e p q) = rw (p, q) (caught-IsEnd reason e)

-- The run has a terminal status, in a database with gapless logs.
abbrev pub HasEnded : String → Service → Type 0
HasEnded run_id s =
    (status : RunStatus) × (status_of s.store run_id ≡ some status)
    × (is_terminal_run_status status ≡ true)
    × IsLog s.store

transition_ends :
    (now : ℕ) (s : Service) (run_id : String) (status : RunStatus) (t : Terminal)
    → Ready s.store run_id status
    → IsEnd status t
    → (u : Service) × (transition now s run_id t.status t.type t.payload ≡ ok u) × HasEnded run_id u
transition_ends now s run_id status t r h =
    let (u, total) = transition_total now s run_id status t.status t.type t.payload h.0 h.1 h.2 r in
    let m = transition-status_of now s run_id t.status t.type t.payload u total in
    let new_status : status_of u.store run_id ≡ some t.status =
      ground (arith, m.3 run_id, eq_refl run_id) in
    let log = transition-IsLog now s run_id t.status t.type t.payload u r.log total in
    (u, total, (t.status, new_status, h.1, log))

-- What an execution without an outcome ends in.
abbrev no_result : Terminal
no_result = record {
  status = failed;
  type = run_failed;
  payload =
      field "code" (text "run_finalization_failed")
        (field "message" (text "Run execution ended without a terminal result") no_fields);
}

failed_is_terminal : is_terminal_run_status failed ≡ true
unfolding is_terminal_run_status
failed_is_terminal = refl

conclude_total :
    (now : ℕ) (s : Service) (run_id : String) (status : RunStatus) (t : Option Terminal)
    → HasStarted status
    → Ready s.store run_id status
    → IsEndIfSome status t
    → (u : Service) × (conclude now s run_id true t ≡ ok u) × HasEnded run_id u
unfolding conclude
conclude_total now s run_id status (some t) started r h =
    let (u, total, ended) = transition_ends now s run_id status t r h in
    (u, ground (arith, r.found, r.current, total, started.0), ended)
conclude_total now s run_id status none started r h =
    let (u, total, ended) =
      transition_ends now s run_id status no_result r (started.1, failed_is_terminal, refl) in
    (u, ground (arith, r.found, r.current, total, started.0), ended)

-- An execution with an attempt whose body has returned or thrown in RUNNING, or returned in
-- CHECKPOINTING, always ends its run: in a database with gapless logs where the run is there, and
-- so is its parent, another run, if it has one, the finally returns, and the run has a terminal
-- status in gapless logs, whatever the checkpoint, the release of the lease and the release of the
-- run answer.
pub finish_total :
    (error_text : StoreError → String) (s : Service) (e : Execution) (status : RunStatus)
    (t : Terminal)
    → Ready s.store e.run_id status
    → BodyEnds status t
    → e.has_attempt ≡ true
    → (u : Service) × (finish error_text s e (some t) ≡ ok u) × HasEnded e.run_id u
unfolding finish
finish_total error_text s e status t r ends attempt =
    let started = BodyEnds-HasStarted status t ends in
    let (s1, t1, c1, r1, h1) =
      checkpoint_phase-Passes status started error_text s e e.lease (some t) r
        (BodyEnds-IsEnd status t ends) in
    let (s2, t2, c2, r2, h2) = release_phase-Passes status started s1 e e.lease t1 r1 h1 in
    let (u, c3, ended) =
      conclude_total e.finished_at (forget_active e.run_id s2) e.run_id status
        (after_run_release e.release t2) started r2
        (after_run_release-IsEnd status started e.release t2 h2) in
    (u, ground (arith, c1, c2, c3, attempt), ended)

-- The last transition of a run that is ACCEPTED, QUEUED or PREPARING and whose release did not
-- succeed, to ORPHANED, is refused as invalid.
pub conclude_refuses_orphan :
    (now : ℕ) (s : Service) (run_id : String) (status : RunStatus) (has_attempt : Bool)
    (release : RunRelease) (t : Option Terminal)
    → Ready s.store run_id status
    → early status ≡ true
    → release ≢ run_released
    → conclude now s run_id has_attempt (after_run_release release t)
      ≡ err (transition_error (invalid_run_transition status orphaned))
unfolding conclude after_run_release transition transition_run assert_run_transition
    is_terminal_run_status
conclude_refuses_orphan now s run_id status has_attempt run_released t r h not_released =
    absurd (not_released refl)
conclude_refuses_orphan now s run_id status has_attempt cleanup_debt_recorded t r h not_released =
    ground (arith, r.found, r.current)
conclude_refuses_orphan now s run_id status has_attempt release_threw t r h not_released =
    ground (arith, r.found, r.current)
