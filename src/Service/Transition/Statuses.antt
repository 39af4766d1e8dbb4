-- ===== src/Service/Transition/Statuses.antt =====
-- A transition changes the status of its run and of no other.
use lite_harness.Common.{
  ℕ, String, ◌≡◌, some, none, arith, eq_iff, refl, ok, err, Option, along, Result, if◌then◌else◌,
  ◌==◌,
}
use mathlib.Core.Option
use lite_harness.Run.Status.{RunStatus, assert_run_transition}
use lite_harness.Run.Record.{or_else}
use lite_harness.Store.Json.{Fields}
use lite_harness.Store.Rows.{RunEvent, RunEventType}
use lite_harness.Store.Tables.{Store, get_row, StoreError}
use lite_harness.Store.Events.{append_event, AppendRunEvent, apply_event}
use lite_harness.Store.Events.Log.{get_row-append}
use lite_harness.Store.Events.Append.{append_event-Appended}
use lite_harness.Service.State.{Service}
use lite_harness.Service.Transition.{
  transition, transition_event, child_summary, after_transition, tell_parent, tell_parent_with,
}
use lite_harness.Service.Transition.Log.{transition-Transitioned, drop_summary-store}

-- The status of each run.
abbrev pub status_of : Store → String → Option RunStatus
status_of s id = Option.map (λ r. r.status) (get_row s id)

pub status_of-append :
    (now : ℕ) (s : Store) (params : AppendRunEvent) (t : Store) (e : RunEvent) (id : String)
    → append_event now s params ≡ ok (t, e)
    → status_of t id ≡ (
        if params.run_id == id
        then Option.map (λ old. or_else params.status old) (status_of s id)
        else status_of s id)
unfolding apply_event
status_of-append now s params t e id h =
    let a = append_event-Appended now s params t e h in
    ground (arith, get_row-append now s params t e a id)

tell_parent_with-status_of :
    (s : Service) (parent_id : String) (r : Result StoreError (Store × RunEvent)) (t : Service)
    (id : String)
    → ((u : Store) (e : RunEvent) → r ≡ ok (u, e) → status_of u id ≡ status_of s.store id)
    → tell_parent_with s parent_id r ≡ ok t
    → status_of t.store id ≡ status_of s.store id
unfolding tell_parent_with
tell_parent_with-status_of s parent_id (err e) t id keeps h =
    rw (drop_summary-store s parent_id e t h) refl
tell_parent_with-status_of s parent_id (ok (u, e)) t id keeps h =
    along (λ v. status_of v.store id ≡ status_of s.store id) h (keeps u e refl)

tell_parent-status_of :
    (now : ℕ) (s : Service) (parent_id run_id : String) (status : RunStatus) (payload : Fields)
    (t : Service) (id : String)
    → tell_parent now s parent_id run_id status payload ≡ ok t
    → status_of t.store id ≡ status_of s.store id
unfolding tell_parent child_summary
tell_parent-status_of now s parent_id run_id status payload t id h =
    tell_parent_with-status_of s parent_id _ t id
      (λ u e
          (r : append_event now s.store (child_summary s.store parent_id run_id status payload)
            ≡ ok (u, e)).
        ground (
          arith,
          status_of-append now s.store (child_summary s.store parent_id run_id status payload) u e
              id r,
        ))
      h

after_transition-status_of :
    (now : ℕ) (s : Service) (run_id : String) (status : RunStatus) (payload : Fields)
    (parent : Option String) (t : Service) (id : String)
    → after_transition now s run_id status payload parent ≡ ok t
    → status_of t.store id ≡ status_of s.store id
unfolding after_transition
after_transition-status_of now s run_id status payload none t id h =
    along (λ v. status_of v.store id ≡ status_of s.store id) h refl
after_transition-status_of now s run_id status payload (some p) t id h =
    tell_parent-status_of now s p run_id status payload t id h

-- A transition that returns found its run in a status from which the table allows the new one, put
-- the run into the new status, and left every other run, the parent too, in the status it had.
pub transition-status_of :
    (now : ℕ) (s : Service) (run_id : String) (status : RunStatus) (type : RunEventType)
    (payload : Fields) (t : Service)
    → transition now s run_id status type payload ≡ ok t
    → (old : RunStatus) × (status_of s.store run_id ≡ some old)
      × (assert_run_transition old status ≡ ok tt)
      × ((id : String)
          → status_of t.store id ≡ (if run_id == id then some status else status_of s.store id))
unfolding transition_event
transition-status_of now s run_id status type payload t h =
    let c = transition-Transitioned now s run_id status type payload t h in
    (
      c.run.status,
      ground (arith, c.found),
      c.allowed,
      λ id. ground (
        arith,
        after_transition-status_of now _ run_id status payload _ t id c.rest,
        status_of-append now s.store (transition_event run_id status type payload) c.middle c.event
            id c.appended,
        c.found,
        eq_iff run_id id,
      ),
    )
