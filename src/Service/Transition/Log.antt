-- ===== src/Service/Transition/Log.antt =====
-- Every operation of a run's status keeps the event logs gapless, and moves runs by the table only.
use lite_harness.Common.{
  ℕ, String, ◌≡◌, some, none, arith, refl, ok, err, Option, Result, along, Option-cases,
  returned_before, inl, inr,
}
use lite_harness.Run.Status.{RunStatus, TransitionError, assert_run_transition}
use lite_harness.Store.Json.{Fields}
use lite_harness.Store.Rows.{RunEvent}
use lite_harness.Store.Events.{AppendRunEvent}
use lite_harness.Store.Tables.{Store, StoreError}
use lite_harness.Store.Events.Log.{IsLog, append_event-IsLog}
use lite_harness.Service.State.{Service, lift_store, lift_transition, notify}
use lite_harness.Service.Transition.{
  child_summary, after_transition, tell_parent, tell_parent_with, drop_summary, parent_to_tell,
  transition_run, RunEventType, transition, RunRow, transition_event, get_row, append_event,
}

pub drop_summary-store :
    (s : Service) (parent_id : String) (e : StoreError) (t : Service)
    → drop_summary s parent_id e ≡ ok t
    → t ≡ s
unfolding drop_summary
drop_summary-store s parent_id e t h = ground arith

returned_lift_store :
    {A : Type 0} (r : Result StoreError A) (a : A) → lift_store r ≡ ok a → r ≡ ok a
returned_lift_store (err e) a h = cc
returned_lift_store (ok b) a h = along (λ c. ◌≡◌ {A = Result StoreError _} (ok b) (ok c)) h refl

returned_lift_transition :
    {A : Type 0} (r : Result TransitionError A) (a : A) → lift_transition r ≡ ok a → r ≡ ok a
returned_lift_transition (err e) a h = cc
returned_lift_transition (ok b) a h =
    along (λ c. ◌≡◌ {A = Result TransitionError _} (ok b) (ok c)) h refl

-- What is known of a transition that returned.
pub record Transitioned (now : ℕ) (s : Service) (run_id : String) (status : RunStatus)
    (type : RunEventType) (payload : Fields) (t : Service) : Type 0 where
  pub run : RunRow
  pub found : get_row s.store run_id ≡ some run
  pub allowed : assert_run_transition run.status status ≡ ok tt
  pub middle : Store
  pub event : RunEvent
  pub appended :
      append_event now s.store (transition_event run_id status type payload) ≡ ok (middle, event)
  pub rest :
      after_transition now
        (notify run_id (record s { store = middle }))
        run_id
        status
        payload
        (parent_to_tell status run)
      ≡ ok t

transition_run-Transitioned :
    (now : ℕ) (s : Service) (run_id : String) (status : RunStatus) (type : RunEventType)
    (payload : Fields) (run : RunRow) (t : Service)
    → get_row s.store run_id ≡ some run
    → transition_run now s run_id status type payload run ≡ ok t
    → Transitioned now s run_id status type payload t
unfolding transition_run
transition_run-Transitioned now s run_id status type payload run t found h =
    let (_, h1, allowed) =
      returned_before _ (lift_transition (assert_run_transition run.status status)) h in
    let ((u, e), h2, appended) =
      returned_before _
        (lift_store (append_event now s.store (transition_event run_id status type payload))) h1 in
    record {
      run = run;
      found = found;
      allowed = returned_lift_transition _ tt allowed;
      middle = u;
      event = e;
      appended = returned_lift_store _ (u, e) appended;
      rest = h2;
    }

pub transition-Transitioned :
    (now : ℕ) (s : Service) (run_id : String) (status : RunStatus) (type : RunEventType)
    (payload : Fields) (t : Service)
    → transition now s run_id status type payload ≡ ok t
    → Transitioned now s run_id status type payload t
unfolding transition
transition-Transitioned now s run_id status type payload t h =
    elim (Option-cases (get_row s.store run_id)) [
      | inl n ↦ ground (arith, n)
      | inr (run, found) ↦
          transition_run-Transitioned now s run_id status type payload run t found
            (ground (arith, found))
    ]

-- What every append keeps, a transition keeps: of its run and of the parent.
module _ (P : Store → Type 0)
    (keeps : (now : ℕ) (s : Store) (params : AppendRunEvent) (t : Store) (e : RunEvent)
      → P s
      → append_event now s params ≡ ok (t, e)
      → P t) where
  tell_parent_with-keeps :
      (s : Service) (parent_id : String) (r : Result StoreError (Store × RunEvent)) (t : Service)
      → P s.store
      → ((u : Store) (e : RunEvent) → r ≡ ok (u, e) → P u)
      → tell_parent_with s parent_id r ≡ ok t
      → P t.store
  unfolding tell_parent_with
  tell_parent_with-keeps s parent_id (err e) t p told h =
      rw (drop_summary-store s parent_id e t h) p
  tell_parent_with-keeps s parent_id (ok (u, e)) t p told h =
      along (λ v. P v.store) h (told u e refl)

  tell_parent-keeps :
      (now : ℕ) (s : Service) (parent_id run_id : String) (status : RunStatus) (payload : Fields)
      (t : Service)
      → P s.store
      → tell_parent now s parent_id run_id status payload ≡ ok t
      → P t.store
  unfolding tell_parent
  tell_parent-keeps now s parent_id run_id status payload t p h =
      tell_parent_with-keeps s parent_id _ t p
        (λ u e r. keeps now s.store (child_summary s.store parent_id run_id status payload) u e p r)
        h

  after_transition-keeps :
      (now : ℕ) (s : Service) (run_id : String) (status : RunStatus) (payload : Fields)
      (parent : Option String) (t : Service)
      → P s.store
      → after_transition now s run_id status payload parent ≡ ok t
      → P t.store
  unfolding after_transition
  after_transition-keeps now s run_id status payload none t p h = along (λ v. P v.store) h p
  after_transition-keeps now s run_id status payload (some parent) t p h =
      tell_parent-keeps now s parent run_id status payload t p h

  pub transition-keeps :
      (now : ℕ) (s : Service) (run_id : String) (status : RunStatus) (type : RunEventType)
      (payload : Fields) (t : Service)
      → P s.store
      → transition now s run_id status type payload ≡ ok t
      → P t.store
  transition-keeps now s run_id status type payload t p h =
      let c = transition-Transitioned now s run_id status type payload t h in
      after_transition-keeps now _ run_id status payload _ t
        (keeps now s.store (transition_event run_id status type payload) c.middle c.event p
          c.appended)
        c.rest

-- A transition that returns keeps every run's log gapless, the log of the parent too, if all logs
-- were gapless.
pub transition-IsLog :
    (now : ℕ) (s : Service) (run_id : String) (status : RunStatus) (type : RunEventType)
    (payload : Fields) (t : Service)
    → IsLog s.store
    → transition now s run_id status type payload ≡ ok t
    → IsLog t.store
transition-IsLog = transition-keeps IsLog append_event-IsLog
