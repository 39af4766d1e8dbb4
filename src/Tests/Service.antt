-- ===== src/Tests/Service.antt =====
-- The theorems on the run service at the small database.
use lite_harness.Common.{
  find_by, arith, Bool-cases, inl, inr, ◌==◌, if◌then◌else◌, ◌≡◌, ◌≢◌, refl, some, none, ok, err,
  List, Result, ◌≤◌, String, [], ◌∷◌, true, false, eq_iff, ℕ, sym, ◌<◌, subst,
}
use mathlib.Core.Option
use lite_harness.Run.Status.{
  running, checkpointing, preparing, failed, cancelled, orphaned, is_terminal_run_status,
  assert_run_transition, invalid_run_transition, RunStatus,
}
use lite_harness.Store.Rows.{RunRow, RunEventType, run_failed, run_checkpointing}
use lite_harness.Run.Record.{RunRecord}
use lite_harness.Store.Json.{no_fields, field, text}
use lite_harness.Store.Tables.{get_row, StoreError}
use lite_harness.Store.Rows.{to_run_record}
use lite_harness.Store.Events.Log.{IsLog}
use lite_harness.Service.State.{
  Service, ServiceError, AbortReason, abort, transition_error, controller_of,
}
use lite_harness.Service.Transition.{
  transition, transition_run, after_transition, tell_parent, tell_parent_with, transition_event,
  child_summary,
}
use lite_harness.Service.Transition.Parent.{transition_tells_parent, told}
use lite_harness.Service.Transition.Statuses.{transition-status_of, status_of}
use lite_harness.Service.Transition.Refinement.{Call, perform, perform-walk}
use lite_harness.Run.Transitions.{walk}
use lite_harness.Service.Finish.{
  Execution, release_threw, cleanup_debt_recorded, run_released, after_run_release, conclude,
  finish,
}
use lite_harness.Service.Ending.{Thrown, caught, checkpointed}
use lite_harness.Service.Finish.Ready.{Ready, HasFamily}
use lite_harness.Service.Finish.Completion.{threw, HasEnded, finish_total, conclude_refuses_orphan}
use lite_harness.Service.Cancel.{
  cancel_run, enforce_budget, list_child_runs, cancel_each, cancel_self,
}
use lite_harness.Service.Cancel.Completion.{cancel_run_total}
use lite_harness.Service.Cancel.Trees.{HasFamilies, Cancellable}
use lite_harness.Service.Cancel.Halting.{is_halted, is_aborted_controller}
use lite_harness.Service.Cancel.Bounds.{IsWithinBudget, enforce_budget-aborts}
use lite_harness.Service.Recovery.{reconcile_interrupted_runs}
use lite_harness.Service.Recovery.Completion.{has_unique_ids, status_after_restart, reconcile_total}
use lite_harness.Tests.Data.{store, lease, row}
use lite_harness.Tests.Store.{store-IsLog, store_code}

abbrev service : Service
service = record {
  store = store;
  active = record { run_id = "run_1"; reason = none } ∷ [];
  notified = [];
}

-- The service after the child "run_2" has failed.
abbrev after_failure : Service
after_failure =
    told 9 service "run_2" failed run_failed no_fields (row "run_2" (some "run_1") running 1)
      "run_1" (row "run_1" none running 2)

distinct : (s t : String) → (s == t) ≡ false → s ≢ t
distinct s t h e = ground (arith, eq_iff s t)

service_code : Unit {0}
unfolding is_terminal_run_status assert_run_transition
service_code = tt

transition_tells_parent_example :
    transition 9 service "run_2" failed run_failed no_fields ≡ ok after_failure
unfolding service_code
transition_tells_parent_example =
    transition_tells_parent 9 service "run_2" failed run_failed no_fields "run_1"
      (row "run_2" (some "run_1") running 1) (row "run_1" none running 2) store-IsLog refl refl refl
      (distinct "run_1" "run_2" refl) (distinct "run_2" "" refl) refl refl refl

transition-status_of_example :
    (old : RunStatus) × (status_of service.store "run_2" ≡ some old)
    × (assert_run_transition old failed ≡ ok tt)
    × ((id : String)
        → status_of after_failure.store id
          ≡ (if "run_2" == id then some failed else status_of service.store id))
transition-status_of_example =
    transition-status_of 9 service "run_2" failed run_failed no_fields after_failure
      transition_tells_parent_example

service_ids : has_unique_ids service.store.runs ≡ true
service_ids = refl

abbrev calls : List Call
calls =
    record { now = 9; run_id = "run_2"; status = failed; type = run_failed; payload = no_fields }
    ∷ record {
      now = 10;
      run_id = "run_1";
      status = checkpointing;
      type = run_checkpointing;
      payload = no_fields;
    }
    ∷ []

abbrev returned : Result ServiceError Service → Service
returned (err _) = service
returned (ok t) = t

both_performed : perform service calls ≡ ok (returned (perform service calls))
unfolding service_code store_code perform transition transition_run after_transition tell_parent
    tell_parent_with transition_event child_summary
both_performed = refl

perform-walk_example :
    (new : RunStatus) × (walk running (failed ∷ []) ≡ ok new)
    × (status_of (returned (perform service calls)).store "run_2" ≡ some new)
    × (1 ≤ 5)
perform-walk_example =
    perform-walk service (returned (perform service calls)) calls "run_2" running both_performed
      refl

abbrev error_text : StoreError → String
error_text e = "failed"

-- The execution of "run_1", whose lease has run out.
abbrev execution : Execution
execution = record {
  run_id = "run_1";
  workspace_prepared = true;
  lease = some lease;
  lease_loss = false;
  has_attempt = true;
  checkpoint = checkpointed no_fields;
  release = cleanup_debt_recorded;
  validated_at = 60;
  checkpointed_at = 61;
  released_at = 62;
  finished_at = 63;
}

run_1-Ready : Ready service.store "run_1" running
run_1-Ready = record {
  log = store-IsLog;
  run = row "run_1" none running 2;
  found = refl;
  current = refl;
  family = tt;
}

finish_total_example :
    (u : Service) × (finish error_text service execution
        (some (caught (some AbortReason.run_cancelled) Thrown.lease_lost))
      ≡ ok u)
    × HasEnded "run_1" u
finish_total_example =
    finish_total error_text service execution running
      (caught (some AbortReason.run_cancelled) Thrown.lease_lost) run_1-Ready
      (threw (some AbortReason.run_cancelled) Thrown.lease_lost refl refl) refl

-- A run whose workspace is being prepared, alone in its database.
abbrev preparing_service : Service
preparing_service = record {
  store = record {
    runs = row "run_1" none preparing 0 ∷ [];
    events = [];
    attempts = [];
    leases = [];
    approvals = [];
  };
  active = [];
  notified = [];
}

preparing-IsLog : IsLog preparing_service.store
preparing-IsLog id = elim (Bool-cases ("run_1" == id)) [ inl a ↦ rw a refl | inr a ↦ rw a refl ]

preparing-Ready : Ready preparing_service.store "run_1" preparing
preparing-Ready = record {
  log = preparing-IsLog;
  run = row "run_1" none preparing 0;
  found = refl;
  current = refl;
  family = tt;
}

release_threw-is_not-run_released : release_threw ≢ run_released
release_threw-is_not-run_released h = cc

conclude_refuses_orphan_example :
    conclude 5 preparing_service "run_1" true (after_run_release release_threw none)
    ≡ err (transition_error (invalid_run_transition preparing orphaned))
conclude_refuses_orphan_example =
    conclude_refuses_orphan 5 preparing_service "run_1" preparing true release_threw none
      preparing-Ready refl release_threw-is_not-run_released

-- The service after "run_1" and its child were cancelled.
abbrev child_cancelled : Service
child_cancelled =
    told 9 service "run_2" cancelled RunEventType.run_cancelled
      (field "reason" (text "requested") no_fields) (row "run_2" (some "run_1") running 1) "run_1"
      (row "run_1" none running 2)

abbrev both_cancelled : Service
both_cancelled = abort "run_1" AbortReason.run_cancelled child_cancelled

cancel_code : Unit {0}
unfolding cancel_run list_child_runs cancel_each cancel_self transition transition_run
    after_transition tell_parent tell_parent_with transition_event child_summary store_code
    service_code told
cancel_code = tt

both_are_cancelled : cancel_run 2 9 service "run_1" ≡ ok both_cancelled
unfolding cancel_code
both_are_cancelled = refl

-- The children are one level below.
abbrev rank : String → ℕ
rank id = if id == "run_1" then 0 else 1

nothing_at : (run : RunRow) → get_row service.store "" ≡ some run → ⊥
nothing_at run h = cc

child_family :
    (id : String) (run : RunRow)
    → ("run_1" == id) ≡ false
    → ("" == id) ≡ false
    → run.parent_run_id ≡ some "run_1"
    → HasFamily service.store id run.parent_run_id
child_family id run other named child = rw child (
    (
      ground (arith, eq_iff "run_1" id),
      ground (arith, eq_iff "" id),
      row "run_1" none running 2,
      refl,
    ))

root_family :
    (id : String) (run : RunRow)
    → run.parent_run_id ≡ none
    → HasFamily service.store id run.parent_run_id
root_family id run root = rw root tt

families : HasFamilies service.store
families id run found = elim (Bool-cases ("run_1" == id)) [
  | inl first ↦ root_family id run (ground (arith, found, first))
  | inr other ↦ elim (Bool-cases ("" == id)) [
    | inl nameless ↦
        let at : "" ≡ id = (eq_iff "" id).0 nameless in
        absurd (nothing_at run (subst (λ j. get_row service.store j ≡ some run) (sym at) found))
    | inr named ↦ child_family id run other named (ground (arith, found, other))
  ]
]

service-Cancellable : Cancellable rank 1 service
service-Cancellable = record {
  log = store-IsLog;
  placed = refl;
  families = families;
  stoppable = λ id. ground arith;
}

cancel_run_total_example :
    (t : Service) × (cancel_run 2 9 service "run_1" ≡ ok t)
    × (is_halted t "run_1" ≡ true)
    × ((id : String) (child : RunRow)
        → get_row service.store id ≡ some child
        → child.parent_run_id ≡ some "run_1"
        → is_halted t child.id ≡ true)
    × ((id : String) → is_halted service id ≡ true → is_halted t id ≡ true)
    × ((id : String) → rank id < rank "run_1" → status_of t.store id ≡ status_of service.store id)
unfolding is_terminal_run_status
cancel_run_total_example =
    cancel_run_total rank 1 2 9 service "run_1" (row "run_1" none running 2) service-Cancellable
      (omega arith) refl refl

-- The record of "run_1", over its tool calls.
abbrev over : RunRecord
over = record (to_run_record (row "run_1" none running 2)) {
  usage = record { input_tokens = none; output_tokens = none; cost_usd = none; tool_calls = 33 };
}

enforce_budget-aborts_example :
    (IsWithinBudget over → enforce_budget service over ≡ service)
    × (¬ IsWithinBudget over
        → is_aborted_controller (find_by controller_of over.id (enforce_budget service over).active)
          ≡ true)
unfolding to_run_record
enforce_budget-aborts_example = enforce_budget-aborts service over refl

-- Both live runs of the database are orphaned, and the ended one stays as it is.
reconcile_total_example :
    (t : Service) × (reconcile_interrupted_runs 20 service ≡ ok t)
    × IsLog t.store
    × ((id : String)
        → status_of t.store id ≡ Option.map status_after_restart (get_row service.store id))
reconcile_total_example = reconcile_total 20 service store-IsLog service_ids
