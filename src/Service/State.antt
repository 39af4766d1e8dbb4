-- ===== src/Service/State.antt =====
-- The state of the run service: packages/control-plane/src/index.ts (`RunService`, its fields, its
-- errors and `#notify`).
use lite_harness.Common.{
  String, Bool, true, false, Option, some, none, List, [], ◌∷◌, ◌++◌, Result, ok, err, find_by,
  update_by,
}
use lite_harness.Run.Status.{TransitionError}
use lite_harness.Store.Tables.{Store, StoreError}

-- Why the signal of an execution was aborted; with the error's message where it varies.
pub data AbortReason : Type 0 where
  run_cancelled workspace_lease_lost : AbortReason
  run_timeout budget_exceeded : String → AbortReason

-- An entry of `#active`: the controller of an execution, with the reason once it is aborted.
pub record Controller : Type 0 where
  pub run_id : String
  pub reason : Option AbortReason

-- `notified` lists the runs whose listeners were told of an event, oldest first.
pub record Service : Type 0 where
  pub store : Store
  pub active : List Controller
  pub notified : List String

pub data ServiceError : Type 0 where
  store_error : StoreError → ServiceError
  transition_error : TransitionError → ServiceError
  run_missing : String → ServiceError
  out_of_fuel : ServiceError

abbrev pub lift_store {ℓ} : {A : Type ℓ} → Result StoreError A → Result ServiceError A
lift_store (err e) = err (store_error e)
lift_store (ok a) = ok a

abbrev pub lift_transition {ℓ} : {A : Type ℓ} → Result TransitionError A → Result ServiceError A
lift_transition (err e) = err (transition_error e)
lift_transition (ok a) = ok a

abbrev pub notify : String → Service → Service
notify run_id s = record s { notified = s.notified ++ run_id ∷ [] }

abbrev pub controller_of : Controller → String
controller_of c = c.run_id

-- `controller.abort(reason)`: the first reason stays.
abbrev pub abort_with : AbortReason → Controller → Controller
abort_with reason c = record c { reason = elim c.reason [ none ↦ some reason | some r ↦ some r ] }

abbrev pub abort : String → AbortReason → Service → Service
abort run_id reason s = record s {
  active = update_by controller_of run_id (abort_with reason) s.active;
}

abbrev pub is_active : String → Service → Bool
is_active run_id s = elim (find_by controller_of run_id s.active) [ none ↦ false | some _ ↦ true ]
