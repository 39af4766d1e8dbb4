-- ===== src/Service/Cancel.antt =====
-- Cancellation and the bounds of a run: packages/control-plane/src/index.ts (`cancelRun`,
-- `#enforceBudget`, the cancellations of `shutdown`) and packages/storage-sqlite/src/index.ts
-- (`listChildRuns`).
pub mod Completion
pub mod Halting
pub mod Bounds
pub mod Trees
use lite_harness.Common.{
  is_le, ℕ, suc, zero, String, Bool, true, false, ◌&&◌, ◌||◌, not, Option, some, none, List, [],
  ◌∷◌, Result, ok, err, ◌>>=◌, if◌then◌else◌, keep, ◌==◌, ltb, eqb,
}
use Prim.Native.String.{compare}
use lite_harness.Run.Status.{RunStatus, cancelled, is_terminal_run_status}
use lite_harness.Run.Record.{RunRecord}
use lite_harness.Store.Json.{Fields, no_fields, field, text}
use lite_harness.Store.Rows.{RunRow, RunEventType, run_cancelled}
use lite_harness.Store.Tables.{Store, get_row}
use lite_harness.Service.State.{
  Service, ServiceError, AbortReason, budget_exceeded, abort, is_active, out_of_fuel,
}
use lite_harness.Service.Transition.{transition}

abbrev pub is_child_of : String → RunRow → Bool
is_child_of parent_id row = elim row.parent_run_id [ none ↦ false | some p ↦ p == parent_id ]

-- `ORDER BY created_at ASC, id ASC`
abbrev comes_before : RunRow → RunRow → Bool
comes_before a b =
    ltb a.created_at b.created_at || eqb a.created_at b.created_at && is_le (compare a.id b.id)

unfoldable pub insert_run : RunRow → List RunRow → List RunRow
insert_run row [] = row ∷ []
insert_run row (x ∷ xs) =
    let rest = insert_run row xs in if comes_before row x then row ∷ x ∷ xs else x ∷ rest

unfoldable pub sort_runs : List RunRow → List RunRow
unfolding insert_run
sort_runs [] = []
sort_runs (x ∷ xs) = insert_run x (sort_runs xs)

unfoldable pub list_child_runs : Store → String → List RunRow
unfolding sort_runs
list_child_runs s parent_id = sort_runs (keep (is_child_of parent_id) s.runs)

-- `for (const child of children) this.cancelRun(child.id)`
unfoldable pub cancel_each :
    (Service → String → Result ServiceError Service)
    → List RunRow
    → Service
    → Result ServiceError Service
cancel_each cancel [] s = ok s
cancel_each cancel (c ∷ cs) s = cancel s c.id >>= cancel_each cancel cs

-- The run itself, after its children.
unfoldable pub cancel_self : ℕ → String → Service → Result ServiceError Service
cancel_self now run_id s =
    if is_active run_id s
    then ok (abort run_id AbortReason.run_cancelled s)
    else transition now s run_id cancelled RunEventType.run_cancelled
        (field "reason" (text "requested") no_fields)

-- The fuel bounds the depth of the tree of runs.
unfoldable pub cancel_run : ℕ → ℕ → Service → String → Result ServiceError Service
unfolding cancel_each cancel_self
cancel_run zero now s run_id = err out_of_fuel
cancel_run (suc fuel) now s run_id = elim (get_row s.store run_id) [
  | none ↦ ok s
  | some run ↦
      if is_terminal_run_status run.status
      then ok s
      else (cancel_each (cancel_run fuel now) (list_child_runs s.store run_id) s
          >>= cancel_self now run_id)
]

-- The first bound that the usage is over, as the message of the error.
abbrev pub exceeds : Option ℕ → ℕ → Bool
exceeds none limit = false
exceeds (some used) limit = ltb limit used

unfoldable pub exceeded_budget : RunRecord → Option String
exceeded_budget run =
    if exceeds run.usage.input_tokens run.budget.max_input_tokens
    then some "Run exceeded its input token budget"
    else (if exceeds run.usage.output_tokens run.budget.max_output_tokens
        then some "Run exceeded its output token budget"
        else (if exceeds run.usage.cost_usd run.budget.max_cost_usd
            then some "Run exceeded its cost budget"
            else (if ltb run.budget.max_tool_calls run.usage.tool_calls
                then some "Run exceeded its tool call budget"
                else none)))

unfoldable pub enforce_budget : Service → RunRecord → Service
unfolding exceeded_budget
enforce_budget s run = elim (exceeded_budget run) [
  | none ↦ s
  | some message ↦ abort run.id (budget_exceeded message) s
]
