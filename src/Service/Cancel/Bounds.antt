-- ===== src/Service/Cancel/Bounds.antt =====
-- An execution is stopped exactly when its run is over its budget.
use lite_harness.Common.{
  ℕ, true, false, ◌≡◌, ◌≤◌, some, none, arith, refl, Option, Option-cases, inl, inr, find_by,
  find_by-update_by, eq_refl,
}
use lite_harness.Run.Record.{RunRecord}
use lite_harness.Service.State.{Service, controller_of, abort_with, is_active, budget_exceeded}
use lite_harness.Service.Cancel.{enforce_budget, exceeded_budget, exceeds}
use lite_harness.Service.Cancel.Halting.{is_aborted_controller}

-- A reported amount is within its bound; what is not reported is not judged.
abbrev Within : Option ℕ → ℕ → Type 0
Within none limit = Unit {0}
Within (some used) limit = used ≤ limit

pub record IsWithinBudget (run : RunRecord) : Type 0 where
  pub input_tokens : Within run.usage.input_tokens run.budget.max_input_tokens
  pub output_tokens : Within run.usage.output_tokens run.budget.max_output_tokens
  pub cost : Within run.usage.cost_usd run.budget.max_cost_usd
  pub tool_calls : run.usage.tool_calls ≤ run.budget.max_tool_calls

exceeds-Within : (o : Option ℕ) (limit : ℕ) → exceeds o limit ≡ false → Within o limit
exceeds-Within none limit h = tt
exceeds-Within (some used) limit h = ground arith

Within-exceeds : (o : Option ℕ) (limit : ℕ) → Within o limit → exceeds o limit ≡ false
Within-exceeds none limit h = refl
Within-exceeds (some used) limit h = ground arith

exceeded_budget-none : (run : RunRecord) → exceeded_budget run ≡ none → IsWithinBudget run
unfolding exceeded_budget
exceeded_budget-none run h = record {
  input_tokens = exceeds-Within run.usage.input_tokens run.budget.max_input_tokens (ground arith);
  output_tokens =
      exceeds-Within run.usage.output_tokens run.budget.max_output_tokens (ground arith);
  cost = exceeds-Within run.usage.cost_usd run.budget.max_cost_usd (ground arith);
  tool_calls = ground arith;
}

exceeded_budget_within : (run : RunRecord) → IsWithinBudget run → exceeded_budget run ≡ none
unfolding exceeded_budget
exceeded_budget_within run w =
    let i = Within-exceeds run.usage.input_tokens run.budget.max_input_tokens w.input_tokens in
    let o = Within-exceeds run.usage.output_tokens run.budget.max_output_tokens w.output_tokens in
    let c = Within-exceeds run.usage.cost_usd run.budget.max_cost_usd w.cost in
    ground (arith, i, o, c, w.tool_calls)

-- Of an execution that is going on: within its budget nothing happens to it, and over one of the
-- four bounds its signal is aborted.
pub enforce_budget-aborts :
    (s : Service) (run : RunRecord)
    → is_active run.id s ≡ true
    → (IsWithinBudget run → enforce_budget s run ≡ s)
      × (¬ IsWithinBudget run
          → is_aborted_controller (find_by controller_of run.id (enforce_budget s run).active)
            ≡ true)
unfolding enforce_budget
enforce_budget-aborts s run active = (
  λ w. ground (arith, exceeded_budget_within run w),
  λ over. elim (Option-cases (exceeded_budget run)) [
    | inl n ↦ absurd (over (exceeded_budget-none run n))
    | inr (m, e) ↦ ground (
      arith,
      e,
      eq_refl run.id,
      find_by-update_by controller_of run.id run.id (abort_with (budget_exceeded m)) (λ c. refl)
          s.active,
    )
  ],
)
