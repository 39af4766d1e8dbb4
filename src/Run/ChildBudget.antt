-- ===== src/Run/ChildBudget.antt =====
-- What a parent run may hand to a subagent: packages/control-plane/src/index.ts
-- (`remainingChildBudget`, `boundedChildBudget`).
-- `Math.max(0, a - b)` is the truncated difference of numbers.
pub mod Allocation
use lite_harness.Common.{
  ℕ, ◌+◌, ◌-◌, min, max, Bool, ◌||◌, List, [], ◌∷◌, Option, some, none, Result, ok, leb, ltb,
  throw_if, ◌>>◌,
}
use lite_harness.Run.Record.{RunBudget, RunBudgetOverrides, RunRecord, or_else}

pub data ChildBudgetError : Type 0 where
  max_turns_exceeds max_input_tokens_exceeds max_output_tokens_exceeds : ChildBudgetError
  max_tool_calls_exceeds max_cost_usd_exceeds : ChildBudgetError
  total_timeout_exceeds model_idle_timeout_exceeds command_timeout_exceeds : ChildBudgetError

-- One round of the `reduce` over the children.
abbrev add_budget : RunBudget → RunBudget → RunBudget
add_budget sum child = record {
  max_turns = sum.max_turns + child.max_turns;
  max_tool_calls = sum.max_tool_calls + child.max_tool_calls;
  max_input_tokens = sum.max_input_tokens + child.max_input_tokens;
  max_output_tokens = sum.max_output_tokens + child.max_output_tokens;
  max_cost_usd = sum.max_cost_usd + child.max_cost_usd;
  total_timeout_ms = max sum.total_timeout_ms child.total_timeout_ms;
  model_idle_timeout_ms = max sum.model_idle_timeout_ms child.model_idle_timeout_ms;
  command_timeout_ms = max sum.command_timeout_ms child.command_timeout_ms;
}

abbrev no_budget : RunBudget
no_budget = record {
  max_turns = 0;
  max_tool_calls = 0;
  max_input_tokens = 0;
  max_output_tokens = 0;
  max_cost_usd = 0;
  total_timeout_ms = 0;
  model_idle_timeout_ms = 0;
  command_timeout_ms = 0;
}

pub allocated_from : RunBudget → List RunRecord → RunBudget
allocated_from sum [] = sum
allocated_from sum (c ∷ cs) = allocated_from (add_budget sum c.budget) cs

unfoldable pub allocated : List RunRecord → RunBudget
unfolding allocated_from
allocated children = allocated_from no_budget children

-- `usage === null ? 0 : Math.max(0, budget - usage - allocated)`
abbrev left_of : ℕ → Option ℕ → ℕ → ℕ
left_of budget none taken = 0
left_of budget (some used) taken = budget - used - taken

unfoldable pub remaining_child_budget : RunRecord → List RunRecord → RunBudget
remaining_child_budget parent children = record {
  max_turns = budget.max_turns - taken.max_turns;
  max_tool_calls = budget.max_tool_calls - taken.max_tool_calls;
  max_input_tokens = left_of budget.max_input_tokens usage.input_tokens taken.max_input_tokens;
  max_output_tokens = left_of budget.max_output_tokens usage.output_tokens taken.max_output_tokens;
  max_cost_usd = left_of budget.max_cost_usd usage.cost_usd taken.max_cost_usd;
  total_timeout_ms = budget.total_timeout_ms;
  model_idle_timeout_ms = budget.model_idle_timeout_ms;
  command_timeout_ms = budget.command_timeout_ms;
}
  where
    open parent use {budget, usage}

    taken : RunBudget
    taken = allocated children

-- What the child asks for, with the defaults of the source.
pub requested_budget : RunBudgetOverrides → RunBudget → RunBudget → RunBudget
requested_budget requested parent available = record {
  max_turns = or_else requested.max_turns (min 4 available.max_turns);
  max_tool_calls = or_else requested.max_tool_calls (min 8 available.max_tool_calls);
  max_input_tokens = or_else requested.max_input_tokens (min 64_000 available.max_input_tokens);
  max_output_tokens = or_else requested.max_output_tokens (min 16_000 available.max_output_tokens);
  max_cost_usd = or_else requested.max_cost_usd (min 5_000_000 available.max_cost_usd);
  total_timeout_ms = or_else requested.total_timeout_ms (min 300_000 parent.total_timeout_ms);
  model_idle_timeout_ms = or_else requested.model_idle_timeout_ms parent.model_idle_timeout_ms;
  command_timeout_ms = or_else requested.command_timeout_ms parent.command_timeout_ms;
}

-- `budget <= 0 || budget > limit`
abbrev outside : ℕ → ℕ → Bool
outside budget limit = leb budget 0 || ltb limit budget

pub check_child_budget : RunBudget → RunBudget → RunBudget → Result ChildBudgetError RunBudget
check_child_budget budget parent available = do
  throw_if (outside budget.max_turns available.max_turns) max_turns_exceeds
  throw_if (outside budget.max_input_tokens available.max_input_tokens) max_input_tokens_exceeds
  throw_if (outside budget.max_output_tokens available.max_output_tokens) max_output_tokens_exceeds
  throw_if (ltb available.max_tool_calls budget.max_tool_calls) max_tool_calls_exceeds
  throw_if (ltb available.max_cost_usd budget.max_cost_usd) max_cost_usd_exceeds
  throw_if (outside budget.total_timeout_ms parent.total_timeout_ms) total_timeout_exceeds
  throw_if (outside budget.model_idle_timeout_ms parent.model_idle_timeout_ms)
      model_idle_timeout_exceeds
  throw_if (outside budget.command_timeout_ms parent.command_timeout_ms) command_timeout_exceeds
  ok budget

unfoldable pub bounded_child_budget :
    RunBudgetOverrides → RunRecord → RunBudget → Result ChildBudgetError RunBudget
unfolding requested_budget check_child_budget
bounded_child_budget requested parent available =
    check_child_budget (requested_budget requested parent.budget available) parent.budget available
