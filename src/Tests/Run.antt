-- ===== src/Tests/Run.antt =====
-- The theorems on statuses and budgets at concrete inputs.
use lite_harness.Common.{◌≡◌, refl, ◌∷◌, [], none, ok, arith}
use lite_harness.Run.Status.{
  accepted, queued, preparing, running, succeeded, is_terminal_run_status, assert_run_transition,
  allowed_transitions,
}
use lite_harness.Run.Transitions.{walk, is_terminal-iff-no_transitions}
use lite_harness.Run.Record.{RunBudget, RunRecord, no_overrides}
use lite_harness.Run.ChildBudget.{allocated, remaining_child_budget, bounded_child_budget}
use lite_harness.Run.ChildBudget.Allocation.{IsWithin, bounded_child_budget-IsWithin}
use lite_harness.Store.Rows.{to_run_record}
use lite_harness.Tests.Data.{row}

is_terminal-iff-no_transitions_example : allowed_transitions succeeded ≡ []
unfolding is_terminal_run_status
is_terminal-iff-no_transitions_example = (is_terminal-iff-no_transitions succeeded).0 refl

walk_ok : walk accepted (queued ∷ preparing ∷ running ∷ succeeded ∷ []) ≡ ok succeeded
unfolding walk assert_run_transition
walk_ok = refl

parent : RunRecord
unfolding to_run_record
parent = to_run_record (row "run_1" none running 2)

-- What a child gets that asks for nothing.
abbrev granted : RunBudget
granted = record {
  max_turns = 4;
  max_tool_calls = 8;
  max_input_tokens = 64_000;
  max_output_tokens = 16_000;
  max_cost_usd = 5_000_000;
  total_timeout_ms = 300_000;
  model_idle_timeout_ms = 120_000;
  command_timeout_ms = 300_000;
}

child : RunRecord
unfolding parent
child = record parent { budget = granted }

child_granted :
    bounded_child_budget no_overrides parent (remaining_child_budget parent []) ≡ ok granted
unfolding bounded_child_budget remaining_child_budget parent allocated
child_granted = refl

none-IsWithin : IsWithin parent.budget []
unfolding parent
none-IsWithin = omega arith

bounded_child_budget-IsWithin_example : IsWithin parent.budget (child ∷ [])
unfolding child
bounded_child_budget-IsWithin_example =
    bounded_child_budget-IsWithin no_overrides parent [] child none-IsWithin child_granted

silent : RunRecord
unfolding parent
silent = record parent { usage = record parent.usage { input_tokens = none } }
