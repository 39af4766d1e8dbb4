-- ===== src/Run/ChildBudget/Allocation.antt =====
-- The budgets that a parent hands out stay within its own.
use lite_harness.Common.{
  ◌≤◌, ◌<◌, ◌≡◌, refl, List, [], ◌∷◌, ◌++◌, ok, arith, subst, ℕ, none, some, ◌⊎◌, ◌≢◌, ◌+◌, Option,
  inl, inr, suc, zero,
}
use lite_harness.Run.Record.{RunBudget, RunRecord}
use lite_harness.Run.ChildBudget.{
  add_budget, no_budget, allocated_from, allocated, check_child_budget, remaining_child_budget,
  bounded_child_budget, RunBudgetOverrides, requested_budget, left_of,
}

-- The children's budgets added up, in one of their fields.
abbrev pub total : (RunBudget → ℕ) → List RunRecord → ℕ
total part [] = 0
total part (c ∷ cs) = part c.budget + total part cs

-- The sums of the children's budgets are no larger than the budget of the parent.
pub record IsWithin (budget : RunBudget) (children : List RunRecord) : Type 0 where
  pub turns : total (λ b. b.max_turns) children ≤ budget.max_turns
  pub calls : total (λ b. b.max_tool_calls) children ≤ budget.max_tool_calls
  pub input_tokens : total (λ b. b.max_input_tokens) children ≤ budget.max_input_tokens
  pub output_tokens : total (λ b. b.max_output_tokens) children ≤ budget.max_output_tokens
  pub cost : total (λ b. b.max_cost_usd) children ≤ budget.max_cost_usd

module _ (part : RunBudget → ℕ) where
  total-append :
      (cs : List RunRecord) (c : RunRecord)
      → total part (cs ++ c ∷ []) ≡ total part cs + part c.budget
  total-append [] c = omega arith
  total-append (d ∷ cs) c = omega (arith, total-append cs c)

  allocated_from-total :
      (adds : (a b : RunBudget) → part (add_budget a b) ≡ part a + part b) (cs : List RunRecord)
      (sum : RunBudget)
      → part (allocated_from sum cs) ≡ part sum + total part cs
  unfolding allocated_from
  allocated_from-total adds [] sum = omega arith
  allocated_from-total adds (c ∷ cs) sum =
      omega (arith, allocated_from-total adds cs (add_budget sum c.budget), adds sum c.budget)

  -- The reduction of the source computes the sum.
  allocated-total :
      (adds : (a b : RunBudget) → part (add_budget a b) ≡ part a + part b) (cs : List RunRecord)
      → part no_budget ≡ 0
      → part (allocated cs) ≡ total part cs
  unfolding allocated
  allocated-total adds cs nothing = omega (arith, allocated_from-total adds cs no_budget, nothing)

-- What the checks of the source leave of a budget.
record IsGranted (b parent available : RunBudget) : Type 0 where
  turns : (0 < b.max_turns) × (b.max_turns ≤ available.max_turns)
  input_tokens : (0 < b.max_input_tokens) × (b.max_input_tokens ≤ available.max_input_tokens)
  output_tokens : (0 < b.max_output_tokens) × (b.max_output_tokens ≤ available.max_output_tokens)
  calls : b.max_tool_calls ≤ available.max_tool_calls
  cost : b.max_cost_usd ≤ available.max_cost_usd
  total : (0 < b.total_timeout_ms) × (b.total_timeout_ms ≤ parent.total_timeout_ms)
  idle : (0 < b.model_idle_timeout_ms) × (b.model_idle_timeout_ms ≤ parent.model_idle_timeout_ms)
  command : (0 < b.command_timeout_ms) × (b.command_timeout_ms ≤ parent.command_timeout_ms)

check-IsGranted :
    (c b parent available : RunBudget)
    → check_child_budget c parent available ≡ ok b
    → IsGranted b parent available
unfolding check_child_budget
check-IsGranted c b parent available h = ground arith

-- A budget that a parent can afford beside its own usage and its children's budgets: no field of it is
-- more than is left, and no time is longer than the parent's. Until the parent's cost is reported, none
-- may be spent.
pub record IsAfforded (parent : RunRecord) (children : List RunRecord) (b : RunBudget)
    : Type 0 where
  pub some_turns : 0 < b.max_turns
  pub turns : total (λ b. b.max_turns) children + b.max_turns ≤ parent.budget.max_turns
  pub calls :
      total (λ b. b.max_tool_calls) children + b.max_tool_calls ≤ parent.budget.max_tool_calls
  pub used_input : ℕ
  pub input_reported : parent.usage.input_tokens ≡ some used_input
  pub input_tokens :
      used_input + total (λ b. b.max_input_tokens) children + b.max_input_tokens
      ≤ parent.budget.max_input_tokens
  pub used_output : ℕ
  pub output_reported : parent.usage.output_tokens ≡ some used_output
  pub output_tokens :
      used_output + total (λ b. b.max_output_tokens) children + b.max_output_tokens
      ≤ parent.budget.max_output_tokens
  pub cost :
      (b.max_cost_usd ≡ 0)
      ⊎ ((used : ℕ) × (parent.usage.cost_usd ≡ some used)
          × (used + total (λ b. b.max_cost_usd) children + b.max_cost_usd
              ≤ parent.budget.max_cost_usd))
  pub total_timeout : b.total_timeout_ms ≤ parent.budget.total_timeout_ms
  pub idle_timeout : b.model_idle_timeout_ms ≤ parent.budget.model_idle_timeout_ms
  pub command_timeout : b.command_timeout_ms ≤ parent.budget.command_timeout_ms

-- What is left of a part of a budget, where something is left.
left_of-some :
    (budget taken b : ℕ) (usage : Option ℕ)
    → 0 < b
    → b ≤ left_of budget usage taken
    → (used : ℕ) × (usage ≡ some used) × (used + taken + b ≤ budget)
left_of-some budget taken b none positive h = absurd (omega arith)
left_of-some budget taken b (some used) positive h = (used, refl, omega arith)

left_of-any :
    (budget taken b : ℕ) (usage : Option ℕ)
    → b ≤ left_of budget usage taken
    → (b ≡ 0) ⊎ ((used : ℕ) × (usage ≡ some used) × (used + taken + b ≤ budget))
left_of-any budget taken zero usage h = inl refl
left_of-any budget taken (suc b) usage h =
    inr (left_of-some budget taken (suc b) usage (omega arith) h)

module _ (parent : RunRecord) (children : List RunRecord) where
  turns_allocated : (allocated children).max_turns ≡ total (λ b. b.max_turns) children
  turns_allocated = allocated-total (λ b. b.max_turns) (λ _ _. refl) children refl

  calls_allocated : (allocated children).max_tool_calls ≡ total (λ b. b.max_tool_calls) children
  calls_allocated = allocated-total (λ b. b.max_tool_calls) (λ _ _. refl) children refl

  input_allocated : (allocated children).max_input_tokens ≡ total (λ b. b.max_input_tokens) children
  input_allocated = allocated-total (λ b. b.max_input_tokens) (λ _ _. refl) children refl

  output_allocated :
      (allocated children).max_output_tokens ≡ total (λ b. b.max_output_tokens) children
  output_allocated = allocated-total (λ b. b.max_output_tokens) (λ _ _. refl) children refl

  cost_allocated : (allocated children).max_cost_usd ≡ total (λ b. b.max_cost_usd) children
  cost_allocated = allocated-total (λ b. b.max_cost_usd) (λ _ _. refl) children refl

  granted-IsAfforded :
      (b : RunBudget)
      → IsWithin parent.budget children
      → IsGranted b parent.budget (remaining_child_budget parent children)
      → IsAfforded parent children b
  unfolding remaining_child_budget
  granted-IsAfforded b w g =
      let (i, i_is, i_le) =
        left_of-some parent.budget.max_input_tokens _ b.max_input_tokens parent.usage.input_tokens
          g.input_tokens.0 g.input_tokens.1 in
      let (o, o_is, o_le) =
        left_of-some parent.budget.max_output_tokens _ b.max_output_tokens
          parent.usage.output_tokens g.output_tokens.0 g.output_tokens.1 in
      record {
        some_turns = g.turns.0;
        turns = omega (arith, turns_allocated, g.turns);
        calls = omega (arith, calls_allocated, g.calls, w.calls);
        used_input = i;
        input_reported = i_is;
        input_tokens = omega (arith, input_allocated, i_le);
        used_output = o;
        output_reported = o_is;
        output_tokens = omega (arith, output_allocated, o_le);
        cost =
            subst
              (λ taken.
                (b.max_cost_usd ≡ 0)
                ⊎ ((used : ℕ) × (parent.usage.cost_usd ≡ some used)
                    × (used + taken + b.max_cost_usd ≤ parent.budget.max_cost_usd)))
              cost_allocated
              (left_of-any parent.budget.max_cost_usd _ b.max_cost_usd parent.usage.cost_usd
                g.cost);
        total_timeout = g.total.1;
        idle_timeout = g.idle.1;
        command_timeout = g.command.1;
      }

  pub bounded_child_budget-IsAfforded :
      (requested : RunBudgetOverrides) (b : RunBudget)
      → IsWithin parent.budget children
      → bounded_child_budget requested parent (remaining_child_budget parent children) ≡ ok b
      → IsAfforded parent children b
  unfolding bounded_child_budget
  bounded_child_budget-IsAfforded requested b w h =
      granted-IsAfforded b w (check-IsGranted _ b _ _ h)

  cost_within :
      (b : RunBudget)
      → IsWithin parent.budget children
      → IsAfforded parent children b
      → total (λ b. b.max_cost_usd) children + b.max_cost_usd ≤ parent.budget.max_cost_usd
  cost_within b w a = elim a.cost [
    | inl free ↦ omega (arith, free, w.cost)
    | inr (used, _, fits) ↦ omega (arith, fits)
  ]

-- A parent whose children are within its budget stays so, in each field that is added up over the
-- children, when a child with an accepted budget is added.
pub bounded_child_budget-IsWithin :
    (requested : RunBudgetOverrides) (parent : RunRecord) (children : List RunRecord)
    (child : RunRecord)
    → IsWithin parent.budget children
    → bounded_child_budget requested parent (remaining_child_budget parent children)
      ≡ ok child.budget
    → IsWithin parent.budget (children ++ child ∷ [])
bounded_child_budget-IsWithin requested parent children child w h =
    let a = bounded_child_budget-IsAfforded parent children requested child.budget w h in
    record {
      turns = omega (arith, total-append (λ b. b.max_turns) children child, a.turns);
      calls = omega (arith, total-append (λ b. b.max_tool_calls) children child, a.calls);
      input_tokens =
          omega (arith, total-append (λ b. b.max_input_tokens) children child, a.input_tokens);
      output_tokens =
          omega (arith, total-append (λ b. b.max_output_tokens) children child, a.output_tokens);
      cost = omega (
        arith,
        total-append (λ b. b.max_cost_usd) children child,
        cost_within parent children child.budget w a,
      );
    }

-- Until a parent has reported its token usage no child budget is accepted.
pub bounded_child_budget_unreported :
    (requested : RunBudgetOverrides) (parent : RunRecord) (children : List RunRecord)
    (b : RunBudget)
    → (parent.usage.input_tokens ≡ none) ⊎ (parent.usage.output_tokens ≡ none)
    → bounded_child_budget requested parent (remaining_child_budget parent children) ≢ ok b
unfolding bounded_child_budget remaining_child_budget
bounded_child_budget_unreported requested parent children b u h =
    let available = remaining_child_budget parent children in
    let asked = requested_budget requested parent.budget available in
    ground (arith, check-IsGranted asked b parent.budget available h)
