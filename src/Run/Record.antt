-- ===== src/Run/Record.antt =====
-- The records of a run: packages/contracts/src/index.ts (`RunBudget`, `RunUsage`, `RunRecord`,
-- `DEFAULT_RUN_BUDGET`) and packages/domain/src/index.ts (`ResourceOwner`).
-- Token counts, calls and times are numbers; money is a number of a fixed small unit; `null` and an
-- absent field are `none`.
use lite_harness.Common.{
  eq_refl, eq_iff, ◌≡◌, arith, true, ◌&&◌, ◌==◌, ℕ, Bool, String, Option, some, none,
}
use lite_harness.Run.Status.{RunStatus}

pub record RunBudget : Type 0 where
  pub max_turns : ℕ
  pub max_tool_calls : ℕ
  pub max_input_tokens : ℕ
  pub max_output_tokens : ℕ
  pub max_cost_usd : ℕ
  pub total_timeout_ms : ℕ
  pub model_idle_timeout_ms : ℕ
  pub command_timeout_ms : ℕ

-- `Partial<RunBudget>`
pub record RunBudgetOverrides : Type 0 where
  pub max_turns : Option ℕ
  pub max_tool_calls : Option ℕ
  pub max_input_tokens : Option ℕ
  pub max_output_tokens : Option ℕ
  pub max_cost_usd : Option ℕ
  pub total_timeout_ms : Option ℕ
  pub model_idle_timeout_ms : Option ℕ
  pub command_timeout_ms : Option ℕ

abbrev pub no_overrides : RunBudgetOverrides
no_overrides = record {
  max_turns = none;
  max_tool_calls = none;
  max_input_tokens = none;
  max_output_tokens = none;
  max_cost_usd = none;
  total_timeout_ms = none;
  model_idle_timeout_ms = none;
  command_timeout_ms = none;
}

pub record RunUsage : Type 0 where
  pub input_tokens : Option ℕ
  pub output_tokens : Option ℕ
  pub cost_usd : Option ℕ
  pub tool_calls : ℕ

pub record ResourceOwner : Type 0 where
  pub app_id : String
  pub tenant_id : String
  pub user_id : String

pub record RunRecord : Type 0 where
  pub id : String
  pub idempotency_key : String
  pub owner : ResourceOwner
  pub open owner use *
  pub agent_id : String
  pub workspace_id : String
  pub session_id : Option String
  pub provider_connection_id : Option String
  pub parent_run_id : Option String
  pub depth : ℕ
  pub delivery_allowed : Bool
  pub input : String
  pub budget : RunBudget
  pub usage : RunUsage
  pub status : RunStatus
  pub last_sequence : ℕ
  pub error_code : Option String
  pub error_message : Option String
  pub created_at : ℕ
  pub updated_at : ℕ

-- A dollar is 1,000,000 units of cost.
abbrev pub usd : ℕ
usd = 1_000_000

abbrev pub default_run_budget : RunBudget
default_run_budget = record {
  max_turns = 8;
  max_tool_calls = 32;
  max_input_tokens = 250_000;
  max_output_tokens = 64_000;
  max_cost_usd = 25_000_000;
  total_timeout_ms = 900_000;
  model_idle_timeout_ms = 120_000;
  command_timeout_ms = 300_000;
}

-- `value ?? fallback`
abbrev pub or_else {ℓ} : {A : Type ℓ} → Option A → A → A
or_else none d = d
or_else (some a) d = a

abbrev pub same_owner : ResourceOwner → ResourceOwner → Bool
same_owner a b = a.app_id == b.app_id && a.tenant_id == b.tenant_id && a.user_id == b.user_id

pub same_owner_refl : (o : ResourceOwner) → same_owner o o ≡ true
same_owner_refl o = ground (arith, eq_refl o.app_id, eq_refl o.tenant_id, eq_refl o.user_id)

pub same_owner→eq : (a b : ResourceOwner) → same_owner a b ≡ true → a ≡ b
same_owner→eq a b h =
    ground
      (arith, eq_iff a.app_id b.app_id, eq_iff a.tenant_id b.tenant_id, eq_iff a.user_id b.user_id)
