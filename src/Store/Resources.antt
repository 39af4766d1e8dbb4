-- ===== src/Store/Resources.antt =====
-- The tables of agents, workspaces, sessions, messages and provider connections beside those of runs:
-- packages/storage-sqlite/src/index.ts (`AgentRow`, `WorkspaceRow`, `SessionRow`, `MessageRow`,
-- `ProviderConnectionRow`, `normalizeBudget`, `scopedIdempotencyKey`) and
-- packages/contracts/src/index.ts (`InternalStartRunRequestSchema`).
use lite_harness.Common.{
  ℕ, String, Bool, Option, some, none, List, ◌&&◌, ◌==◌, ◌+◌, max, [], ◌∷◌, if◌then◌else◌, find?,
}
use lite_harness.Run.Record.{
  same_owner, RunBudget, RunBudgetOverrides, ResourceOwner, default_run_budget, or_else,
}
use lite_harness.Store.Tables.{Store}

pub record AgentRow : Type 0 where
  pub internal_id : String
  pub id : String
  pub owner : ResourceOwner
  pub model_capabilities : List String
  pub allowed_tools : List String
  pub default_budget : RunBudgetOverrides

pub record WorkspaceRow : Type 0 where
  pub internal_id : String
  pub id : String
  pub owner : ResourceOwner

pub record SessionRow : Type 0 where
  pub internal_id : String
  pub id : String
  pub owner : ResourceOwner
  pub agent_id : String
  pub agent_internal_id : String

pub data MessageRole : Type 0 where
  user assistant tool system : MessageRole

pub record MessageRow : Type 0 where
  pub id : String
  pub session_internal_id : String
  pub run_id : String
  pub role : MessageRole
  pub content : String
  pub sequence : ℕ

pub record ConnectionRow : Type 0 where
  pub id : String
  pub owner : ResourceOwner
  pub is_ready : Bool

pub record Database : Type 0 where
  pub store : Store
  pub agents : List AgentRow
  pub workspaces : List WorkspaceRow
  pub sessions : List SessionRow
  pub messages : List MessageRow
  pub connections : List ConnectionRow

pub record StartRunRequest : Type 0 where
  pub agent : String
  pub workspace : String
  pub session : Option String
  pub provider_connection_id : Option String
  pub input : String
  pub budget : Option RunBudgetOverrides
  pub idempotency_key : String
  pub principal : ResourceOwner
  pub parent_run_id : Option String
  pub depth : Option ℕ
  pub delivery_allowed : Option Bool
  pub create_if_missing : Option Bool

-- The row of an owner: `WHERE app_id = ? AND tenant_id = ? AND user_id = ? AND id = ?`.
abbrev pub find_agent : ResourceOwner → String → List AgentRow → Option AgentRow
find_agent owner id = find? (λ a. same_owner a.owner owner && a.id == id)

abbrev pub find_workspace : ResourceOwner → String → List WorkspaceRow → Option WorkspaceRow
find_workspace owner id = find? (λ w. same_owner w.owner owner && w.id == id)

abbrev pub find_session : ResourceOwner → String → List SessionRow → Option SessionRow
find_session owner id = find? (λ s. same_owner s.owner owner && s.id == id)

abbrev pub find_connection : ResourceOwner → String → List ConnectionRow → Option ConnectionRow
find_connection owner id = find? (λ c. same_owner c.owner owner && c.id == id)

-- The JSON of `DEFAULT_RUN_BUDGET`.
abbrev pub default_overrides : RunBudgetOverrides
default_overrides = record {
  max_turns = some default_run_budget.max_turns;
  max_tool_calls = some default_run_budget.max_tool_calls;
  max_input_tokens = some default_run_budget.max_input_tokens;
  max_output_tokens = some default_run_budget.max_output_tokens;
  max_cost_usd = some default_run_budget.max_cost_usd;
  total_timeout_ms = some default_run_budget.total_timeout_ms;
  model_idle_timeout_ms = some default_run_budget.model_idle_timeout_ms;
  command_timeout_ms = some default_run_budget.command_timeout_ms;
}

-- `normalizeBudget({ ...defaults, ...requested })`, of one field.
abbrev normal : Option ℕ → Option ℕ → ℕ → ℕ
normal (some requested) defaults fallback = requested
normal none defaults fallback = or_else defaults fallback

abbrev merged_budget : RunBudgetOverrides → RunBudgetOverrides → RunBudget
merged_budget d r = record {
  max_turns = normal r.max_turns d.max_turns default_run_budget.max_turns;
  max_tool_calls = normal r.max_tool_calls d.max_tool_calls default_run_budget.max_tool_calls;
  max_input_tokens =
      normal r.max_input_tokens d.max_input_tokens default_run_budget.max_input_tokens;
  max_output_tokens =
      normal r.max_output_tokens d.max_output_tokens default_run_budget.max_output_tokens;
  max_cost_usd = normal r.max_cost_usd d.max_cost_usd default_run_budget.max_cost_usd;
  total_timeout_ms =
      normal r.total_timeout_ms d.total_timeout_ms default_run_budget.total_timeout_ms;
  model_idle_timeout_ms =
      normal r.model_idle_timeout_ms d.model_idle_timeout_ms
        default_run_budget.model_idle_timeout_ms;
  command_timeout_ms =
      normal r.command_timeout_ms d.command_timeout_ms default_run_budget.command_timeout_ms;
}

unfoldable pub normalize_budget : RunBudgetOverrides → RunBudgetOverrides → RunBudget
normalize_budget defaults requested = merged_budget defaults requested

-- `SELECT COALESCE(MAX(sequence), 0) + 1 ... WHERE session_internal_id = ?`
abbrev last_message_sequence : String → List MessageRow → ℕ
last_message_sequence session [] = 0
last_message_sequence session (m ∷ ms) =
    let rest = last_message_sequence session ms in
    if m.session_internal_id == session then max m.sequence rest else rest

unfoldable pub next_message_sequence : String → List MessageRow → ℕ
next_message_sequence session ms = last_message_sequence session ms + 1
