-- ===== src/Access/Request.antt =====
-- What a principal holds and what it asks for: packages/auth/src/index.ts (`mintRunToken`,
-- `isActive`, `sameStrings`, `budgetWithin`).
use lite_harness.Common.{
  is_le, ℕ, String, Bool, true, false, ◌&&◌, not, Option, some, none, List, [], ◌∷◌, if◌then◌else◌,
  includes, ltb, leb, ◌==◌,
}
use Prim.Native.String.{compare}
use lite_harness.Run.Record.{ResourceOwner, RunBudgetOverrides}
use lite_harness.Store.Events.{absent}
use lite_harness.Access.Token.{ReplayPolicy, StoredAccessToken, TokenType}

abbrev pub run_token_scopes : List String
run_token_scopes =
    "runs:create" ∷ "runs:read" ∷ "runs:cancel" ∷ "runs:steer" ∷ "events:read" ∷ "approvals:resolve"
    ∷ "artifacts:publish" ∷ "artifacts:read" ∷ []

pub record InternalPrincipal : Type 0 where
  pub owner : ResourceOwner
  pub scopes : List String
  pub token_id : Option String
  pub token_type : Option TokenType
  pub replay_policy : Option ReplayPolicy
  pub agent_id : Option String
  pub workspace_id : Option String
  pub budget_ceiling : Option RunBudgetOverrides

pub record MintRunTokenRequest : Type 0 where
  pub scopes : List String
  pub ttl_seconds : Option ℕ
  pub agent_id : Option String
  pub workspace_id : Option String
  pub budget_ceiling : Option RunBudgetOverrides

-- `Date.parse(expiresAt) > Date.now()`, unless the token is revoked.
unfoldable pub is_active : ℕ → StoredAccessToken → Bool
is_active now t = absent t.revoked_at && elim t.expires_at [ none ↦ true | some e ↦ ltb now e ]

unfoldable pub insert_text : String → List String → List String
insert_text s [] = s ∷ []
insert_text s (x ∷ xs) =
    let rest = insert_text s xs in if is_le (compare s x) then s ∷ x ∷ xs else x ∷ rest

unfoldable pub sort_texts : List String → List String
sort_texts [] = []
sort_texts (x ∷ xs) = insert_text x (sort_texts xs)

-- `[...new Set(values)]`: the first of each.
unfoldable pub distinct_from : List String → List String → List String
distinct_from seen [] = []
distinct_from seen (x ∷ xs) =
    let rest = distinct_from (x ∷ seen) xs in if includes seen x then rest else x ∷ rest

abbrev pub same_list : List String → List String → Bool
same_list [] [] = true
same_list (x ∷ xs) (y ∷ ys) = x == y && same_list xs ys
same_list _ _ = false

unfoldable pub same_strings : List String → List String → Bool
same_strings left right = same_list (sort_texts left) (sort_texts right)

-- `ceiling === undefined || value <= ceiling`, for a key that the request has.
unfoldable pub field_within : Option ℕ → Option ℕ → Bool
field_within none ceiling = true
field_within (some v) none = true
field_within (some v) (some c) = leb v c

unfoldable pub budget_within : RunBudgetOverrides → RunBudgetOverrides → Bool
budget_within r p =
    field_within r.max_turns p.max_turns
    && field_within r.max_tool_calls p.max_tool_calls
    && field_within r.max_input_tokens p.max_input_tokens
    && field_within r.max_output_tokens p.max_output_tokens
    && field_within r.max_cost_usd p.max_cost_usd
    && field_within r.total_timeout_ms p.total_timeout_ms
    && field_within r.model_idle_timeout_ms p.model_idle_timeout_ms
    && field_within r.command_timeout_ms p.command_timeout_ms

-- `request ?? parent`
abbrev pub or_parent {ℓ} : {A : Type ℓ} → Option A → Option A → Option A
or_parent none parent = parent
or_parent (some a) parent = some a

-- `{ ...parent, ...request }`
abbrev pub merged : RunBudgetOverrides → RunBudgetOverrides → RunBudgetOverrides
merged r p = record {
  max_turns = or_parent r.max_turns p.max_turns;
  max_tool_calls = or_parent r.max_tool_calls p.max_tool_calls;
  max_input_tokens = or_parent r.max_input_tokens p.max_input_tokens;
  max_output_tokens = or_parent r.max_output_tokens p.max_output_tokens;
  max_cost_usd = or_parent r.max_cost_usd p.max_cost_usd;
  total_timeout_ms = or_parent r.total_timeout_ms p.total_timeout_ms;
  model_idle_timeout_ms = or_parent r.model_idle_timeout_ms p.model_idle_timeout_ms;
  command_timeout_ms = or_parent r.command_timeout_ms p.command_timeout_ms;
}

abbrev pub minted_budget :
    Option RunBudgetOverrides → Option RunBudgetOverrides → Option RunBudgetOverrides
minted_budget r none = r
minted_budget none (some p) = some p
minted_budget (some r) (some p) = some (merged r p)

abbrev pub expands_budget : Option RunBudgetOverrides → Option RunBudgetOverrides → Bool
expands_budget (some r) (some p) = not (budget_within r p)
expands_budget _ _ = false

-- `parent && request && request !== parent`, of texts that count as absent when they are empty.
abbrev pub expands : Option String → Option String → Bool
expands (some parent) (some request) =
    not (parent == "") && not (request == "") && not (request == parent)
expands _ _ = false

-- `...(value ? { key: value } : {})`
abbrev pub if_not_empty : Option String → Option String
if_not_empty none = none
if_not_empty (some s) = if s == "" then none else some s
