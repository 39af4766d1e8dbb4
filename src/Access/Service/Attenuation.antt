-- ===== src/Access/Service/Attenuation.antt =====
-- A run token holds no more than the app credential that minted it.
use lite_harness.Common.{
  ℕ, String, Bool, true, false, ◌&&◌, ◌≡◌, ◌≢◌, Option, some, none, List, [], ok, arith, refl, all,
  includes, leb, eq_iff, Bool-cases, inl, inr, ◌==◌, ap, subst,
}
use lite_harness.Run.Record.{RunBudgetOverrides}
use lite_harness.Access.Token.{StoredAccessToken, put}
use lite_harness.Access.Service.{mint_run_token, minted}
use lite_harness.Access.Request.{
  InternalPrincipal, MintRunTokenRequest, run_token_scopes, sort_texts, distinct_from,
  budget_within, field_within, merged, minted_budget, or_parent, expands, expands_budget,
  if_not_empty,
}

-- A bound that is there is kept or lowered.
unfoldable pub at_most : Option ℕ → Option ℕ → Bool
at_most c none = true
at_most none (some limit) = false
at_most (some v) (some limit) = leb v limit

unfoldable pub is_capped : RunBudgetOverrides → RunBudgetOverrides → Bool
is_capped c p =
    at_most c.max_turns p.max_turns
    && at_most c.max_tool_calls p.max_tool_calls
    && at_most c.max_input_tokens p.max_input_tokens
    && at_most c.max_output_tokens p.max_output_tokens
    && at_most c.max_cost_usd p.max_cost_usd
    && at_most c.total_timeout_ms p.total_timeout_ms
    && at_most c.model_idle_timeout_ms p.model_idle_timeout_ms
    && at_most c.command_timeout_ms p.command_timeout_ms

at_most-or_parent : (r p : Option ℕ) → field_within r p ≡ true → at_most (or_parent r p) p ≡ true
unfolding at_most field_within
at_most-or_parent r p h = ground arith

at_most_refl : (p : Option ℕ) → at_most p p ≡ true
unfolding at_most
at_most_refl p = ground arith

merged-is_capped :
    (r p : RunBudgetOverrides) → budget_within r p ≡ true → is_capped (merged r p) p ≡ true
unfolding is_capped budget_within
merged-is_capped r p h = ground (
  arith,
  at_most-or_parent r.max_turns p.max_turns,
  at_most-or_parent r.max_tool_calls p.max_tool_calls,
  at_most-or_parent r.max_input_tokens p.max_input_tokens,
  at_most-or_parent r.max_output_tokens p.max_output_tokens,
  at_most-or_parent r.max_cost_usd p.max_cost_usd,
  at_most-or_parent r.total_timeout_ms p.total_timeout_ms,
  at_most-or_parent r.model_idle_timeout_ms p.model_idle_timeout_ms,
  at_most-or_parent r.command_timeout_ms p.command_timeout_ms,
)

is_capped_refl : (p : RunBudgetOverrides) → is_capped p p ≡ true
unfolding is_capped
is_capped_refl p = ground (
  arith,
  at_most_refl p.max_turns,
  at_most_refl p.max_tool_calls,
  at_most_refl p.max_input_tokens,
  at_most_refl p.max_output_tokens,
  at_most_refl p.max_cost_usd,
  at_most_refl p.total_timeout_ms,
  at_most_refl p.model_idle_timeout_ms,
  at_most_refl p.command_timeout_ms,
)

-- What a token may not exceed.
pub record IsAttenuated (parent : InternalPrincipal) (t : StoredAccessToken) : Type 0 where
  pub held : all (includes parent.scopes) t.scopes ≡ true
  pub for_runs : all (includes run_token_scopes) t.scopes ≡ true
  pub same_owner : t.owner ≡ parent.owner
  pub agent : (a : String) → parent.agent_id ≡ some a → a ≢ "" → t.agent_id ≡ some a
  pub workspace : (w : String) → parent.workspace_id ≡ some w → w ≢ "" → t.workspace_id ≡ some w
  pub budget :
      (p : RunBudgetOverrides)
      → parent.budget_ceiling ≡ some p
      → (c : RunBudgetOverrides) × (t.budget_ceiling ≡ some c) × (is_capped c p ≡ true)

binding_kept :
    (parent request : Option String) (a : String)
    → expands parent request ≡ false
    → request ≢ some ""
    → parent ≡ some a
    → a ≢ ""
    → if_not_empty (or_parent request parent) ≡ some a
binding_kept parent none a h n e filled = ground (arith, eq_iff a "")
binding_kept parent (some r) a h n e filled = elim (Bool-cases (r == "")) [
  | inl empty ↦ absurd (n (ap some ((eq_iff r "").0 empty)))
  | inr full ↦ ground (arith, eq_iff a "", eq_iff r a)
]

budget_kept :
    (request parent : Option RunBudgetOverrides) (p : RunBudgetOverrides)
    → expands_budget request parent ≡ false
    → parent ≡ some p
    → (c : RunBudgetOverrides) × (minted_budget request parent ≡ some c) × (is_capped c p ≡ true)
budget_kept none parent p h e = (p, rw e refl, is_capped_refl p)
budget_kept (some r) parent p h e =
    (merged r p, rw e refl, merged-is_capped r p (ground (arith, e)))

module _ (lookup : String → String) (derive : String → String → String)
    (is_valid_token : String → Bool) where
  -- What is known of a token that was minted.
  pub record Minted (now : ℕ) (ts us : List StoredAccessToken) (parent : InternalPrincipal)
      (request : MintRunTokenRequest) (token id salt : String) (t : StoredAccessToken)
      : Type 0 where
    pub record_of : minted lookup derive is_valid_token now parent request token id salt ≡ t
    pub held : all (includes parent.scopes) (sort_texts (distinct_from [] request.scopes)) ≡ true
    pub for_runs :
        all (includes run_token_scopes) (sort_texts (distinct_from [] request.scopes)) ≡ true
    pub agent : expands parent.agent_id request.agent_id ≡ false
    pub workspace : expands parent.workspace_id request.workspace_id ≡ false
    pub budget : expands_budget request.budget_ceiling parent.budget_ceiling ≡ false
    pub stored : put t ts ≡ ok us

  pub mint_run_token-Minted :
      (now : ℕ) (ts us : List StoredAccessToken) (parent : InternalPrincipal)
      (request : MintRunTokenRequest) (token id salt : String) (t : StoredAccessToken)
      → mint_run_token lookup derive is_valid_token now ts parent request token id salt ≡ ok (us, t)
      → Minted now ts us parent request token id salt t
  unfolding mint_run_token
  mint_run_token-Minted now ts us parent request token id salt t h = record {
    record_of = ground arith;
    held = ground arith;
    for_runs = ground arith;
    agent = ground arith;
    workspace = ground arith;
    budget = ground arith;
    stored = ground arith;
  }

  minted-IsAttenuated :
      (now : ℕ) (parent : InternalPrincipal) (request : MintRunTokenRequest)
      (token id salt : String)
      → request.agent_id ≢ some ""
      → request.workspace_id ≢ some ""
      → all (includes parent.scopes) (sort_texts (distinct_from [] request.scopes)) ≡ true
      → all (includes run_token_scopes) (sort_texts (distinct_from [] request.scopes)) ≡ true
      → expands parent.agent_id request.agent_id ≡ false
      → expands parent.workspace_id request.workspace_id ≡ false
      → expands_budget request.budget_ceiling parent.budget_ceiling ≡ false
      → IsAttenuated parent (minted lookup derive is_valid_token now parent request token id salt)
  unfolding minted
  minted-IsAttenuated now parent request token id salt na nw held for_runs agent workspace budget =
      record {
        held = held;
        for_runs = for_runs;
        same_owner = refl;
        agent = λ a e filled. binding_kept parent.agent_id request.agent_id a agent na e filled;
        workspace = λ w e filled.
            binding_kept parent.workspace_id request.workspace_id w workspace nw e filled;
        budget = λ p e. budget_kept request.budget_ceiling parent.budget_ceiling p budget e;
      }

  -- A token that is minted has scopes of its parent only, all of them scopes of runs, the parent's
  -- owner, the agent and the workspace that the parent is bound to, and bounds that are at most the
  -- parent's, if no binding of the request is the empty text.
  pub mint_run_token-IsAttenuated :
      (now : ℕ) (ts us : List StoredAccessToken) (parent : InternalPrincipal)
      (request : MintRunTokenRequest) (token id salt : String) (t : StoredAccessToken)
      → request.agent_id ≢ some ""
      → request.workspace_id ≢ some ""
      → mint_run_token lookup derive is_valid_token now ts parent request token id salt ≡ ok (us, t)
      → IsAttenuated parent t
  mint_run_token-IsAttenuated now ts us parent request token id salt t na nw h =
      let m = mint_run_token-Minted now ts us parent request token id salt t h in
      subst (IsAttenuated parent) m.record_of (
        minted-IsAttenuated now parent request token id salt na nw m.held m.for_runs m.agent
          m.workspace m.budget)
