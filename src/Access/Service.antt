-- ===== src/Access/Service.antt =====
-- The service of access tokens: packages/auth/src/index.ts (`AccessTokenService`). Hashing and random
-- values are parameters.
pub mod Attenuation
pub mod Lifetime
pub mod Rotation
use lite_harness.Access.Request.{
  InternalPrincipal, MintRunTokenRequest, budget_within, distinct_from, expands, expands_budget,
  field_within, if_not_empty, insert_text, is_active, merged, minted_budget, or_parent,
  run_token_scopes, same_list, same_strings, sort_texts,
}
use lite_harness.Common.{
  is_le, ℕ, ◌+◌, ◌*◌, String, Bool, true, false, ◌&&◌, ◌||◌, not, Option, some, none, List, [], ◌∷◌,
  Result, ok, err, ◌>>=◌, ◌>>◌, throw_if, if◌then◌else◌, all, includes, ltb, leb, ◌==◌,
}
use Prim.Native.String.{compare}
use lite_harness.Run.Record.{same_owner, ResourceOwner, RunBudgetOverrides, or_else}
use lite_harness.Store.Events.{absent}
use lite_harness.Access.Token.{
  StoredAccessToken, TokenType, resource_bound_multi_use, AccessError, not_an_app,
  credential_inactive, scope_not_held, administration_scope, agent_expanded, workspace_expanded,
  budget_expanded, is_app, get_by_id, get_by_lookup_hash, put, revoke, bootstrap_conflict,
  update_app_scopes, rotate_app, latest_app_key_generation, app, multi_use, token_invalid,
}

-- The principal is an app credential whose record is live and has not changed.
unfoldable pub check_parent :
    ℕ → List StoredAccessToken → InternalPrincipal → Result AccessError (Unit {0})
check_parent now ts parent = elim parent.token_type [
  | none ↦ err not_an_app
  | some type ↦ elim parent.token_id [
    | none ↦ err not_an_app
    | some id ↦ if not (is_app type) || id == "" then err not_an_app else elim (get_by_id id ts) [
      | none ↦ err credential_inactive
      | some t ↦
          if is_app t.type
            && is_active now t
            && same_owner t.owner parent.owner
            && same_strings t.scopes parent.scopes
          then ok tt
          else err credential_inactive
    ]
  ]
]

-- The scopes of a bootstrap token: the same, or more of them if that is allowed.
unfoldable pub expand_scopes :
    List StoredAccessToken
    → StoredAccessToken
    → List String
    → List String
    → Bool
    → Result AccessError (List StoredAccessToken × StoredAccessToken)
expand_scopes ts existing scopes requested allow_expansion =
    if same_strings existing.scopes scopes
    then ok (ts, existing)
    else (if not allow_expansion || not (all (includes requested) existing.scopes)
        then err bootstrap_conflict
        else (update_app_scopes existing.id requested ts >>= λ us.
            ok (us, record existing { scopes = requested })))

-- Hashing, and what is drawn at random for a new token.
module _ (lookup : String → String) (derive : String → String → String)
    (is_valid_token : String → Bool) where
  -- `authenticate`, up to the record.
  unfoldable pub authenticate : ℕ → List StoredAccessToken → String → Option InternalPrincipal
  authenticate now ts token =
      if not (is_valid_token token) then none else elim (get_by_lookup_hash (lookup token) ts) [
        | none ↦ none
        | some t ↦
            if not (is_active now t) || not (t.secret_hash == derive token t.salt)
            then none
            else some (record {
              owner = t.owner;
              scopes = t.scopes;
              token_id = some t.id;
              token_type = some t.type;
              replay_policy = some t.replay_policy;
              agent_id = if_not_empty t.agent_id;
              workspace_id = if_not_empty t.workspace_id;
              budget_ceiling = t.budget_ceiling;
            })
      ]

  -- The record of a bootstrap token that is there already.
  unfoldable pub keep_bootstrap :
      ℕ
      → List StoredAccessToken
      → String
      → ResourceOwner
      → List String
      → Bool
      → StoredAccessToken
      → Result AccessError (List StoredAccessToken × StoredAccessToken)
  keep_bootstrap now ts token owner scopes allow_expansion existing = do
    throw_if
        (not (
          is_active now existing
          && existing.secret_hash == derive token existing.salt
          && is_app existing.type
          && same_owner existing.owner owner))
        bootstrap_conflict
    expand_scopes ts existing scopes (distinct_from [] scopes) allow_expansion

  unfoldable pub ensure_bootstrap_app_token :
      ℕ
      → List StoredAccessToken
      → String
      → ResourceOwner
      → List String
      → Bool
      → String
      → String
      → Result AccessError (List StoredAccessToken × StoredAccessToken)
  ensure_bootstrap_app_token now ts token owner scopes allow_expansion id salt =
      if not (is_valid_token token)
      then err token_invalid
      else elim (get_by_lookup_hash (lookup token) ts) [
        | some existing ↦ keep_bootstrap now ts token owner scopes allow_expansion existing
        | none ↦
            let new : StoredAccessToken = record {
              id = id;
              lookup_hash = lookup token;
              secret_hash = derive token salt;
              salt = salt;
              type = app;
              owner = owner;
              scopes = scopes;
              replay_policy = multi_use;
              agent_id = none;
              workspace_id = none;
              budget_ceiling = none;
              issued_at = now;
              expires_at = none;
              revoked_at = none;
              key_generation = latest_app_key_generation owner ts + 1;
            } in
            rotate_app new now ts >>= λ us. ok (us, new)
      ]

  unfoldable pub minted :
      ℕ → InternalPrincipal → MintRunTokenRequest → String → String → String → StoredAccessToken
  minted now parent request token id salt = record {
    id = id;
    lookup_hash = lookup token;
    secret_hash = derive token salt;
    salt = salt;
    type = TokenType.run;
    owner = parent.owner;
    scopes = sort_texts (distinct_from [] request.scopes);
    replay_policy = resource_bound_multi_use;
    agent_id = if_not_empty (or_parent request.agent_id parent.agent_id);
    workspace_id = if_not_empty (or_parent request.workspace_id parent.workspace_id);
    budget_ceiling = minted_budget request.budget_ceiling parent.budget_ceiling;
    issued_at = now;
    expires_at = some (now + or_else request.ttl_seconds 900 * 1_000);
    revoked_at = none;
    key_generation = 1;
  }

  -- The text of the token, its id and its salt are drawn at random.
  unfoldable pub mint_run_token :
      ℕ
      → List StoredAccessToken
      → InternalPrincipal
      → MintRunTokenRequest
      → String
      → String
      → String
      → Result AccessError (List StoredAccessToken × StoredAccessToken)
  mint_run_token now ts parent request token id salt = do
    _ ← check_parent now ts parent
    let scopes = sort_texts (distinct_from [] request.scopes)
    throw_if (not (all (includes parent.scopes) scopes)) scope_not_held
    throw_if (not (all (includes run_token_scopes) scopes)) administration_scope
    throw_if (expands parent.agent_id request.agent_id) agent_expanded
    throw_if (expands parent.workspace_id request.workspace_id) workspace_expanded
    throw_if (expands_budget request.budget_ceiling parent.budget_ceiling) budget_expanded
    us ← put (minted now parent request token id salt) ts
    ok (us, minted now parent request token id salt)

-- Whether the token was revoked.
unfoldable pub revoke_run_token :
    ℕ
    → List StoredAccessToken
    → InternalPrincipal
    → String
    → Result AccessError (List StoredAccessToken × Bool)
revoke_run_token now ts parent token_id = do
  _ ← check_parent now ts parent
  elim (get_by_id token_id ts) [
    | none ↦ ok (ts, false)
    | some target ↦
        if is_app target.type || not (same_owner target.owner parent.owner)
        then ok (ts, false)
        else ok (revoke token_id now ts)
  ]
