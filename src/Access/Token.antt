-- ===== src/Access/Token.antt =====
-- The table of access tokens: packages/auth/src/index.ts (`StoredAccessToken`) and
-- packages/auth-sqlite/src/index.ts (`SqliteAccessTokenStore`).
use lite_harness.Common.{
  ℕ, max, String, Bool, true, false, ◌&&◌, ◌||◌, not, Option, some, List, [], ◌∷◌, ◌++◌, Result, ok,
  err, ◌>>=◌, ◌>>◌, throw_if, if◌then◌else◌, find_by, update_where, any, ◌==◌,
}
use lite_harness.Run.Record.{same_owner, ResourceOwner, RunBudgetOverrides}
use lite_harness.Store.Events.{absent}

pub data TokenType : Type 0 where
  app run : TokenType

pub data ReplayPolicy : Type 0 where
  multi_use resource_bound_multi_use : ReplayPolicy

pub record StoredAccessToken : Type 0 where
  pub id : String
  pub lookup_hash : String
  pub secret_hash : String
  pub salt : String
  pub type : TokenType
  pub owner : ResourceOwner
  pub scopes : List String
  pub replay_policy : ReplayPolicy
  pub agent_id : Option String
  pub workspace_id : Option String
  pub budget_ceiling : Option RunBudgetOverrides
  pub issued_at : ℕ
  pub expires_at : Option ℕ
  pub revoked_at : Option ℕ
  pub key_generation : ℕ

pub data AccessError : Type 0 where
  token_invalid bootstrap_conflict not_an_app credential_inactive scope_not_held : AccessError
  administration_scope agent_expanded workspace_expanded budget_expanded : AccessError
  only_app_rotates scope_migration_failed constraint_violated : AccessError

abbrev pub token_id_of : StoredAccessToken → String
token_id_of t = t.id

abbrev pub lookup_hash_of : StoredAccessToken → String
lookup_hash_of t = t.lookup_hash

abbrev pub is_app : TokenType → Bool
is_app app = true
is_app run = false

abbrev pub get_by_lookup_hash : String → List StoredAccessToken → Option StoredAccessToken
get_by_lookup_hash hash ts = find_by lookup_hash_of hash ts

abbrev pub get_by_id : String → List StoredAccessToken → Option StoredAccessToken
get_by_id id ts = find_by token_id_of id ts

-- `COALESCE(MAX(key_generation), 0)`
unfoldable pub latest_app_key_generation : ResourceOwner → List StoredAccessToken → ℕ
latest_app_key_generation owner [] = 0
latest_app_key_generation owner (t ∷ ts) =
    let rest = latest_app_key_generation owner ts in
    if is_app t.type && same_owner t.owner owner then max t.key_generation rest else rest

-- The id is the primary key, and the lookup hash is unique.
unfoldable pub put :
    StoredAccessToken → List StoredAccessToken → Result AccessError (List StoredAccessToken)
put new ts =
    if not (absent (get_by_id new.id ts)) || not (absent (get_by_lookup_hash new.lookup_hash ts))
    then err constraint_violated
    else ok (ts ++ new ∷ [])

abbrev may_update_scopes : String → StoredAccessToken → Bool
may_update_scopes id t = t.id == id && is_app t.type && absent t.revoked_at

unfoldable pub update_app_scopes :
    String → List String → List StoredAccessToken → Result AccessError (List StoredAccessToken)
update_app_scopes id scopes ts =
    if any (may_update_scopes id) ts
    then ok (update_where (may_update_scopes id) (λ t. record t { scopes = scopes }) ts)
    else err scope_migration_failed

-- The other live app tokens of the owner.
abbrev pub is_replaced : StoredAccessToken → StoredAccessToken → Bool
is_replaced new t =
    is_app t.type && same_owner t.owner new.owner && not (t.id == new.id) && absent t.revoked_at

abbrev pub revoke_at : ℕ → StoredAccessToken → StoredAccessToken
revoke_at now t = record t { revoked_at = some now }

unfoldable pub rotate_app :
    StoredAccessToken → ℕ → List StoredAccessToken → Result AccessError (List StoredAccessToken)
rotate_app new revoked_at ts = do
  throw_if (not (is_app new.type)) only_app_rotates
  us ← put new ts
  ok (update_where (is_replaced new) (revoke_at revoked_at) us)

abbrev pub is_live_id : String → StoredAccessToken → Bool
is_live_id id t = t.id == id && absent t.revoked_at

unfoldable pub revoke : String → ℕ → List StoredAccessToken → List StoredAccessToken × Bool
revoke id revoked_at ts =
    (update_where (is_live_id id) (revoke_at revoked_at) ts, any (is_live_id id) ts)
