-- ===== src/Tests/Access.antt =====
-- The theorems on access tokens at one app credential.
use lite_harness.Common.{
  ◌+◌, ◌*◌, ◌≡◌, ◌≢◌, refl, String, Bool, true, false, Option, some, none, List, [], ◌∷◌, ok, ltb,
  if◌then◌else◌,
}
use lite_harness.Run.Record.{no_overrides, or_else}
use lite_harness.Access.Token.{
  StoredAccessToken, app, multi_use, put, rotate_app, revoke, latest_app_key_generation, get_by_id,
}
use lite_harness.Access.Service.{
  minted, mint_run_token, authenticate, revoke_run_token, check_parent, ensure_bootstrap_app_token,
}
use lite_harness.Access.Request.{
  InternalPrincipal, MintRunTokenRequest, sort_texts, distinct_from, insert_text, is_active,
  same_strings, budget_within, field_within,
}
use lite_harness.Access.Service.Attenuation.{IsAttenuated, mint_run_token-IsAttenuated}
use lite_harness.Access.Service.Lifetime.{mint-authenticate, principal_of, revoke-authenticate}
use lite_harness.Access.Service.Rotation.{IsLeft, ensure_bootstrap-replaces}
use lite_harness.Tests.Data.{owner}

-- Hashing that forgets nothing.
abbrev lookup : String → String
lookup token = token

abbrev derive : String → String → String
derive token salt = token

abbrev is_valid_token : String → Bool
is_valid_token token = true

abbrev credential : StoredAccessToken
credential = record {
  id = "tok_app";
  lookup_hash = "app-secret";
  secret_hash = "app-secret";
  salt = "s";
  type = app;
  owner = owner;
  scopes = "runs:create" ∷ "tokens:mint" ∷ [];
  replay_policy = multi_use;
  agent_id = none;
  workspace_id = none;
  budget_ceiling = none;
  issued_at = 0;
  expires_at = none;
  revoked_at = none;
  key_generation = 1;
}

-- An app credential that is bound to an agent and to a number of turns.
abbrev parent : InternalPrincipal
parent = record (principal_of credential) {
  agent_id = some "coder";
  budget_ceiling = some (record no_overrides { max_turns = some 8 });
}

abbrev request : MintRunTokenRequest
request = record {
  scopes = "runs:create" ∷ [];
  ttl_seconds = some 60;
  agent_id = none;
  workspace_id = none;
  budget_ceiling = some (record no_overrides { max_turns = some 4 });
}

abbrev run_token : StoredAccessToken
run_token = minted lookup derive is_valid_token 5 parent request "run-secret" "tok_run" "salt"

abbrev both_tokens : List StoredAccessToken
both_tokens = credential ∷ run_token ∷ []

access_code : Unit {0}
unfolding mint_run_token minted put revoke_run_token check_parent sort_texts distinct_from
    insert_text is_active same_strings budget_within field_within revoke
access_code = tt

is_minted :
    mint_run_token lookup derive is_valid_token 5
      (credential ∷ [])
      parent
      request
      "run-secret"
      "tok_run"
      "salt"
    ≡ ok (both_tokens, run_token)
unfolding access_code
is_minted = refl

none_is_not_empty : ◌≢◌ {A = Option String} none (some "")
none_is_not_empty h = cc

mint_run_token-IsAttenuated_example : IsAttenuated parent run_token
mint_run_token-IsAttenuated_example =
    mint_run_token-IsAttenuated lookup derive is_valid_token 5 (credential ∷ []) both_tokens parent
      request "run-secret" "tok_run" "salt" run_token none_is_not_empty none_is_not_empty is_minted

mint-authenticate_example :
    authenticate lookup derive is_valid_token 70_000 both_tokens "run-secret" ≡ (
      if ltb 70_000 (5 + or_else request.ttl_seconds 900 * 1_000)
      then some (principal_of run_token)
      else none)
mint-authenticate_example =
    mint-authenticate lookup derive is_valid_token 5 70_000 (credential ∷ []) both_tokens parent
      request "run-secret" "tok_run" "salt" run_token refl is_minted

abbrev after_revocation : List StoredAccessToken
after_revocation = credential ∷ record run_token { revoked_at = some 9 } ∷ []

is_revoked : revoke_run_token 9 both_tokens parent "tok_run" ≡ ok (after_revocation, true)
unfolding access_code
is_revoked = refl

revoke-authenticate_example :
    authenticate lookup derive is_valid_token 10 after_revocation "run-secret" ≡ none
unfolding access_code
revoke-authenticate_example =
    revoke-authenticate lookup derive is_valid_token 9 10 both_tokens after_revocation parent
      "tok_run" "run-secret" run_token refl refl is_revoked

abbrev second_credential : StoredAccessToken
second_credential = record credential {
  id = "tok_2";
  lookup_hash = "second-secret";
  secret_hash = "second-secret";
  scopes = "runs:create" ∷ [];
  issued_at = 20;
  key_generation = 2;
}

abbrev rotated : List StoredAccessToken
rotated = record credential { revoked_at = some 20 } ∷ second_credential ∷ []

is_rotated :
    ensure_bootstrap_app_token lookup derive is_valid_token 20
      (credential ∷ [])
      "second-secret"
      owner
      ("runs:create" ∷ [])
      false
      "tok_2"
      "s"
    ≡ ok (rotated, second_credential)
unfolding ensure_bootstrap_app_token rotate_app put latest_app_key_generation
is_rotated = refl

ensure_bootstrap-replaces_example :
    (second_credential.owner ≡ owner)
    × (get_by_id "tok_2" rotated ≡ some second_credential)
    × IsLeft 20 owner credential (get_by_id credential.id rotated)
ensure_bootstrap-replaces_example =
    ensure_bootstrap-replaces lookup derive is_valid_token 20 (credential ∷ []) rotated
      "second-secret" owner ("runs:create" ∷ []) false "tok_2" "s" second_credential credential
      credential.id refl is_rotated refl
