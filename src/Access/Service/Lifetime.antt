-- ===== src/Access/Service/Lifetime.antt =====
-- A run token is accepted from its minting until it expires or is revoked.
use lite_harness.Common.{
  ℕ, ◌+◌, ◌*◌, String, Bool, true, false, ◌≡◌, some, none, List, [], ◌∷◌, ok, arith, refl, ltb,
  eq_iff, eq_refl, if◌then◌else◌, find_by, find_by-append, update_where, subst,
}
use mathlib.Core.Option
use lite_harness.Run.Record.{or_else}
use lite_harness.Store.Events.{absent}
use lite_harness.Access.Token.{
  StoredAccessToken, put, get_by_lookup_hash, lookup_hash_of, is_live_id, revoke_at, revoke,
}
use lite_harness.Access.Service.{mint_run_token, minted, authenticate, revoke_run_token}
use lite_harness.Access.Request.{InternalPrincipal, MintRunTokenRequest, is_active, if_not_empty}
use lite_harness.Access.Service.Attenuation.{mint_run_token-Minted}

-- The row that was put is the one its hash finds.
put-get_by_lookup_hash :
    (t : StoredAccessToken) (ts us : List StoredAccessToken)
    → put t ts ≡ ok us
    → get_by_lookup_hash t.lookup_hash us ≡ some t
unfolding put
put-get_by_lookup_hash t ts us h =
    ground (arith, find_by-append lookup_hash_of t.lookup_hash ts (t ∷ []), eq_refl t.lookup_hash)

-- Who holds a run token.
abbrev pub principal_of : StoredAccessToken → InternalPrincipal
principal_of t = record {
  owner = t.owner;
  scopes = t.scopes;
  token_id = some t.id;
  token_type = some t.type;
  replay_policy = some t.replay_policy;
  agent_id = if_not_empty t.agent_id;
  workspace_id = if_not_empty t.workspace_id;
  budget_ceiling = t.budget_ceiling;
}

find_by-update_where :
    (k : String) (test : StoredAccessToken → Bool) (f : StoredAccessToken → StoredAccessToken)
    (keeps : (t : StoredAccessToken) → lookup_hash_of (f t) ≡ lookup_hash_of t)
    (ts : List StoredAccessToken)
    → find_by lookup_hash_of k (update_where test f ts)
      ≡ Option.map (λ t. if test t then f t else t) (find_by lookup_hash_of k ts)
find_by-update_where k test f keeps [] = refl
find_by-update_where k test f keeps (t ∷ ts) =
    ground (arith, keeps t, find_by-update_where k test f keeps ts)

module _ (lookup : String → String) (derive : String → String → String)
    (is_valid_token : String → Bool) where
  minted-fields :
      (now : ℕ) (parent : InternalPrincipal) (request : MintRunTokenRequest)
      (token id salt : String) (t : StoredAccessToken)
      → minted lookup derive is_valid_token now parent request token id salt ≡ t
      → (t.lookup_hash ≡ lookup token)
        × (t.secret_hash ≡ derive token t.salt)
        × (t.revoked_at ≡ none)
        × (t.expires_at ≡ some (now + or_else request.ttl_seconds 900 * 1_000))
  unfolding minted
  minted-fields now parent request token id salt t h =
      (ground arith, ground arith, ground arith, ground arith)

  authenticate_found :
      (later : ℕ) (us : List StoredAccessToken) (token : String) (t : StoredAccessToken)
      (expires_at : ℕ)
      → is_valid_token token ≡ true
      → get_by_lookup_hash (lookup token) us ≡ some t
      → t.secret_hash ≡ derive token t.salt
      → t.revoked_at ≡ none
      → t.expires_at ≡ some expires_at
      → authenticate lookup derive is_valid_token later us token
        ≡ (if ltb later expires_at then some (principal_of t) else none)
  unfolding authenticate is_active
  authenticate_found later us token t expires_at valid found secret live expires =
      ground (arith, eq_iff t.secret_hash (derive token t.salt))

  -- A token that was minted and whose text is valid is accepted by the table that the minting
  -- left, for its own principal, at every time before its time to live has passed, and at no time
  -- from then on.
  pub mint-authenticate :
      (now later : ℕ) (ts us : List StoredAccessToken) (parent : InternalPrincipal)
      (request : MintRunTokenRequest) (token id salt : String) (t : StoredAccessToken)
      → is_valid_token token ≡ true
      → mint_run_token lookup derive is_valid_token now ts parent request token id salt ≡ ok (us, t)
      → authenticate lookup derive is_valid_token later us token ≡ (
          if ltb later (now + or_else request.ttl_seconds 900 * 1_000)
          then some (principal_of t)
          else none)
  mint-authenticate now later ts us parent request token id salt t valid h =
      let m =
        mint_run_token-Minted lookup derive is_valid_token now ts us parent request token id salt t
          h in
      let (hash, secret, live, expires) =
        minted-fields now parent request token id salt t m.record_of in
      authenticate_found later us token t (now + or_else request.ttl_seconds 900 * 1_000) valid
        (subst (λ k. get_by_lookup_hash k us ≡ some t) hash
          (put-get_by_lookup_hash t ts us m.stored))
        secret live expires

  revoked-authenticate :
      (later : ℕ) (us : List StoredAccessToken) (token : String) (t : StoredAccessToken)
      → get_by_lookup_hash (lookup token) us ≡ some t
      → absent t.revoked_at ≡ false
      → authenticate lookup derive is_valid_token later us token ≡ none
  unfolding authenticate is_active
  revoked-authenticate later us token t found gone = ground arith

  revoke-finds :
      (now : ℕ) (us : List StoredAccessToken) (id token : String) (t : StoredAccessToken)
      → get_by_lookup_hash (lookup token) us ≡ some t
      → t.id ≡ id
      → (v : StoredAccessToken) × (get_by_lookup_hash (lookup token) (revoke id now us).0 ≡ some v)
        × (absent v.revoked_at ≡ false)
  unfolding revoke
  revoke-finds now us id token t found same = (
    (if is_live_id id t then revoke_at now t else t),
    ground (
      arith,
      found,
      find_by-update_where (lookup token) (is_live_id id) (revoke_at now) (λ x. refl) us,
    ),
    ground (arith, eq_iff t.id id),
  )

  revoke_run_token-revoke :
      (now : ℕ) (us vs : List StoredAccessToken) (parent : InternalPrincipal) (id : String)
      → revoke_run_token now us parent id ≡ ok (vs, true)
      → (revoke id now us).0 ≡ vs
  unfolding revoke_run_token
  revoke_run_token-revoke now us vs parent id h = ground arith

  -- The table that a successful revocation left accepts the token of the revoked record at no
  -- time.
  pub revoke-authenticate :
      (now later : ℕ) (us vs : List StoredAccessToken) (parent : InternalPrincipal)
      (id token : String) (t : StoredAccessToken)
      → get_by_lookup_hash (lookup token) us ≡ some t
      → t.id ≡ id
      → revoke_run_token now us parent id ≡ ok (vs, true)
      → authenticate lookup derive is_valid_token later vs token ≡ none
  revoke-authenticate now later us vs parent id token t found same h =
      let (v, there, gone) = revoke-finds now us id token t found same in
      revoked-authenticate later vs token v
        (subst (λ ws. get_by_lookup_hash (lookup token) ws ≡ some v)
          (revoke_run_token-revoke now us vs parent id h) there)
        gone
