-- ===== src/Access/Service/Rotation.antt =====
-- A new app credential replaces the others of its owner.
use mathlib.Core.Option
use lite_harness.Common.{
  ℕ, sym, String, Bool, true, false, ◌≡◌, none, some, Option, List, [], ◌∷◌, ◌++◌, ok, arith, refl,
  inl, inr, update_where, eq_iff, eq_refl, key-find_by, find_by-append, Bool-cases, subst, ◌==◌,
  ◌⊎◌, if◌then◌else◌,
}
use lite_harness.Run.Record.{ResourceOwner, same_owner_refl, same_owner→eq}
use lite_harness.Access.Token.{
  StoredAccessToken, TokenType, app, run, is_app, get_by_id, token_id_of, put, is_replaced,
  revoke_at, rotate_app, get_by_lookup_hash,
}
use lite_harness.Access.Service.{ensure_bootstrap_app_token}

-- A live app credential of the owner.
pub record IsLiveAppOf (owner : ResourceOwner) (t : StoredAccessToken) : Type 0 where
  pub owner_is : t.owner ≡ owner
  pub is_app_token : t.type ≡ app
  pub not_revoked : t.revoked_at ≡ none

find_by-update_where :
    (p : StoredAccessToken → Bool) (now : ℕ) (k : String) (ts : List StoredAccessToken)
    → get_by_id k (update_where p (revoke_at now) ts)
      ≡ Option.map (λ t. if p t then revoke_at now t else t) (get_by_id k ts)
find_by-update_where p now k [] = refl
find_by-update_where p now k (t ∷ ts) = ground (arith, find_by-update_where p now k ts)

is_app→eq : (type : TokenType) → is_app type ≡ true → type ≡ app
is_app→eq app h = refl
is_app→eq run h = cc

is_replaced-IsLiveAppOf :
    (new t : StoredAccessToken) → is_replaced new t ≡ true → IsLiveAppOf new.owner t
is_replaced-IsLiveAppOf new t h = record {
  owner_is = same_owner→eq t.owner new.owner (ground arith);
  is_app_token = is_app→eq t.type (ground arith);
  not_revoked = ground arith;
}

IsLiveAppOf-is_replaced :
    (new t : StoredAccessToken)
    → IsLiveAppOf new.owner t
    → (t.id == new.id) ≡ false
    → is_replaced new t ≡ true
IsLiveAppOf-is_replaced new t l other =
    ground (arith, l.owner_is, l.is_app_token, l.not_revoked, same_owner_refl new.owner)

-- What the rotation leaves of a credential that was there.
abbrev pub IsLeft : ℕ → ResourceOwner → StoredAccessToken → Option StoredAccessToken → Type 0
IsLeft now owner t left =
    (IsLiveAppOf owner t × (left ≡ some (record t { revoked_at = some now })))
    ⊎ ((¬ IsLiveAppOf owner t) × (left ≡ some t))

rotate_app-IsLeft :
    (new : StoredAccessToken) (now : ℕ) (ts us : List StoredAccessToken) (k : String)
    (t : StoredAccessToken)
    → rotate_app new now ts ≡ ok us
    → get_by_id k ts ≡ some t
    → IsLeft now new.owner t (get_by_id k us) × (get_by_id new.id us ≡ some new)
unfolding rotate_app put
rotate_app-IsLeft new now ts us k t h found =
    let ws = ts ++ new ∷ [] in
    let free : get_by_id new.id ts ≡ none = ground arith in
    let same : update_where (is_replaced new) (revoke_at now) ws ≡ us = ground arith in
    let named = key-find_by token_id_of k ts t found in
    let other : (t.id == new.id) ≡ false = ground (arith, eq_iff t.id new.id, named, free, found) in
    let kept : get_by_id k ws ≡ some t =
      ground (arith, find_by-append token_id_of k ts (new ∷ []), found) in
    let mine : get_by_id new.id ws ≡ some new =
      ground (arith, find_by-append token_id_of new.id ts (new ∷ []), free, eq_refl new.id) in
    let read = find_by-update_where (is_replaced new) now k ws in
    (
      elim (Bool-cases (is_replaced new t)) [
        | inl yes_live ↦
            inl
              (is_replaced-IsLiveAppOf new t yes_live, rw (sym same, read, kept) (rw yes_live refl))
        | inr not_live ↦ inr (
          λ l. absurd (ground (arith, not_live, IsLiveAppOf-is_replaced new t l other)),
          rw (sym same, read, kept) (rw not_live refl),
        )
      ],
      rw (sym same, find_by-update_where (is_replaced new) now new.id ws, mine)
          (ground (arith, eq_refl new.id)),
    )

module _ (lookup : String → String) (derive : String → String → String)
    (is_valid_token : String → Bool) where
  -- A bootstrap token that is not there yet, when it is stored, is stored for the given owner, every
  -- app credential of that owner that was live is revoked at that time, and every other token (of
  -- another owner, of a run, or revoked before) is left as it was.
  pub ensure_bootstrap-replaces :
      (now : ℕ) (ts us : List StoredAccessToken) (token : String) (owner : ResourceOwner)
      (scopes : List String) (allow_expansion : Bool) (id salt : String) (new t : StoredAccessToken)
      (k : String)
      → get_by_lookup_hash (lookup token) ts ≡ none
      → ensure_bootstrap_app_token lookup derive is_valid_token now ts token owner scopes
          allow_expansion id salt
        ≡ ok (us, new)
      → get_by_id k ts ≡ some t
      → (new.owner ≡ owner) × (get_by_id new.id us ≡ some new) × IsLeft now owner t (get_by_id k us)
  unfolding ensure_bootstrap_app_token
  ensure_bootstrap-replaces now ts us token owner scopes allow_expansion id salt new t k
        absent_before h found =
      let mine : new.owner ≡ owner = ground (arith, absent_before) in
      let (left, stored) =
        rotate_app-IsLeft new now ts us k t (ground (arith, absent_before)) found in
      (mine, stored, subst (λ o. IsLeft now o t (get_by_id k us)) mine left)
