-- ===== src/Store/Leases/Fencing.antt =====
-- A workspace has one writer at a time, and a writer that was replaced stays out for good.
use lite_harness.Common.{
  ℕ, ◌≡◌, String, List, [], ◌∷◌, Option, some, none, arith, ◌==◌, if◌then◌else◌, eq_iff,
  find_by-append, update_by, Result, ◌≤◌, Bool, Option-cases, err, ◌+◌, inl, ok, find_by-update_by,
  inr, ◌∙◌, ◌<◌, false, ◌&&◌, refl,
}
use lite_harness.Store.Tables.{Store, StoreError}
use lite_harness.Store.Rows.{LeaseRow}
use lite_harness.Store.Leases.{
  workspace_of, lease_row, upsert, acquire_in, update_lease, WorkspaceLease,
  acquire_workspace_lease, next_token, renew_workspace_lease, release_workspace_lease,
  workspace_of_run, renewed, validate_workspace_lease, holds, matches, is_after, released,
}

-- The fencing token of a workspace, 0 before its first lease.
abbrev token_of : Option LeaseRow → ℕ
token_of none = 0
token_of (some row) = row.fencing_token

abbrev pub token_at : String → Store → ℕ
token_at ws s = token_of (lease_row ws s.leases)

pub lease_row-upsert :
    (new : LeaseRow) (ls : List LeaseRow) (j : String)
    → lease_row j (upsert new ls)
      ≡ (if new.workspace_internal_id == j then some new else lease_row j ls)
unfolding upsert
lease_row-upsert new ls j = ground (
  arith,
  find_by-append workspace_of j ls (new ∷ []),
  eq_iff new.workspace_internal_id j,
  find_new ls,
)
  where
    -- Replacing the row of the workspace.
    find_new :
        (ls : List LeaseRow)
        → lease_row j (update_by workspace_of new.workspace_internal_id (λ _. new) ls) ≡ (
            if new.workspace_internal_id == j
            then elim (lease_row j ls) [ none ↦ none | some _ ↦ some new ]
            else lease_row j ls)
    find_new [] = ground arith
    find_new (l ∷ ls) = ground (
      arith,
      eq_iff l.workspace_internal_id new.workspace_internal_id,
      eq_iff l.workspace_internal_id j,
      eq_iff new.workspace_internal_id j,
      find_new ls,
    )

acquire_in-token :
    (now : ℕ) (s : Store) (wid run_id : String) (ttl : ℕ) (ws j : String)
    → token_at j s ≤ token_at j (acquire_in now s wid run_id ttl ws).0
unfolding acquire_in
acquire_in-token now s wid run_id ttl ws j = ground (
  arith,
  lease_row-upsert
      (record {
        workspace_internal_id = ws;
        owner_run_id = some run_id;
        fencing_token = next_token now run_id (lease_row ws s.leases);
        expires_at = some (now + ttl);
        updated_at = now;
      })
      s.leases j,
  eq_iff ws j,
)

module _ (f : LeaseRow → LeaseRow)
    (same_key : (l : LeaseRow) → (f l).workspace_internal_id ≡ l.workspace_internal_id)
    (same_token : (l : LeaseRow) → (f l).fencing_token ≡ l.fencing_token) where
  update_lease-token :
      (ws : String) (test : LeaseRow → Bool) (s : Store) (j : String)
      → token_at j (update_lease ws test f s).0 ≡ token_at j s
  unfolding update_lease
  update_lease-token ws test s j = elim (Option-cases (lease_row j s.leases)) [
    | inl gone ↦ ground (arith, gone, find_by-update_by workspace_of ws j f same_key s.leases)
    | inr (row, found) ↦
        ground
          (arith, found, same_token row, find_by-update_by workspace_of ws j f same_key s.leases)
  ]

-- One call on the leases of the store, at a time.
pub data LeaseCall : Type 0 where
  acquires : String → String → ℕ → LeaseCall
  renews : WorkspaceLease → ℕ → LeaseCall
  releases : WorkspaceLease → LeaseCall

after_acquire : Store → Result StoreError (Store × Option WorkspaceLease) → Store
after_acquire s (err e) = s
after_acquire s (ok (t, lease)) = t

pub step : Store → ℕ × LeaseCall → Store
unfolding after_acquire
step s (now, acquires wid run_id ttl) =
    after_acquire s (acquire_workspace_lease now s wid run_id ttl)
step s (now, renews lease ttl) = (renew_workspace_lease now s lease ttl).0
step s (now, releases lease) = (release_workspace_lease now s lease).0

pub run : Store → List (ℕ × LeaseCall) → Store
run s [] = s
run s (c ∷ cs) = run (step s c) cs

step-token : (s : Store) (c : ℕ × LeaseCall) (j : String) → token_at j s ≤ token_at j (step s c)
unfolding step acquire_workspace_lease renew_workspace_lease release_workspace_lease
step-token s (now, acquires wid run_id ttl) j =
    elim (Option-cases (workspace_of_run s run_id wid)) [
      | inl gone ↦ ground (arith, gone)
      | inr (ws, found) ↦ ground (arith, found, acquire_in-token now s wid run_id ttl ws j)
    ]
step-token s (now, renews lease ttl) j =
    elim (Option-cases (workspace_of_run s lease.owner_run_id lease.workspace_id)) [
      | inl gone ↦ ground (arith, gone)
      | inr (ws, found) ↦ ground (
        arith,
        found,
        update_lease-token (renewed now ttl) (λ _. refl) (λ _. refl) ws
            (λ row. matches lease row && is_after row.expires_at now) s j,
      )
    ]
step-token s (now, releases lease) j =
    elim (Option-cases (workspace_of_run s lease.owner_run_id lease.workspace_id)) [
      | inl gone ↦ ground (arith, gone)
      | inr (ws, found) ↦ ground (
        arith,
        found,
        update_lease-token (released now) (λ _. refl) (λ _. refl) ws (matches lease) s j,
      )
    ]

-- The fencing token of a workspace never falls, whatever is called at whatever time.
pub token_at-run :
    (s : Store) (cs : List (ℕ × LeaseCall)) (j : String) → token_at j s ≤ token_at j (run s cs)
unfolding run
token_at-run s [] j = omega arith
token_at-run s (c ∷ cs) j = omega (arith, step-token s c j, token_at-run (step s c) cs j)

pub step-runs : (s : Store) (c : ℕ × LeaseCall) → (step s c).runs ≡ s.runs
unfolding step acquire_workspace_lease acquire_in renew_workspace_lease release_workspace_lease
    update_lease
step-runs s (now, acquires wid run_id ttl) = ground arith
step-runs s (now, renews lease ttl) = ground arith
step-runs s (now, releases lease) = ground arith

pub run-runs : (s : Store) (cs : List (ℕ × LeaseCall)) → (run s cs).runs ≡ s.runs
unfolding run
run-runs s [] = refl
run-runs s (c ∷ cs) = run-runs (step s c) cs ∙ step-runs s c

pub validate_stale :
    (now : ℕ) (s : Store) (lease : WorkspaceLease) (ws : String)
    → workspace_of_run s lease.owner_run_id lease.workspace_id ≡ some ws
    → lease.fencing_token < token_at ws s
    → validate_workspace_lease now s lease ≡ false
unfolding validate_workspace_lease
validate_stale now s lease ws w h = ground (arith, Option-cases (lease_row ws s.leases))

pub acquire_other-token :
    (now : ℕ) (s t : Store) (wid run_id : String) (ttl : ℕ) (ws : String) (new : WorkspaceLease)
    (row : LeaseRow)
    → lease_row ws s.leases ≡ some row
    → holds row.owner_run_id run_id ≡ false
    → workspace_of_run s run_id wid ≡ some ws
    → acquire_workspace_lease now s wid run_id ttl ≡ ok (t, some new)
    → row.fencing_token < token_at ws t
unfolding acquire_workspace_lease acquire_in
acquire_other-token now s t wid run_id ttl ws new row r o w h = ground (
  arith,
  lease_row-upsert
      (record {
        workspace_internal_id = ws;
        owner_run_id = some run_id;
        fencing_token = next_token now run_id (lease_row ws s.leases);
        expires_at = some (now + ttl);
        updated_at = now;
      })
      s.leases ws,
  eq_iff ws ws,
)
