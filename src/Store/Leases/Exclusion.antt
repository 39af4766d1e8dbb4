-- ===== src/Store/Leases/Exclusion.antt =====
-- One live writer to a workspace; a lease that another run took over is dead for good.
use lite_harness.Common.{
  ℕ, ◌≡◌, String, true, false, List, Option, some, none, arith, ok, ◌==◌, Option-cases, inl, inr,
  eq_iff, ◌∙◌, ◌<◌, ◌+◌, Result, find_by-update_by, err, refl,
}
use lite_harness.Store.Tables.{Store, StoreError}
use lite_harness.Store.Rows.{LeaseRow}
use lite_harness.Store.Leases.{
  WorkspaceLease, lease_row, workspace_of_run, acquire_in, acquire_workspace_lease,
  validate_workspace_lease, release_workspace_lease, next_token, workspace_of, released,
}
use lite_harness.Store.Leases.Fencing.{
  token_at-run, LeaseCall, run, run-runs, validate_stale, acquire_other-token, lease_row-upsert,
}

-- While a lease validates, an acquisition of its workspace by any other run gives nothing and
-- changes nothing.
pub acquire_excluded :
    (now : ℕ) (s : Store) (lease : WorkspaceLease) (wid run_id : String) (ttl : ℕ)
    → validate_workspace_lease now s lease ≡ true
    → workspace_of_run s run_id wid ≡ workspace_of_run s lease.owner_run_id lease.workspace_id
    → (lease.owner_run_id == run_id) ≡ false
    → (lease.owner_run_id == "") ≡ false
    → acquire_workspace_lease now s wid run_id ttl ≡ ok (s, none)
unfolding validate_workspace_lease acquire_workspace_lease acquire_in
acquire_excluded now s lease wid run_id ttl valid same other named =
    elim (Option-cases (workspace_of_run s lease.owner_run_id lease.workspace_id)) [
      | inl gone ↦ ground (arith, gone)
      | inr (ws, found) ↦ elim (Option-cases (lease_row ws s.leases)) [
        | inl gone ↦ ground (arith, gone, found)
        | inr (row, held) ↦ elim (Option-cases row.owner_run_id) [
          | inl gone ↦ ground (arith, gone, found, held)
          | inr (o, owner) ↦ ground (arith, found, held, owner, eq_iff o lease.owner_run_id)
        ]
      ]
    ]

-- What a valid lease says of the row of its workspace.
pub validate_row :
    (now : ℕ) (s : Store) (lease : WorkspaceLease)
    → validate_workspace_lease now s lease ≡ true
    → (ws : String) × (row : LeaseRow) × (workspace_of_run s lease.owner_run_id lease.workspace_id
        ≡ some ws)
      × (lease_row ws s.leases ≡ some row)
      × (row.owner_run_id ≡ some lease.owner_run_id)
      × (row.fencing_token ≡ lease.fencing_token)
unfolding validate_workspace_lease
validate_row now s lease valid =
    elim (Option-cases (workspace_of_run s lease.owner_run_id lease.workspace_id)) [
      | inl gone ↦ absurd (ground (arith, gone))
      | inr (ws, found) ↦ elim (Option-cases (lease_row ws s.leases)) [
        | inl gone ↦ absurd (ground (arith, gone, found))
        | inr (row, held) ↦ elim (Option-cases row.owner_run_id) [
          | inl gone ↦ absurd (ground (arith, gone, found, held))
          | inr (o, owner) ↦ (
            ws,
            row,
            found,
            held,
            ground (arith, found, held, owner, eq_iff o lease.owner_run_id),
            ground (arith, found, held, owner),
          )
        ]
      ]
    ]

acquire-runs :
    (now : ℕ) (s t : Store) (wid run_id : String) (ttl : ℕ) (new : Option WorkspaceLease)
    → acquire_workspace_lease now s wid run_id ttl ≡ ok (t, new)
    → t.runs ≡ s.runs
unfolding acquire_workspace_lease acquire_in
acquire-runs now s t wid run_id ttl new h =
    ground (arith, Option-cases (workspace_of_run s run_id wid))

-- Once another run has acquired the workspace of a lease that was valid, the lease never validates
-- again: not after any later calls on the leases, at any times.
pub fenced_out :
    (before now later : ℕ) (s t : Store) (lease new : WorkspaceLease) (wid run_id : String)
    (ttl : ℕ) (cs : List (ℕ × LeaseCall))
    → validate_workspace_lease before s lease ≡ true
    → workspace_of_run s run_id wid ≡ workspace_of_run s lease.owner_run_id lease.workspace_id
    → (lease.owner_run_id == run_id) ≡ false
    → acquire_workspace_lease now s wid run_id ttl ≡ ok (t, some new)
    → validate_workspace_lease later (run t cs) lease ≡ false
fenced_out before now later s t lease new wid run_id ttl cs valid same other h =
    let (ws, row, found, held, owner, token) = validate_row before s lease valid in
    let rises =
      acquire_other-token now s t wid run_id ttl ws new row held (ground (arith, owner))
        (same ∙ found) h in
    let kept : (run t cs).runs ≡ s.runs = run-runs t cs ∙ acquire-runs now s t wid run_id ttl _ h in
    validate_stale later (run t cs) lease ws (rw kept found)
      (omega (arith, rises, token_at-run t cs ws, token))

-- An acquired lease validates until it expires, on the store that the acquisition returned.
pub acquire_valid :
    (now at : ℕ) (s t : Store) (wid run_id : String) (ttl : ℕ) (new : WorkspaceLease)
    → acquire_workspace_lease now s wid run_id ttl ≡ ok (t, some new)
    → at < now + ttl
    → validate_workspace_lease at t new ≡ true
unfolding acquire_workspace_lease acquire_in validate_workspace_lease
acquire_valid now at s t wid run_id ttl new h early =
    elim (Option-cases (workspace_of_run s run_id wid)) [
      | inl gone ↦ ground (arith, gone)
      | inr (ws, found) ↦ ground (
        arith,
        found,
        eq_iff ws ws,
        eq_iff run_id run_id,
        lease_row-upsert
            (record {
              workspace_internal_id = ws;
              owner_run_id = some run_id;
              fencing_token = next_token now run_id (lease_row ws s.leases);
              expires_at = some (now + ttl);
              updated_at = now;
            })
            s.leases ws,
      )
    ]

-- The lease that an acquisition gives, if any.
abbrev pub leased : Result StoreError (Store × Option WorkspaceLease) → Option WorkspaceLease
leased (ok (t, lease)) = lease
leased (err e) = none

-- A release by the holder of a valid lease frees the workspace: any run of the workspace then
-- acquires it at once, and gets the next token.
pub release_frees :
    (before now later : ℕ) (s : Store) (lease : WorkspaceLease) (wid run_id : String) (ttl : ℕ)
    → validate_workspace_lease before s lease ≡ true
    → workspace_of_run s run_id wid ≡ workspace_of_run s lease.owner_run_id lease.workspace_id
    → leased (acquire_workspace_lease later (release_workspace_lease now s lease).0 wid run_id ttl)
      ≡ some (record {
        workspace_id = wid;
        owner_run_id = run_id;
        fencing_token = lease.fencing_token + 1;
        expires_at = later + ttl;
      })
unfolding release_workspace_lease acquire_workspace_lease
release_frees before now later s lease wid run_id ttl valid same =
    let (ws, row, found, held, owner, token) = validate_row before s lease valid in
    ground (
      arith,
      found,
      held,
      owner,
      token,
      eq_iff ws ws,
      eq_iff lease.owner_run_id lease.owner_run_id,
      find_by-update_by workspace_of ws ws (released now) (λ _. refl) s.leases,
    )
