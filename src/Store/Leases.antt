-- ===== src/Store/Leases.antt =====
-- Workspace leases with fencing tokens: packages/storage-sqlite/src/index.ts
-- (`acquireWorkspaceLease`, `getWorkspaceLease`, `validateWorkspaceLease`, `renewWorkspaceLease`,
-- `releaseWorkspaceLease`) and packages/contracts/src/index.ts (`WorkspaceLease`).
-- The clock is an argument; ISO times of equal length are ordered as their numbers.
pub mod Fencing
pub mod Exclusion
use lite_harness.Run.Record.{or_else}
use lite_harness.Common.{
  ℕ, ◌+◌, String, Bool, true, false, ◌&&◌, not, Option, some, none, List, [], ◌∷◌, ◌++◌, ok, err,
  eqb, ltb, any, if◌then◌else◌, find_by, update_by, update_where, ◌==◌,
}
use lite_harness.Store.Rows.{RunRow, LeaseRow}
use lite_harness.Store.Tables.{Store, Transaction, get_row, lease_not_of_run}

pub record WorkspaceLease : Type 0 where
  pub workspace_id : String
  pub owner_run_id : String
  pub fencing_token : ℕ
  pub expires_at : ℕ

abbrev pub workspace_of : LeaseRow → String
workspace_of l = l.workspace_internal_id

-- `column = ?` for a column that may be NULL.
abbrev pub holds : Option String → String → Bool
holds none x = false
holds (some y) x = y == x

-- `expires_at > ?`
abbrev pub is_after : Option ℕ → ℕ → Bool
is_after none now = false
is_after (some t) now = ltb now t

-- `SELECT workspace_internal_id FROM runs WHERE id = ? AND workspace_id = ?`
abbrev pub workspace_of_run : Store → String → String → Option String
workspace_of_run s run_id workspace_id = elim (get_row s run_id) [
  | none ↦ none
  | some run ↦ if run.workspace_id == workspace_id then run.workspace_internal_id else none
]

abbrev pub lease_row : String → List LeaseRow → Option LeaseRow
lease_row ws ls = find_by workspace_of ws ls

-- `INSERT ... ON CONFLICT(workspace_internal_id) DO UPDATE`
pub upsert : LeaseRow → List LeaseRow → List LeaseRow
upsert new ls = elim (lease_row new.workspace_internal_id ls) [
  | none ↦ ls ++ new ∷ []
  | some _ ↦ update_by workspace_of new.workspace_internal_id (λ _. new) ls
]

-- `!column` for a column that may be NULL.
abbrev is_vacant : Option String → Bool
is_vacant none = true
is_vacant (some x) = x == ""

abbrev pub live_other : ℕ → String → Option LeaseRow → Bool
live_other now run_id none = false
live_other now run_id (some row) =
    not (holds row.owner_run_id run_id)
    && not (is_vacant row.owner_run_id)
    && is_after row.expires_at now

-- The token of the next lease: unchanged for the run that holds a live lease, else the next one.
abbrev pub next_token : ℕ → String → Option LeaseRow → ℕ
next_token now run_id none = 1
next_token now run_id (some row) =
    if holds row.owner_run_id run_id && is_after row.expires_at now
    then row.fencing_token
    else row.fencing_token + 1

pub acquire_in : ℕ → Store → String → String → ℕ → String → Store × Option WorkspaceLease
unfolding upsert
acquire_in now s workspace_id run_id ttl ws =
    let row = lease_row ws s.leases in
    let token = next_token now run_id row in
    if live_other now run_id row then (s, none) else (
      record s {
        leases =
            upsert
              (record {
                workspace_internal_id = ws;
                owner_run_id = some run_id;
                fencing_token = token;
                expires_at = some (now + ttl);
                updated_at = now;
              })
              s.leases;
      },
      some (record {
        workspace_id = workspace_id;
        owner_run_id = run_id;
        fencing_token = token;
        expires_at = now + ttl;
      }),
    )

unfoldable pub acquire_workspace_lease :
    ℕ → Store → String → String → ℕ → Transaction (Option WorkspaceLease)
unfolding acquire_in
acquire_workspace_lease now s workspace_id run_id ttl =
    elim (workspace_of_run s run_id workspace_id) [
      | none ↦ err lease_not_of_run
      | some ws ↦ ok (acquire_in now s workspace_id run_id ttl ws)
    ]

-- `expires_at` is never NULL beside an owner.
unfoldable pub get_workspace_lease : Store → String → String → Option WorkspaceLease
get_workspace_lease s workspace_id run_id = elim (workspace_of_run s run_id workspace_id) [
  | none ↦ none
  | some ws ↦ elim (lease_row ws s.leases) [
    | none ↦ none
    | some row ↦
        if holds row.owner_run_id run_id
        then some (record {
          workspace_id = workspace_id;
          owner_run_id = run_id;
          fencing_token = row.fencing_token;
          expires_at = or_else row.expires_at 0;
        })
        else none
  ]
]

-- The owner and the token of a row are those of a lease.
abbrev pub matches : WorkspaceLease → LeaseRow → Bool
matches lease row =
    holds row.owner_run_id lease.owner_run_id && eqb row.fencing_token lease.fencing_token

abbrev is_live_match : ℕ → WorkspaceLease → Option LeaseRow → Bool
is_live_match now lease none = false
is_live_match now lease (some row) = matches lease row && is_after row.expires_at now

unfoldable pub validate_workspace_lease : ℕ → Store → WorkspaceLease → Bool
validate_workspace_lease now s lease =
    elim (workspace_of_run s lease.owner_run_id lease.workspace_id) [
      | none ↦ false
      | some ws ↦ is_live_match now lease (lease_row ws s.leases)
    ]

abbrev pub renewed : ℕ → ℕ → LeaseRow → LeaseRow
renewed now ttl row = record row { expires_at = some (now + ttl); updated_at = now }

abbrev pub released : ℕ → LeaseRow → LeaseRow
released now row = record row { owner_run_id = none; expires_at = none; updated_at = now }

-- The `UPDATE` of one row by its primary key, if the row passes the test; whether it changed a row.
unfoldable pub update_lease :
    String → (LeaseRow → Bool) → (LeaseRow → LeaseRow) → Store → Store × Bool
update_lease ws test f s = elim (lease_row ws s.leases) [
  | none ↦ (s, false)
  | some row ↦
      if test row
      then (record s { leases = update_by workspace_of ws f s.leases }, true)
      else (s, false)
]

unfoldable pub renew_workspace_lease :
    ℕ → Store → WorkspaceLease → ℕ → Store × Option WorkspaceLease
unfolding update_lease
renew_workspace_lease now s lease ttl =
    elim (workspace_of_run s lease.owner_run_id lease.workspace_id) [
      | none ↦ (s, none)
      | some ws ↦
          let (t, changed) =
            update_lease ws (λ row. matches lease row && is_after row.expires_at now)
              (renewed now ttl) s in
          (t, if changed then some (record lease { expires_at = now + ttl }) else none)
    ]

unfoldable pub release_workspace_lease : ℕ → Store → WorkspaceLease → Store × Bool
unfolding update_lease
release_workspace_lease now s lease =
    elim (workspace_of_run s lease.owner_run_id lease.workspace_id) [
      | none ↦ (s, false)
      | some ws ↦ update_lease ws (matches lease) (released now) s
    ]
