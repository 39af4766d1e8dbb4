-- ===== src/Tests/Leases.antt =====
-- The theorems on leases and approvals at the small database.
use lite_harness.Run.Status.{is_terminal_run_status, is_terminal_run_status}
use lite_harness.Common.{ℕ, ◌≤◌, ◌≡◌, refl, true, false, ◌∷◌, [], ◌++◌, some, none, ok, List, ◌⊎◌}
use lite_harness.Store.Rows.{RunEvent, ApprovalRecord, approved, denied, approval_resolved}
use lite_harness.Store.Json.{no_fields}
use lite_harness.Store.Tables.{Store}
use lite_harness.Store.Leases.{WorkspaceLease, acquire_workspace_lease, validate_workspace_lease}
use lite_harness.Store.Leases.Fencing.{
  LeaseCall, acquires, renews, releases, run, token_at, token_at-run,
}
use lite_harness.Store.Leases.Exclusion.{acquire_excluded, fenced_out}
use lite_harness.Store.Approvals.{
  get_approval, resolve_within_transaction, resolve_approval_and_append_event, resolved,
  may_resolve,
}
use lite_harness.Store.Approvals.Resolution.{
  IsAllowed, IsResolved, resolve-Resolves, resolve_and_append_total,
}
use lite_harness.Store.Approvals.Once.{
  ApprovalCall, resolves, creates, approval_calls, resolve_once,
}
use lite_harness.Tests.Data.{store, lease, approval}
use lite_harness.Tests.Store.{store-IsLog}

code : Unit {0}
unfolding acquire_workspace_lease validate_workspace_lease resolve_within_transaction get_approval
    may_resolve
code = tt

history : List (ℕ × LeaseCall)
history = (55, renews lease 60) ∷ (58, releases lease) ∷ (70, acquires "demo" "run_1" 60) ∷ []

acquire_excluded_example : acquire_workspace_lease 9 store "demo" "run_2" 60 ≡ ok (store, none)
unfolding code
acquire_excluded_example = acquire_excluded 9 store lease "demo" "run_2" 60 refl refl refl refl

-- The lease of "run_2", taken at time 51 when that of "run_1" has run out.
abbrev taken : WorkspaceLease
taken = record {
  workspace_id = "demo";
  owner_run_id = "run_2";
  fencing_token = 5;
  expires_at = 111;
}

taken_over : Store
taken_over = record store {
  leases =
      record {
        workspace_internal_id = "wsp_in";
        owner_run_id = some "run_2";
        fencing_token = 5;
        expires_at = some 111;
        updated_at = 51;
      }
      ∷ [];
}

takes_over : acquire_workspace_lease 51 store "demo" "run_2" 60 ≡ ok (taken_over, some taken)
unfolding code taken_over
takes_over = refl

fenced_out_example : validate_workspace_lease 71 (run taken_over history) lease ≡ false
unfolding code
fenced_out_example =
    fenced_out 9 51 71 store taken_over lease taken "demo" "run_2" 60 history refl refl refl
      takes_over

token_at-run_example : 4 ≤ token_at "wsp_in" (run store history)
token_at-run_example = token_at-run store history "wsp_in"

after_resolution : Store
after_resolution = record store { approvals = resolved 20 approved approval ∷ [] }

resolved_now :
    resolve_within_transaction 20 store "apr_1" approved "digest" ≡ (after_resolution, true)
unfolding code is_terminal_run_status after_resolution
resolved_now = refl

resolve-Resolves_example :
    ((true ≡ true)
      × (a : ApprovalRecord) × IsAllowed 20 store "apr_1" approved "digest" a
      × IsResolved 20 store "apr_1" approved a after_resolution)
    ⊎ ((true ≡ false)
        × (after_resolution ≡ store)
        × ((a : ApprovalRecord) → ¬ IsAllowed 20 store "apr_1" approved "digest" a))
resolve-Resolves_example =
    resolve-Resolves 20 store "apr_1" approved "digest" after_resolution true resolved_now

abbrev other_approval : ApprovalRecord
other_approval = record approval { id = "apr_2" }

abbrev later_calls : List (ℕ × ApprovalCall)
later_calls =
    (30, resolves "apr_1" denied "digest")
    ∷ (31, creates other_approval)
    ∷ (32, resolves "apr_2" denied "digest")
    ∷ []

resolve_once_example :
    (a : ApprovalRecord) × (get_approval store "apr_1" ≡ some a)
    × (get_approval (approval_calls after_resolution later_calls) "apr_1"
        ≡ some (resolved 20 approved a))
resolve_once_example =
    resolve_once 20 store after_resolution "apr_1" approved "digest" later_calls refl resolved_now

resolve_and_append_total_example :
    (u : Store) × (e : RunEvent) × (resolve_approval_and_append_event 20 store "apr_1" approved
        "digest" no_fields
      ≡ ok (u, some (resolved 20 approved approval)))
    × (u.events ≡ store.events ++ e ∷ [])
    × (e.run_id ≡ "run_1")
    × (e.type ≡ approval_resolved)
unfolding code is_terminal_run_status
resolve_and_append_total_example =
    resolve_and_append_total 20 store "apr_1" approved "digest" no_fields approval store-IsLog refl
      refl
