-- ===== src/Store/Approvals/Once.antt =====
-- What was resolved before later calls: packages/storage-sqlite/src/index.ts
-- (`#resolveApprovalWithinTransaction`, `createApproval`).
use lite_harness.Common.{
  ℕ, ◌≡◌, refl, String, true, false, some, arith, inl, inr, eq_iff, find_by-append, ok, err,
  Bool-cases, List, ◌∙◌, ◌==◌, ◌∷◌, [],
}
use lite_harness.Store.Rows.{ApprovalRecord, ApprovalStatus}
use lite_harness.Store.Tables.{Store}
use lite_harness.Store.Approvals.{
  approval_id, get_approval, create_approval, resolve_within_transaction, resolved, is_pending,
}
use lite_harness.Store.Approvals.Resolution.{resolve-Resolves}

-- A call of the store on approvals: a resolution, with or without its event, or a new approval.
pub data ApprovalCall : Type 0 where
  resolves : String → ApprovalStatus → String → ApprovalCall
  creates : ApprovalRecord → ApprovalCall

-- What the call leaves at the time.
pub approval_call : ℕ → Store → ApprovalCall → Store
approval_call now s (resolves id status digest) =
    (resolve_within_transaction now s id status digest).0
approval_call now s (creates a) = elim (create_approval s a) [ err _ ↦ s | ok (t, _) ↦ t ]

pub approval_calls : Store → List (ℕ × ApprovalCall) → Store
unfolding approval_call
approval_calls s [] = s
approval_calls s ((now, call) ∷ calls) = approval_calls (approval_call now s call) calls

resolve-settled :
    (now : ℕ) (s : Store) (id other : String) (status : ApprovalStatus) (digest : String)
    (a : ApprovalRecord)
    → is_pending a.status ≡ false
    → get_approval s id ≡ some a
    → get_approval (resolve_within_transaction now s other status digest).0 id ≡ some a
resolve-settled now s id other status digest a settled found =
    let (t, changed) = resolve_within_transaction now s other status digest in
    elim (resolve-Resolves now s other status digest
      (resolve_within_transaction now s other status digest).0
      (resolve_within_transaction now s other status digest).1 refl) [
        | inr (_, same, _) ↦ rw same found
        | inl (_, b, allowed, done) ↦ elim (Bool-cases (other == id)) [
          | inl e ↦ absurd (ground (arith, eq_iff other id, allowed.found, allowed.was_pending))
          | inr o ↦ done.others id (ground (arith, eq_iff other id)) ∙ found
        ]
      ]

create-settled :
    (s : Store) (b : ApprovalRecord) (now : ℕ) (id : String) (a : ApprovalRecord)
    → get_approval s id ≡ some a
    → get_approval (approval_call now s (creates b)) id ≡ some a
unfolding approval_call create_approval get_approval
create-settled s b now id a found =
    ground (arith, find_by-append approval_id id s.approvals (b ∷ []))

approval_calls-settled :
    (calls : List (ℕ × ApprovalCall)) (s : Store) (id : String) (a : ApprovalRecord)
    → is_pending a.status ≡ false
    → get_approval s id ≡ some a
    → get_approval (approval_calls s calls) id ≡ some a
unfolding approval_calls approval_call
approval_calls-settled [] s id a settled found = found
approval_calls-settled ((now, resolves other status digest) ∷ calls) s id a settled found =
    approval_calls-settled calls _ id a settled
      (resolve-settled now s id other status digest a settled found)
approval_calls-settled ((now, creates b) ∷ calls) s id a settled found =
    approval_calls-settled calls _ id a settled (create-settled s b now id a found)

-- An approval that was resolved stays resolved as it is, whatever approvals are created and whatever
-- resolutions of this or of any other approval are tried later, at any time.
pub resolve_once :
    (now : ℕ) (s t : Store) (id : String) (status : ApprovalStatus) (digest : String)
    (calls : List (ℕ × ApprovalCall))
    → is_pending status ≡ false
    → resolve_within_transaction now s id status digest ≡ (t, true)
    → (a : ApprovalRecord) × (get_approval s id ≡ some a)
      × (get_approval (approval_calls t calls) id ≡ some (resolved now status a))
resolve_once now s t id status digest calls plain h =
    elim (resolve-Resolves now s id status digest t true h) [
      | inr (unchanged, _, _) ↦ absurd cc
      | inl (_, a, allowed, done) ↦ (
        a,
        allowed.found,
        approval_calls-settled calls t id (resolved now status a) plain done.left,
      )
    ]
