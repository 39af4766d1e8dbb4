-- ===== src/Store/Approvals/Resolution.antt =====
-- The resolutions of approvals, alone and with their event: packages/storage-sqlite/src/index.ts
-- (`#resolveApprovalWithinTransaction`, `resolveApprovalAndAppendEvent`).
use lite_harness.Store.Events.Finality.{append_event_total}
use lite_harness.Store.Events.Log.{IsLog}
use lite_harness.Store.Events.{AppendRunEvent, event_at, after_event}
use lite_harness.Common.{
  ℕ, ◌<◌, ◌≡◌, refl, String, true, false, some, arith, Option-cases, inl, inr, eq_iff,
  find_by-update_by, none, ok, Bool, Bool-cases, subst, ◌≢◌, ◌⊎◌, ◌++◌, ◌∷◌, [], update_by, ◌+◌,
}
use lite_harness.Store.Rows.{
  ApprovalRecord, ApprovalStatus, pending, approved, denied, expired, RunEvent, RunRow,
}
use lite_harness.Store.Tables.{Store}
use lite_harness.Store.Approvals.{
  approval_id, get_approval, may_resolve, resolve_within_transaction, resolved, is_pending,
  has_live_run, Fields, resolve_approval_and_append_event, approval_resolved, get_row,
  is_terminal_run_status,
}

-- A resolution that was allowed: what it knew of the approval.
pub record IsAllowed (now : ℕ) (s : Store) (id : String) (status : ApprovalStatus) (digest : String)
    (a : ApprovalRecord) : Type 0 where
  pub found : get_approval s id ≡ some a
  pub was_pending : a.status ≡ pending
  pub same_digest : a.execution_digest ≡ digest
  pub in_time : status ≡ approved → now < a.expires_at
  pub run : RunRow
  pub has_run : get_row s a.run_id ≡ some run
  pub live : is_terminal_run_status run.status ≡ false

is_pending→eq : (status : ApprovalStatus) → is_pending status ≡ true → status ≡ pending
is_pending→eq pending h = refl
is_pending→eq approved h = cc
is_pending→eq denied h = cc
is_pending→eq expired h = cc

allowed-may_resolve :
    (now : ℕ) (s : Store) (id : String) (status : ApprovalStatus) (digest : String)
    (a : ApprovalRecord)
    → IsAllowed now s id status digest a
    → may_resolve now s status digest a ≡ true
unfolding may_resolve
allowed-may_resolve now s id status digest a h = ground (
  arith,
  h.was_pending,
  h.same_digest,
  h.in_time,
  h.has_run,
  h.live,
  eq_iff a.execution_digest digest,
)

may_resolve-IsAllowed :
    (now : ℕ) (s : Store) (id : String) (status : ApprovalStatus) (digest : String)
    (a : ApprovalRecord)
    → get_approval s id ≡ some a
    → may_resolve now s status digest a ≡ true
    → IsAllowed now s id status digest a
unfolding may_resolve
may_resolve-IsAllowed now s id status digest a found h = elim (Option-cases (get_row s a.run_id)) [
  | inl gone ↦ absurd (ground (arith, gone))
  | inr (run, there) ↦ record {
    found = found;
    was_pending = is_pending→eq a.status (ground arith);
    same_digest = ground (arith, eq_iff a.execution_digest digest);
    in_time = ground arith;
    run = run;
    has_run = there;
    live = ground (arith, there);
  }
]

-- The approval is resolved, and nothing else of the store is touched.
pub record IsResolved (now : ℕ) (s : Store) (id : String) (status : ApprovalStatus)
    (a : ApprovalRecord) (t : Store) : Type 0 where
  pub left : get_approval t id ≡ some (resolved now status a)
  pub others : (other : String) → id ≢ other → get_approval t other ≡ get_approval s other
  pub rest : t ≡ record s { approvals = t.approvals }

resolve_refused :
    (now : ℕ) (s : Store) (id : String) (status : ApprovalStatus) (digest : String)
    (a : ApprovalRecord)
    → get_approval s id ≡ some a
    → may_resolve now s status digest a ≡ false
    → resolve_within_transaction now s id status digest ≡ (s, false)
unfolding resolve_within_transaction
resolve_refused now s id status digest a found may = rw (found, resolve_within_transaction) (rw may)

resolve_ok :
    (now : ℕ) (s : Store) (id : String) (status : ApprovalStatus) (digest : String)
    (a : ApprovalRecord)
    → get_approval s id ≡ some a
    → may_resolve now s status digest a ≡ true
    → resolve_within_transaction now s id status digest
      ≡ (record s { approvals = update_by approval_id id (resolved now status) s.approvals }, true)
unfolding resolve_within_transaction
resolve_ok now s id status digest a found may = rw (found, resolve_within_transaction) (rw may)

update-IsResolved :
    (now : ℕ) (s : Store) (id : String) (status : ApprovalStatus) (a : ApprovalRecord)
    → get_approval s id ≡ some a
    → IsResolved now s id status a
        (record s { approvals = update_by approval_id id (resolved now status) s.approvals })
unfolding get_approval
update-IsResolved now s id status a found = record {
  left = ground (
    arith,
    eq_iff id id,
    find_by-update_by approval_id id id (resolved now status) (λ _. refl) s.approvals,
  );
  others = λ other apart. ground (
    arith,
    eq_iff id other,
    find_by-update_by approval_id id other (resolved now status) (λ _. refl) s.approvals,
  );
  rest = refl;
}

-- A resolution either was allowed, that is, the approval was pending, the digest of the execution is
-- the one that was asked about, the run is there and live, and, for APPROVED, the approval has not
-- expired, and then it resolves that approval and touches no other and nothing else of the store; or
-- it was not allowed, and then it reports no change and leaves the store as it was.
pub resolve-Resolves :
    (now : ℕ) (s : Store) (id : String) (status : ApprovalStatus) (digest : String) (t : Store)
    (changed : Bool)
    → resolve_within_transaction now s id status digest ≡ (t, changed)
    → ((changed ≡ true)
        × (a : ApprovalRecord) × IsAllowed now s id status digest a
        × IsResolved now s id status a t)
      ⊎ ((changed ≡ false)
          × (t ≡ s)
          × ((a : ApprovalRecord) → ¬ IsAllowed now s id status digest a))
unfolding resolve_within_transaction
resolve-Resolves now s id status digest t changed h = elim (Option-cases (get_approval s id)) [
  | inl gone ↦ inr (
    ground (arith, gone),
    ground (arith, gone),
    λ a allowed. absurd (ground (arith, gone, allowed.found)),
  )
  | inr (a, found) ↦ elim (Bool-cases (may_resolve now s status digest a)) [
    | inl may ↦
        let done = resolve_ok now s id status digest a found may in
        let u : Store = record s {
          approvals = update_by approval_id id (resolved now status) s.approvals;
        } in
        let same : u ≡ t = ground (arith, done) in
        inl (
          ground (arith, done),
          a,
          may_resolve-IsAllowed now s id status digest a found may,
          subst (IsResolved now s id status a) same (update-IsResolved now s id status a found),
        )
    | inr may_not ↦
        let refused = resolve_refused now s id status digest a found may_not in
        inr (
          ground (arith, refused),
          ground (arith, refused),
          λ b allowed. absurd (
              ground (
                arith,
                found,
                allowed.found,
                allowed-may_resolve now s id status digest b allowed,
              )),
        )
  ]
]

-- The append of the event of a resolution.
abbrev resolution_event : ApprovalRecord → Fields → AppendRunEvent
resolution_event a payload = record {
  run_id = a.run_id;
  type = approval_resolved;
  payload = payload;
  status = none;
  error_code = none;
  error_message = none;
  usage = none;
}

may_resolve-live :
    (now : ℕ) (s : Store) (status : ApprovalStatus) (digest : String) (a : ApprovalRecord)
    → may_resolve now s status digest a ≡ true
    → has_live_run s a.run_id ≡ true
unfolding may_resolve
may_resolve-live now s status digest a h = ground arith

-- In a store with a gapless log, the resolution of an approval that may be resolved always commits:
-- it returns the resolved approval, and the log has one event more.
pub resolve_and_append_total :
    (now : ℕ) (s : Store) (id : String) (status : ApprovalStatus) (digest : String)
    (payload : Fields) (a : ApprovalRecord)
    → IsLog s
    → get_approval s id ≡ some a
    → may_resolve now s status digest a ≡ true
    → (u : Store) × (e : RunEvent) × (resolve_approval_and_append_event now s id status digest
          payload
        ≡ ok (u, some (resolved now status a)))
      × (u.events ≡ s.events ++ e ∷ [])
      × (e.run_id ≡ a.run_id)
      × (e.type ≡ approval_resolved)
unfolding resolve_approval_and_append_event event_at after_event
resolve_and_append_total now s id status digest payload a log found may =
    elim (Option-cases (get_row s a.run_id)) [
      | inl gone ↦ absurd (ground (arith, may_resolve-live now s status digest a may, gone))
      | inr (row, there) ↦
          let t : Store = record s {
            approvals = update_by approval_id id (resolved now status) s.approvals;
          } in
          let event = resolution_event a payload in
          let done = resolve_ok now s id status digest a found may in
          let left = (update-IsResolved now s id status a found).left in
          let live : is_terminal_run_status row.status ≡ false =
            ground (arith, may_resolve-live now s status digest a may, there) in
          let appended = append_event_total now t event row log there live refl in
          (
            after_event now t event (row.last_sequence + 1),
            event_at now (row.last_sequence + 1) event,
            rw (done, left, appended),
            refl,
            refl,
            refl,
          )
    ]
