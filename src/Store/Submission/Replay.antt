-- ===== src/Store/Submission/Replay.antt =====
-- A submission that is repeated under its key.
use lite_harness.Common.{
  ℕ, ◌≡◌, String, Bool, true, false, some, none, [], ◌∷◌, ok, err, arith, refl, find?-append,
  eq_refl, eq_iff, Option-cases, inl, inr, returned_before, if◌then◌else◌, ◌==◌, subst,
}
use lite_harness.Run.Record.{RunRecord, ResourceOwner}
use lite_harness.Store.Rows.{RunRow, to_run_record}
use lite_harness.Store.Resources.{Database, StartRunRequest}
use lite_harness.Store.Submission.{create_run, create_or_get_run}
use lite_harness.Store.Provision.{FreshIds, find_submission, has_key, idempotency_key_reused}
use lite_harness.Store.Submission.Created.{IsCreated, create_run-IsCreated}

module _ (fingerprint : StartRunRequest → String) where
  -- The run that answers under a key, and whose fingerprint it has.
  Answers : Database → ResourceOwner → String → String → RunRecord → Type 0
  Answers d principal key print run =
      (row : RunRow) × (find_submission principal key d.store.runs ≡ some row)
      × (row.request_fingerprint ≡ print)
      × (to_run_record row ≡ run)

  created-Answers :
      (now : ℕ) (id : String) (fresh : FreshIds) (db d : Database) (q : StartRunRequest)
      (row : RunRow)
      → find_submission q.principal q.idempotency_key db.store.runs ≡ none
      → IsCreated fingerprint now id fresh db q d row
      → Answers d q.principal q.idempotency_key (fingerprint q) (to_run_record row)
  unfolding Answers
  created-Answers now id fresh db d q row new c = (
    row,
    ground (
      arith,
      new,
      c.store_is,
      c.row_is,
      find?-append (has_key q.principal q.idempotency_key) db.store.runs (row ∷ []),
      eq_refl q.principal.app_id,
      eq_refl q.principal.tenant_id,
      eq_refl q.principal.user_id,
      eq_refl q.idempotency_key,
    ),
    ground (arith, c.row_is),
    refl,
  )

  create_or_get_run-Answers :
      (now : ℕ) (id : String) (fresh : FreshIds) (db d : Database) (q : StartRunRequest)
      (run : RunRecord) (created : Bool)
      → create_or_get_run fingerprint now id fresh db q ≡ ok (d, run, created)
      → Answers d q.principal q.idempotency_key (fingerprint q) run
  unfolding create_or_get_run
  create_or_get_run-Answers now id fresh db d q run created h =
      elim (Option-cases (find_submission q.principal q.idempotency_key db.store.runs)) [
        | inr (row, found) ↦
            unfold Answers in
            (
              row,
              ground (arith, found),
              ground (arith, found, eq_iff row.request_fingerprint (fingerprint q)),
              ground (arith, found),
            )
        | inl new ↦
            let ((e, row), ends, made) =
              returned_before {Next = Database × RunRecord × Bool} {w = (d, run, created)}
                (λ (e, row). ok (e, to_run_record row, true))
                (create_run fingerprint now id fresh db q) (ground (arith, new)) in
            let same : e ≡ d = ground (arith, ends) in
            let answer : to_run_record row ≡ run = ground (arith, ends) in
            subst (λ r. Answers d q.principal q.idempotency_key (fingerprint q) r) answer
              (subst
                (λ f. Answers f q.principal q.idempotency_key (fingerprint q) (to_run_record row))
                same
                (created-Answers now id fresh db e q row new
                  (create_run-IsCreated fingerprint now id fresh db e q row made)))
      ]

  -- After a submission that returned, whether it created its run or found it, a submission of the same
  -- principal under the same idempotency key creates nothing: it returns the same run if its request
  -- has the same fingerprint, and is refused otherwise.
  pub create_or_get_run_again :
      (now later : ℕ) (id then_id : String) (fresh then_fresh : FreshIds) (db d : Database)
      (q again : StartRunRequest) (run : RunRecord) (created : Bool)
      → create_or_get_run fingerprint now id fresh db q ≡ ok (d, run, created)
      → again.principal ≡ q.principal
      → again.idempotency_key ≡ q.idempotency_key
      → create_or_get_run fingerprint later then_id then_fresh d again ≡ (
          if fingerprint q == fingerprint again
          then ok (d, run, false)
          else err idempotency_key_reused)
  unfolding create_or_get_run Answers
  create_or_get_run_again now later id then_id fresh then_fresh db d q again run created h principal
        key =
      let (row, found, print, answer) =
        create_or_get_run-Answers now id fresh db d q run created h in
      let same : find_submission again.principal again.idempotency_key d.store.runs ≡ some row =
        rw (principal, key) found in
      ground (arith, same, print, answer)
