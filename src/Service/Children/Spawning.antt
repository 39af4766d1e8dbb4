-- ===== src/Service/Children/Spawning.antt =====
-- The row of a child that a call of `createChildRun` created.
use lite_harness.Common.{
  ℕ, ◌+◌, ◌≡◌, String, true, false, some, none, [], ◌∷◌, ok, arith, ap, sym, ◌∙◌, eq_iff,
  find_by-append, Result-cases, Bool-cases, inl, inr, returned_before, ◌==◌, subst,
}
use lite_harness.Run.Record.{RunRecord, RunBudget}
use lite_harness.Run.ChildBudget.{bounded_child_budget, remaining_child_budget}
use lite_harness.Store.Rows.{RunRow, to_run_record}
use lite_harness.Store.Tables.{get_row, run_id_of}
use lite_harness.Store.Events.{append_event}
use lite_harness.Store.Events.Append.{append_event-Appended}
use lite_harness.Store.Events.Log.{get_row-append}
use lite_harness.Store.Resources.{StartRunRequest, normalize_budget}
use lite_harness.Store.Submission.{create_or_get_run}
use lite_harness.Store.Provision.{FreshIds}
use lite_harness.Store.Submission.Created.{IsCreated, create_or_get_run-IsCreated}
use lite_harness.Store.Submission.Log.{free_id}
use lite_harness.Service.Children.{
  child_run_request, tell_of_child, spawn_child, children_of, started_event,
}
use lite_harness.Service.Intake.{Intake, CreateRunResponse, ChildRequest, submit_run}

submit_run-IsCreated :
    (fingerprint : StartRunRequest → String) (now : ℕ) (id : String) (fresh : FreshIds)
    (s t : Intake) (q : StartRunRequest) (r : CreateRunResponse)
    → submit_run fingerprint now id fresh s q ≡ ok (t, r)
    → r.is_replay ≡ false
    → (row : RunRow) × IsCreated fingerprint now id fresh s.database q t.database row
      × (r.run_id ≡ row.id)
unfolding submit_run to_run_record
submit_run-IsCreated fingerprint now id fresh s t q r h new =
    elim (Result-cases (create_or_get_run fingerprint now id fresh s.database q)) [
      | inl (e, failed) ↦ absurd (ground (arith, failed))
      | inr ((d, run, false), done) ↦ absurd (ground (arith, done))
      | inr ((d, run, true), done) ↦
          let (row, made, same) =
            create_or_get_run-IsCreated fingerprint now id fresh s.database d q run done in
          let ends : d ≡ t.database = ground (arith, done) in
          (
            row,
            subst (λ f. IsCreated fingerprint now id fresh s.database q f row) ends made,
            ground (arith, done, same),
          )
    ]

tell_of_child-keeps :
    (suffix : String → String) (now : ℕ) (parent : RunRecord) (q : ChildRequest) (s t : Intake)
    (r response : CreateRunResponse)
    → tell_of_child suffix now parent q (s, r) ≡ ok (t, response)
    → (r ≡ response)
      × ((id : String)
          → (parent.id == id) ≡ false
          → get_row t.database.store id ≡ get_row s.database.store id)
unfolding tell_of_child
tell_of_child-keeps suffix now parent q s t r response h = elim (Bool-cases r.is_replay) [
  | inl old ↦ (ground (arith, old), λ id other. ground (arith, old))
  | inr new ↦
      let params = started_event suffix parent q r.run_id in
      elim (Result-cases (append_event now s.database.store params)) [
        | inl (e, failed) ↦ absurd (ground (arith, new, failed))
        | inr ((u, e), done) ↦
            let a = append_event-Appended now s.database.store params u e done in
            (
              ground (arith, new, done),
              λ id other.
                  ground (arith, new, done, get_row-append now s.database.store params u e a id),
            )
      ]
]

-- The row of a child that was created for a granted budget, and is there after its parent was told.
pub record IsGranted (s t : Intake) (parent : RunRow) (b : RunBudget) (child : RunRow)
    : Type 0 where
  pub stored : get_row t.database.store child.id ≡ some child
  pub owner : child.owner ≡ parent.owner
  pub parent_is : child.parent_run_id ≡ some parent.id
  pub depth : child.depth ≡ parent.depth + 1
  pub not_delivered : child.delivery_allowed ≡ false
  pub budget : child.budget ≡ b

created-IsGranted :
    (fingerprint : StartRunRequest → String) (suffix : String → String) (now : ℕ) (id : String)
    (fresh : FreshIds) (s u t : Intake) (q : ChildRequest) (parent child : RunRow) (b : RunBudget)
    → get_row s.database.store parent.id ≡ some parent
    → IsCreated fingerprint now id fresh s.database
        (child_run_request suffix (to_run_record parent) q b)
        u.database
        child
    → ((j : String)
        → (parent.id == j) ≡ false
        → get_row t.database.store j ≡ get_row u.database.store j)
    → IsGranted s t parent b child
unfolding to_run_record normalize_budget
created-IsGranted fingerprint suffix now id fresh s u t q parent child b found c kept =
    let id_is : child.id ≡ id = ap (λ r. r.id) c.row_is in
    let free : get_row s.database.store id ≡ none =
      free_id id s.database.store.runs c.id_was_free in
    let here : get_row u.database.store id ≡ some child = ground (
      arith,
      c.store_is,
      free,
      id_is,
      eq_iff child.id id,
      find_by-append run_id_of id s.database.store.runs (child ∷ []),
    ) in
    let apart : (parent.id == id) ≡ false = ground (arith, found, free, eq_iff parent.id id) in
    record {
      stored = ground (arith, kept id apart, here, id_is);
      owner = ap (λ r. r.owner) c.row_is;
      parent_is = ap (λ r. r.parent_run_id) c.row_is;
      depth = ap (λ r. r.depth) c.row_is;
      not_delivered = ap (λ r. r.delivery_allowed) c.row_is;
      budget = ap (λ r. r.budget) c.row_is;
    }

pub spawned_row :
    (fingerprint : StartRunRequest → String) (suffix : String → String) (now : ℕ) (id : String)
    (fresh : FreshIds) (s t : Intake) (q : ChildRequest) (parent : RunRow)
    (response : CreateRunResponse)
    → get_row s.database.store parent.id ≡ some parent
    → spawn_child fingerprint suffix now id fresh s q
        (to_run_record parent)
        (children_of s (to_run_record parent))
      ≡ ok (t, response)
    → response.is_replay ≡ false
    → (child : RunRow) × (b : RunBudget) × (response.run_id ≡ child.id)
      × IsGranted s t parent b child
      × (bounded_child_budget q.budget
            (to_run_record parent)
            (remaining_child_budget (to_run_record parent) (children_of s (to_run_record parent)))
          ≡ ok b)
unfolding spawn_child
spawned_row fingerprint suffix now id fresh s t q parent response found h new =
    let run = to_run_record parent in
    elim (Result-cases
      (bounded_child_budget q.budget run (remaining_child_budget run (children_of s run)))) [
        | inl (e, failed) ↦ absurd (ground (arith, failed))
        | inr (b, granted) ↦
            let asked = child_run_request suffix run q b in
            let ((u, r), told, made) =
              returned_before {Next = Intake × CreateRunResponse} {w = (t, response)}
                (tell_of_child suffix now run q) (submit_run fingerprint now id fresh s asked)
                (ground (arith, granted)) in
            let (same, kept) = tell_of_child-keeps suffix now run q u t r response told in
            let (child, c, named) =
              submit_run-IsCreated fingerprint now id fresh s u asked r made
                (ground (arith, same)) in
            (
              child,
              b,
              ap (λ o. o.run_id) (sym same) ∙ named,
              created-IsGranted fingerprint suffix now id fresh s u t q parent child b found c
                  (unfold to_run_record in kept),
              granted,
            )
      ]
