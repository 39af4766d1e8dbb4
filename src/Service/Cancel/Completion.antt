-- ===== src/Service/Cancel/Completion.antt =====
-- The calls of a cancellation, with enough fuel: packages/control-plane/src/index.ts (`cancelRun`).
use lite_harness.Common.{
  ℕ, zero, suc, ◌+◌, ◌≤◌, ◌<◌, ◌≡◌, refl, sym, subst, ◌∙◌, String, true, false, ◌&&◌, some, List,
  [], ◌∷◌, Result, ok, arith, all, keep, eqb, leb, eq_iff, Option-cases, Bool-cases, inl, inr, ◌==◌,
}
use lite_harness.Run.Status.{cancelled, is_terminal_run_status}
use lite_harness.Store.Rows.{RunRow, RunEventType}
use lite_harness.Store.Tables.{get_row}
use lite_harness.Store.Json.{field, text, no_fields}
use lite_harness.Service.State.{Service, ServiceError, AbortReason, abort, is_active}
use lite_harness.Service.Transition.Statuses.{status_of, transition-status_of}
use lite_harness.Service.Finish.Ready.{transition_total}
use lite_harness.Service.Cancel.{
  cancel_each, cancel_self, cancel_run, list_child_runs, sort_runs, is_child_of,
}
use lite_harness.Service.Cancel.Halting.{
  all-sort_runs, is_halted, cancel_run-halts, cancel_run_missing, cancel_run_final, cancel_run_live,
}
use lite_harness.Service.Cancel.Trees.{
  is_placed, Cancellable, all-find_by, may_cancel, aborted-Cancellable, transition-Cancellable,
}

module _ (rank : String → ℕ) (bound : ℕ) where
  -- What a part of a cancellation does, from the runs of a rank on: it returns, keeps the trees, and
  -- leaves the runs of a lower rank.
  abbrev Cancels : ℕ → Service → Result ServiceError Service → Type 0
  Cancels level s call =
      (t : Service) × (call ≡ ok t)
      × Cancellable rank bound t
      × ((id : String) → rank id < level → status_of t.store id ≡ status_of s.store id)

  apart : (run_id id : String) → rank id < rank run_id → (run_id == id) ≡ false
  apart run_id id below = elim (Bool-cases (run_id == id)) [
    | inr o ↦ o
    | inl e ↦
        absurd
          (omega (arith, subst (λ j. rank j < rank run_id) (sym ((eq_iff run_id id).0 e)) below))
  ]

  cancel_self_total :
      (now : ℕ) (run_id : String) (s : Service) (row : RunRow)
      → Cancellable rank bound s
      → get_row s.store run_id ≡ some row
      → is_terminal_run_status row.status ≡ false
      → Cancels (rank run_id) s (cancel_self now run_id s)
  unfolding cancel_self is_terminal_run_status
  cancel_self_total now run_id s row c found live = elim (Bool-cases (is_active run_id s)) [
    | inl active ↦ (
      abort run_id AbortReason.run_cancelled s,
      rw active refl,
      aborted-Cancellable rank bound s run_id c,
      λ id below. refl,
    )
    | inr idle ↦
        let payload = field "reason" (text "requested") no_fields in
        let type = RunEventType.run_cancelled in
        let allowed =
          may_cancel row.status live (ground (arith, c.stoppable run_id, idle, found)) in
        let (t, done) =
          transition_total now s run_id row.status cancelled type payload allowed refl refl
            (record {
              log = c.log;
              run = row;
              found = found;
              current = refl;
              family = c.families run_id row found;
            }) in
        let m = transition-status_of now s run_id cancelled type payload t done in
        (
          t,
          rw idle done,
          transition-Cancellable rank bound now s run_id t c done,
          λ id below. ground (arith, m.3 id, apart run_id id below),
        )
  ]

  module _ (cancel : Service → String → Result ServiceError Service) (level : ℕ)
      (cancels : (s : Service) (id : String)
        → Cancellable rank bound s
        → rank id ≡ level
        → rank id ≤ bound
        → Cancels level s (cancel s id)) where
    cancel_each_total :
        (cs : List RunRow) (s : Service)
        → Cancellable rank bound s
        → all (λ r. eqb (rank r.id) level && leb (rank r.id) bound) cs ≡ true
        → Cancels level s (cancel_each cancel cs s)
    unfolding cancel_each
    cancel_each_total [] s c placed = (s, refl, c, λ id below. refl)
    cancel_each_total (r ∷ rs) s c placed =
        let (t, first, kept, same) = cancels s r.id c (ground arith) (ground arith) in
        let (u, rest, all_kept, all_same) = cancel_each_total rs t kept (ground arith) in
        (u, rw first rest, all_kept, λ id below. all_same id below ∙ same id below)

  child_placed :
      (run_id : String) (r : RunRow)
      → is_child_of run_id r ≡ true
      → is_placed rank bound r ≡ true
      → (eqb (rank r.id) (rank run_id + 1) && leb (rank r.id) bound) ≡ true
  child_placed run_id r child placed = elim (Option-cases r.parent_run_id) [
    | inl root ↦ absurd (ground (arith, root))
    | inr (p, at) ↦
        let same : p ≡ run_id = ground (arith, at, eq_iff p run_id) in
        let placed_at : eqb (rank r.id) (rank p + 1) ≡ true = ground (arith, at) in
        ground (arith, subst (λ j. eqb (rank r.id) (rank j + 1) ≡ true) same placed_at)
  ]

  children_placed :
      (run_id : String) (rs : List RunRow)
      → all (is_placed rank bound) rs ≡ true
      → all
          (λ r. eqb (rank r.id) (rank run_id + 1) && leb (rank r.id) bound)
          (keep (is_child_of run_id) rs)
        ≡ true
  children_placed run_id [] placed = refl
  children_placed run_id (r ∷ rs) placed =
      ground (arith, child_placed run_id r, children_placed run_id rs)

  unchanged :
      (level : ℕ) (s : Service) (call : Result ServiceError Service)
      → Cancellable rank bound s
      → call ≡ ok s
      → Cancels level s call
  unchanged level s call c same = (s, same, c, λ id below. refl)

  -- The rank of the run bounds how deep the calls go.
  cancel_run-Cancels :
      (fuel now : ℕ) (s : Service) (run_id : String)
      → Cancellable rank bound s
      → rank run_id ≤ bound
      → bound < rank run_id + fuel
      → Cancels (rank run_id) s (cancel_run fuel now s run_id)
  unfolding list_child_runs
  cancel_run-Cancels zero now s run_id c low enough = absurd (omega arith)
  cancel_run-Cancels (suc fuel) now s run_id c low enough =
      elim (Option-cases (get_row s.store run_id)) [
        | inl gone ↦ unchanged _ s _ c (cancel_run_missing fuel now s run_id gone)
        | inr (run, found) ↦ elim (Bool-cases (is_terminal_run_status run.status)) [
          | inl final ↦ unchanged _ s _ c (cancel_run_final fuel now s run_id run found final)
          | inr live ↦
              let children = keep (is_child_of run_id) s.store.runs in
              let (t, first, kept, same) =
                cancel_each_total (cancel_run fuel now) (rank run_id + 1)
                  (λ u id d at under.
                    subst (λ level. Cancels level u (cancel_run fuel now u id)) at
                      (cancel_run-Cancels fuel now u id d under (omega (arith, at))))
                  (sort_runs children) s c
                  (all-sort_runs (λ r. eqb (rank r.id) (rank run_id + 1) && leb (rank r.id) bound)
                      children
                    ∙ children_placed run_id s.store.runs c.placed) in
              let status : status_of t.store run_id ≡ some run.status =
                same run_id (omega arith) ∙ ground (arith, found) in
              elim (Option-cases (get_row t.store run_id)) [
                | inl gone ↦ absurd (ground (arith, gone, status))
                | inr (row, there) ↦
                    let (u, last, all_kept, all_same) =
                      cancel_self_total now run_id t row kept there
                        (ground (arith, there, status, live)) in
                    (
                      u,
                      rw (cancel_run_live fuel now s run_id run found live, first) last,
                      all_kept,
                      λ id below. all_same id below ∙ same id (omega (arith, below)),
                    )
              ]
        ]
      ]

  -- Where the logs are gapless, the runs form trees of bounded depth in the database, and no live run
  -- that nobody executes is in CHECKPOINTING, a cancellation of a live run returns, with as much fuel
  -- as the depth below the run allows for; it leaves the run and each of its children ended or told to
  -- stop, whoever was so before (or was not there) still is, and the status of every run above its
  -- level is what it was.
  pub cancel_run_total :
      (fuel now : ℕ) (s : Service) (run_id : String) (run : RunRow)
      → Cancellable rank bound s
      → bound < rank run_id + fuel
      → get_row s.store run_id ≡ some run
      → is_terminal_run_status run.status ≡ false
      → (t : Service) × (cancel_run fuel now s run_id ≡ ok t)
        × (is_halted t run_id ≡ true)
        × ((id : String) (child : RunRow)
            → get_row s.store id ≡ some child
            → child.parent_run_id ≡ some run_id
            → is_halted t child.id ≡ true)
        × ((id : String) → is_halted s id ≡ true → is_halted t id ≡ true)
        × ((id : String) → rank id < rank run_id → status_of t.store id ≡ status_of s.store id)
  cancel_run_total fuel now s run_id run c enough found live =
      let (placed, named) =
        all-find_by (is_placed rank bound) s.store.runs run_id run c.placed found in
      let placed_at : leb (rank run.id) bound ≡ true = ground arith in
      let low : leb (rank run_id) bound ≡ true =
        subst (λ id. leb (rank id) bound ≡ true) named placed_at in
      let (t, done, _, above) = cancel_run-Cancels fuel now s run_id c (ground arith) enough in
      let (own, children, still) = cancel_run-halts fuel now s t run_id run done found live in
      (t, done, own, children, still, above)
