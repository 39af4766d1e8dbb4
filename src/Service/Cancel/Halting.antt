-- ===== src/Service/Cancel/Halting.antt =====
-- Cancelled runs halt: a run is cancelled at once or its execution is told to stop.
use lite_harness.Common.{
  ◌∙◌, sym, all, keep, ℕ, zero, suc, String, Bool, true, false, ◌||◌, ◌≡◌, some, none, arith,
  eq_iff, eq_refl, refl, ok, err, Option, Option-cases, Bool-cases, inl, inr, along, Result, List,
  [], ◌∷◌, ◌>>=◌, returned_before, find_by, find_by-update_by, ◌==◌,
}
use lite_harness.Run.Status.{RunStatus, cancelled, is_terminal_run_status}
use lite_harness.Store.Json.{Fields}
use lite_harness.Store.Rows.{RunEvent, RunEventType}
use lite_harness.Store.Tables.{Store, get_row, StoreError, run_id_of}
use lite_harness.Service.State.{
  Service, AbortReason, Controller, controller_of, abort_with, abort, is_active,
}
use lite_harness.Service.Transition.{transition, after_transition, tell_parent, tell_parent_with}
use lite_harness.Service.Transition.Log.{transition-Transitioned, drop_summary-store}
use lite_harness.Service.Transition.Statuses.{status_of, transition-status_of}
use lite_harness.Service.Cancel.{
  cancel_each, cancel_self, cancel_run, list_child_runs, insert_run, sort_runs, is_child_of,
  ServiceError, RunRow,
}

abbrev is_final : Option RunStatus → Bool
is_final none = true
is_final (some status) = is_terminal_run_status status

abbrev pub is_aborted_controller : Option Controller → Bool
is_aborted_controller none = false
is_aborted_controller (some c) = elim c.reason [ none ↦ false | some _ ↦ true ]

-- The run has ended, or its execution has been told to stop; so too a run that is not there.
abbrev pub is_halted : Service → String → Bool
is_halted s id =
    is_final (status_of s.store id) || is_aborted_controller (find_by controller_of id s.active)

tell_parent_with-active :
    (s : Service) (parent_id : String) (r : Result StoreError (Store × RunEvent)) (t : Service)
    → tell_parent_with s parent_id r ≡ ok t
    → t.active ≡ s.active
unfolding tell_parent_with
tell_parent_with-active s parent_id (err e) t h = rw (drop_summary-store s parent_id e t h) refl
tell_parent_with-active s parent_id (ok (u, e)) t h = along (λ v. v.active ≡ s.active) h refl

after_transition-active :
    (now : ℕ) (s : Service) (run_id : String) (status : RunStatus) (payload : Fields)
    (parent : Option String) (t : Service)
    → after_transition now s run_id status payload parent ≡ ok t
    → t.active ≡ s.active
unfolding after_transition tell_parent
after_transition-active now s run_id status payload none t h =
    along (λ v. v.active ≡ s.active) h refl
after_transition-active now s run_id status payload (some p) t h = tell_parent_with-active s p _ t h

pub transition-active :
    (now : ℕ) (s : Service) (run_id : String) (status : RunStatus) (type : RunEventType)
    (payload : Fields) (t : Service)
    → transition now s run_id status type payload ≡ ok t
    → t.active ≡ s.active
transition-active now s run_id status type payload t h =
    let c = transition-Transitioned now s run_id status type payload t h in
    after_transition-active now _ run_id status payload _ t c.rest

abort_with-id :
    (reason : AbortReason) (c : Controller) → controller_of (abort_with reason c) ≡ controller_of c
abort_with-id reason c = refl

abort-is_halted :
    (run_id : String) (reason : AbortReason) (s : Service) (id : String)
    → is_active run_id s ≡ true
    → is_halted (abort run_id reason s) id ≡ (run_id == id || is_halted s id)
abort-is_halted run_id reason s id active = ground (
  arith,
  find_by-update_by controller_of run_id id (abort_with reason) (abort_with-id reason) s.active,
  eq_iff run_id id,
)

-- What one step of a cancellation keeps: who is halted stays halted.
cancel_self-is_halted :
    (now : ℕ) (run_id : String) (s : Service) (t : Service) (id : String)
    → cancel_self now run_id s ≡ ok t
    → (run_id == id || is_halted s id) ≡ true
    → is_halted t id ≡ true
unfolding cancel_self is_terminal_run_status
cancel_self-is_halted now run_id s t id h k = elim (Bool-cases (is_active run_id s)) [
  | inl a ↦
      along (λ v. is_halted v id ≡ true) (rw a at h)
        (abort-is_halted run_id AbortReason.run_cancelled s id a ∙ k)
  | inr n ↦
      let m = transition-status_of now s run_id cancelled _ _ t (rw n at h) in
      ground (arith, m.3 id, transition-active now s run_id cancelled _ _ t (rw n at h))
]

module _ (cancel : Service → String → Result ServiceError Service)
    (keeps : (s t : Service) (c id : String)
      → cancel s c ≡ ok t
      → (is_halted s id || c == id) ≡ true
      → is_halted t id ≡ true) where
  cancel_each-keeps :
      (cs : List RunRow) (s t : Service) (id : String)
      → cancel_each cancel cs s ≡ ok t
      → is_halted s id ≡ true
      → is_halted t id ≡ true
  unfolding cancel_each
  cancel_each-keeps [] s t id h k = along (λ v. is_halted v id ≡ true) h k
  cancel_each-keeps (c ∷ cs) s t id h k =
      let (u, rest, first) = returned_before (cancel_each cancel cs) (cancel s c.id) h in
      cancel_each-keeps cs u t id rest (keeps s u c.id id first (rw k refl))

  cancel_each-halts :
      (cs : List RunRow) (s t : Service)
      → cancel_each cancel cs s ≡ ok t
      → all (λ c. is_halted t c.id) cs ≡ true
  unfolding cancel_each
  cancel_each-halts [] s t h = refl
  cancel_each-halts (c ∷ cs) s t h =
      let (u, rest, first) = returned_before (cancel_each cancel cs) (cancel s c.id) h in
      let here =
        cancel_each-keeps cs u t c.id rest
          (keeps s u c.id c.id first (ground (arith, eq_refl c.id))) in
      rw (here, cancel_each-halts cs u t rest) refl

module _ (fuel now : ℕ) (s : Service) (run_id : String) where
  pub cancel_run_missing : get_row s.store run_id ≡ none → cancel_run (suc fuel) now s run_id ≡ ok s
  unfolding cancel_run
  cancel_run_missing n = ground (arith, n)

  module _ (run : RunRow) (found : get_row s.store run_id ≡ some run) where
    pub cancel_run_final :
        is_terminal_run_status run.status ≡ true → cancel_run (suc fuel) now s run_id ≡ ok s
    unfolding cancel_run
    cancel_run_final final = ground (arith, found, final)

    pub cancel_run_live :
        is_terminal_run_status run.status ≡ false
        → cancel_run (suc fuel) now s run_id ≡ (
            cancel_each (cancel_run fuel now) (list_child_runs s.store run_id) s
            >>= cancel_self now run_id)
    unfolding cancel_run
    cancel_run_live live = ground (arith, found, live)

cancel_run-keeps :
    (fuel now : ℕ) (s t : Service) (run_id id : String)
    → cancel_run fuel now s run_id ≡ ok t
    → (is_halted s id || run_id == id) ≡ true
    → is_halted t id ≡ true
unfolding cancel_run
cancel_run-keeps zero now s t run_id id h k = cc
cancel_run-keeps (suc fuel) now s t run_id id h k = elim (Option-cases (get_row s.store run_id)) [
  | inl n ↦
      along (λ v. is_halted v id ≡ true) (rw (cancel_run_missing fuel now s run_id n) at h)
        (ground (arith, n, eq_iff run_id id))
  | inr (run, found) ↦ elim (Bool-cases (is_terminal_run_status run.status)) [
    | inl final ↦
        along (λ v. is_halted v id ≡ true)
          (rw (cancel_run_final fuel now s run_id run found final) at h)
          (ground (arith, found, eq_iff run_id id))
    | inr live ↦
        let (u, last, children) =
          returned_before (cancel_self now run_id)
            (cancel_each (cancel_run fuel now) (list_child_runs s.store run_id) s)
            (rw (cancel_run_live fuel now s run_id run found live) at h) in
        elim (Bool-cases (run_id == id)) [
          | inl e ↦ cancel_self-is_halted now run_id u t id last (rw e refl)
          | inr o ↦
              let before : is_halted s id ≡ true = ground arith in
              let kept =
                cancel_each-keeps (cancel_run fuel now)
                  (λ a b c d. cancel_run-keeps fuel now a b c d) (list_child_runs s.store run_id) s
                  u id children before in
              cancel_self-is_halted now run_id u t id last (ground (arith, kept))
        ]
  ]
]

pub all-insert_run :
    (p : RunRow → Bool) (r : RunRow) (xs : List RunRow) → all p (insert_run r xs) ≡ all p (r ∷ xs)
unfolding insert_run
all-insert_run p r [] = refl
all-insert_run p r (x ∷ xs) = ground (arith, all-insert_run p r xs)

pub all-sort_runs : (p : RunRow → Bool) (xs : List RunRow) → all p (sort_runs xs) ≡ all p xs
unfolding sort_runs
all-sort_runs p [] = refl
all-sort_runs p (x ∷ xs) = all-insert_run p x (sort_runs xs) ∙ ground (arith, all-sort_runs p xs)

all-keep :
    (p q : RunRow → Bool) (xs : List RunRow) (id : String) (c : RunRow)
    → all p (keep q xs) ≡ true
    → find_by run_id_of id xs ≡ some c
    → q c ≡ true
    → p c ≡ true
all-keep p q [] id c h f k = cc
all-keep p q (x ∷ xs) id c h f k = ground (arith, all-keep p q xs id c)

-- A cancellation of a live run that returns leaves the run and each of its children ended or told to
-- stop, and whoever was so before (or was not there) still is.
pub cancel_run-halts :
    (fuel now : ℕ) (s t : Service) (run_id : String) (run : RunRow)
    → cancel_run fuel now s run_id ≡ ok t
    → get_row s.store run_id ≡ some run
    → is_terminal_run_status run.status ≡ false
    → (is_halted t run_id ≡ true)
      × ((id : String) (child : RunRow)
          → get_row s.store id ≡ some child
          → child.parent_run_id ≡ some run_id
          → is_halted t child.id ≡ true)
      × ((id : String) → is_halted s id ≡ true → is_halted t id ≡ true)
unfolding cancel_run list_child_runs
cancel_run-halts zero now s t run_id run h found live = cc
cancel_run-halts (suc fuel) now s t run_id run h found live =
    let (u, last, children) =
      returned_before (cancel_self now run_id)
        (cancel_each (cancel_run fuel now) (list_child_runs s.store run_id) s)
        (rw (cancel_run_live fuel now s run_id run found live) at h) in
    let all_halt =
      cancel_each-halts (cancel_run fuel now) (λ a b c d. cancel_run-keeps fuel now a b c d)
        (list_child_runs s.store run_id) s u children in
    (
      cancel_self-is_halted now run_id u t run_id last (ground (arith, eq_refl run_id)),
      λ id child at parent. cancel_self-is_halted now run_id u t child.id last (
          ground (
            arith,
            all-keep (λ c. is_halted u c.id) (is_child_of run_id) s.store.runs id child
                (sym
                    (all-sort_runs (λ c. is_halted u c.id) (keep (is_child_of run_id) s.store.runs))
                  ∙ all_halt)
                at (ground (arith, parent, eq_refl run_id)),
          )),
      λ id k. cancel_run-keeps (suc fuel) now s t run_id id h (rw k refl),
    )
