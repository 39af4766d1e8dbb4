-- ===== src/Service/Cancel/Trees.antt =====
-- The trees that the runs form, and that a cancellation keeps: packages/control-plane/src/index.ts
-- (`cancelRun`).
use lite_harness.Common.{
  ℕ, ◌+◌, ◌≡◌, refl, subst, ◌∙◌, String, Bool, true, false, ◌&&◌, ◌||◌, not, Option, some, none,
  List, [], ◌∷◌, ok, arith, all, eqb, leb, eq_iff, Option-cases, Bool-cases, inl, inr, ◌==◌,
  find_by, find_by-update_by, update_where,
}
use lite_harness.Run.Status.{
  RunStatus, accepted, queued, preparing, running, checkpointing, succeeded, failed, cancelled,
  timed_out, orphaned, is_terminal_run_status, is_status, assert_run_transition,
}
use lite_harness.Store.Rows.{RunRow, RunEvent, RunEventType}
use lite_harness.Store.Tables.{Store, get_row, run_id_of}
use lite_harness.Store.Json.{field, text, no_fields}
use lite_harness.Store.Events.{append_event, AppendRunEvent, apply_event}
use lite_harness.Store.Events.Append.{append_event-Appended}
use lite_harness.Store.Events.Log.{IsLog, get_row-append, append_event-IsLog}
use lite_harness.Service.State.{Service, AbortReason, controller_of, abort, abort_with, is_active}
use lite_harness.Service.Transition.{transition}
use lite_harness.Service.Transition.Log.{transition-keeps}
use lite_harness.Service.Transition.Statuses.{status_of, transition-status_of}
use lite_harness.Service.Finish.Ready.{HasFamily}
use lite_harness.Service.Cancel.Halting.{transition-active}

-- Every run that is there has its parent, another run, in the database.
abbrev pub HasFamilies : Store → Type 0
HasFamilies s =
    (id : String) (row : RunRow) → get_row s id ≡ some row → HasFamily s id row.parent_run_id

-- The rank of a run is one more than its parent's, and bounded.
abbrev pub is_placed : (String → ℕ) → ℕ → RunRow → Bool
is_placed rank bound row =
    leb (rank row.id) bound
    && elim row.parent_run_id [ none ↦ true | some p ↦ eqb (rank row.id) (rank p + 1) ]

-- A run in CHECKPOINTING, which the table does not let be cancelled, is being executed.
abbrev pub is_stoppable : Service → String → Bool
is_stoppable s id = is_active id s || elim (status_of s.store id) [
  | none ↦ true
  | some status ↦ not (is_status status checkpointing)
]

-- The runs form trees of bounded depth, with gapless logs.
pub record Cancellable (rank : String → ℕ) (bound : ℕ) (s : Service) : Type 0 where
  pub log : IsLog s.store
  pub placed : all (is_placed rank bound) s.store.runs ≡ true
  pub families : HasFamilies s.store
  pub stoppable : (id : String) → is_stoppable s id ≡ true

all-update_where :
    (p q : RunRow → Bool) (f : RunRow → RunRow) (same : (r : RunRow) → p (f r) ≡ p r)
    (rs : List RunRow)
    → all p (update_where q f rs) ≡ all p rs
all-update_where p q f same [] = refl
all-update_where p q f same (r ∷ rs) = ground (arith, same r, all-update_where p q f same rs)

pub all-find_by :
    (p : RunRow → Bool) (rs : List RunRow) (id : String) (row : RunRow)
    → all p rs ≡ true
    → find_by run_id_of id rs ≡ some row
    → (p row ≡ true) × (row.id ≡ id)
all-find_by p [] id row h f = cc
all-find_by p (r ∷ rs) id row h f = elim (Bool-cases (r.id == id)) [
  | inl e ↦ (ground (arith, e), ground (arith, e, eq_iff r.id id))
  | inr o ↦ all-find_by p rs id row (ground arith) (ground (arith, o))
]

HasFamily-mono :
    (s t : Store) (id : String) (parent : Option String)
    → ((j : String) (row : RunRow)
        → get_row s j ≡ some row
        → (new : RunRow) × (get_row t j ≡ some new))
    → HasFamily s id parent
    → HasFamily t id parent
HasFamily-mono s t id none still f = tt
HasFamily-mono s t id (some p) still (other, named, row, found) =
    let (new, there) = still p row found in (other, named, new, there)

append_event-still :
    (now : ℕ) (s : Store) (params : AppendRunEvent) (t : Store) (e : RunEvent)
    → append_event now s params ≡ ok (t, e)
    → (j : String) (row : RunRow) → get_row s j ≡ some row
    → (new : RunRow) × (get_row t j ≡ some new)
append_event-still now s params t e h j row found =
    let a = append_event-Appended now s params t e h in
    let read = get_row-append now s params t e a j in
    elim (Bool-cases (params.run_id == j)) [
      | inl own ↦
          (apply_event now (a.row.last_sequence + 1) params row, ground (arith, read, own, found))
      | inr other ↦ (row, ground (arith, read, other, found))
    ]

append_event-HasFamilies :
    (now : ℕ) (s : Store) (params : AppendRunEvent) (t : Store) (e : RunEvent)
    → HasFamilies s
    → append_event now s params ≡ ok (t, e)
    → HasFamilies t
unfolding apply_event
append_event-HasFamilies now s params t e families h id row found =
    let a = append_event-Appended now s params t e h in
    let read = get_row-append now s params t e a id in
    elim (Option-cases (get_row s id)) [
      | inl gone ↦ absurd (ground (arith, gone, read, found))
      | inr (old, there) ↦
          let same : old.parent_run_id ≡ row.parent_run_id = ground (arith, there, read, found) in
          HasFamily-mono s t id row.parent_run_id (append_event-still now s params t e h)
            (subst (HasFamily s id) same (families id old there))
    ]

pub may_cancel :
    (status : RunStatus)
    → is_terminal_run_status status ≡ false
    → is_status status checkpointing ≡ false
    → assert_run_transition status cancelled ≡ ok tt
unfolding is_terminal_run_status assert_run_transition
may_cancel accepted h k = refl
may_cancel queued h k = refl
may_cancel preparing h k = refl
may_cancel running h k = refl
may_cancel checkpointing h k = cc
may_cancel succeeded h k = cc
may_cancel failed h k = cc
may_cancel cancelled h k = cc
may_cancel timed_out h k = cc
may_cancel orphaned h k = cc

module _ (rank : String → ℕ) (bound : ℕ) where
  append_event-placed :
      (now : ℕ) (s : Store) (params : AppendRunEvent) (t : Store) (e : RunEvent)
      → all (is_placed rank bound) s.runs ≡ true
      → append_event now s params ≡ ok (t, e)
      → all (is_placed rank bound) t.runs ≡ true
  unfolding apply_event
  append_event-placed now s params t e placed h =
      let a = append_event-Appended now s params t e h in
      rw a.runs (all-update_where (is_placed rank bound) _ _ (λ r. refl) s.runs ∙ placed)

  pub aborted-Cancellable :
      (s : Service) (run_id : String)
      → Cancellable rank bound s
      → Cancellable rank bound (abort run_id AbortReason.run_cancelled s)
  aborted-Cancellable s run_id c = record {
    log = c.log;
    placed = c.placed;
    families = c.families;
    stoppable = λ id. ground (
      arith,
      c.stoppable id,
      find_by-update_by controller_of run_id id (abort_with AbortReason.run_cancelled) (λ _. refl)
          s.active,
    );
  }

  pub transition-Cancellable :
      (now : ℕ) (s : Service) (run_id : String) (t : Service)
      → Cancellable rank bound s
      → transition now s run_id cancelled RunEventType.run_cancelled
          (field "reason" (text "requested") no_fields)
        ≡ ok t
      → Cancellable rank bound t
  transition-Cancellable now s run_id t c h =
      let payload = field "reason" (text "requested") no_fields in
      let type = RunEventType.run_cancelled in
      let m = transition-status_of now s run_id cancelled type payload t h in
      record {
        log =
            transition-keeps IsLog append_event-IsLog now s run_id cancelled type payload t c.log h;
        placed =
            transition-keeps (λ u. all (is_placed rank bound) u.runs ≡ true) append_event-placed now
              s run_id cancelled type payload t c.placed h;
        families =
            transition-keeps HasFamilies append_event-HasFamilies now s run_id cancelled type
              payload t c.families h;
        stoppable = λ id. ground (
          arith,
          c.stoppable id,
          m.3 id,
          transition-active now s run_id cancelled type payload t h,
        );
      }
