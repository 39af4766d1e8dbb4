-- ===== src/Service/Transition/Refinement.antt =====
-- Each run of the service is a machine of its own: packages/control-plane/src/index.ts
-- (`#transition`), called any number of times for any runs, against the table of
-- packages/domain/src/index.ts.
use lite_harness.Common.{
  ℕ, String, ◌≡◌, ◌≤◌, ◌==◌, some, Option, List, [], ◌∷◌, Result, ok, ◌>>=◌, if◌then◌else◌, arith,
  refl, eq_iff, length, returned_before, Bool-cases, along, subst, inl, inr,
}
use lite_harness.Run.Status.{RunStatus, assert_run_transition}
use lite_harness.Run.Transitions.{walk, walk_bounded}
use lite_harness.Store.Json.{Fields}
use lite_harness.Store.Rows.{RunEventType}
use lite_harness.Service.State.{Service, ServiceError}
use lite_harness.Service.Transition.{transition}
use lite_harness.Service.Transition.Statuses.{status_of, transition-status_of}

-- A call of `transition`, at a time.
pub record Call : Type 0 where
  pub now : ℕ
  pub run_id : String
  pub status : RunStatus
  pub type : RunEventType
  pub payload : Fields

-- The calls one after the other, the first that throws ends them.
unfoldable pub perform : Service → List Call → Result ServiceError Service
perform s [] = ok s
perform s (c ∷ cs) = do t ← transition c.now s c.run_id c.status c.type c.payload; perform t cs

-- The statuses that the calls put one run into.
abbrev pub statuses_for : String → List Call → List RunStatus
statuses_for id [] = []
statuses_for id (c ∷ cs) =
    if c.run_id == id then c.status ∷ statuses_for id cs else statuses_for id cs

walk_step :
    (old next new : RunStatus) (rest : List RunStatus)
    → assert_run_transition old next ≡ ok tt
    → walk next rest ≡ ok new
    → walk old (next ∷ rest) ≡ ok new
unfolding walk
walk_step old next new rest allowed h = ground (arith, allowed)

IsWalked : RunStatus → List RunStatus → Option RunStatus → Type 0
IsWalked old moves last = (new : RunStatus) × (walk old moves ≡ ok new) × (last ≡ some new)

-- After a call that is one of the run's own.
IsWalked-own :
    (old next : RunStatus) (rest : List RunStatus) (last : Option RunStatus)
    → assert_run_transition old next ≡ ok tt
    → IsWalked next rest last
    → IsWalked old (next ∷ rest) last
unfolding IsWalked
IsWalked-own old next rest last allowed (new, w, e) =
    (new, walk_step old next new rest allowed w, e)

perform-IsWalked :
    (s t : Service) (cs : List Call) (id : String) (old : RunStatus)
    → perform s cs ≡ ok t
    → status_of s.store id ≡ some old
    → IsWalked old (statuses_for id cs) (status_of t.store id)
unfolding perform
perform-IsWalked s t [] id old h at =
    along (λ u. IsWalked old [] (status_of u.store id)) h (unfold IsWalked walk in (old, refl, at))
perform-IsWalked s t (c ∷ cs) id old h at =
    let (u, rest, call) =
      returned_before (λ u. perform u cs) (transition c.now s c.run_id c.status c.type c.payload)
        h in
    let (was, before, allowed, after) =
      transition-status_of c.now s c.run_id c.status c.type c.payload u call in
    elim (Bool-cases (c.run_id == id)) [
      | inl own ↦
          let same : was ≡ old = ground (arith, before, at, (eq_iff c.run_id id).0 own) in
          rw own (
            IsWalked-own old c.status (statuses_for id cs) (status_of t.store id)
              (subst (λ o. assert_run_transition o c.status ≡ ok tt) same allowed)
              (perform-IsWalked u t cs id c.status rest (ground (arith, after id, own))))
      | inr other ↦
          rw other (perform-IsWalked u t cs id old rest (ground (arith, after id, other, at)))
    ]

-- Calls of `transition` that all return drive every run through the table on its own: the statuses
-- that they put a run into are at most five, are a walk of the table from the status that it had, and
-- the run ends where that walk ends, whatever other runs, its parent and its children, did in between.
pub perform-walk :
    (s t : Service) (cs : List Call) (id : String) (old : RunStatus)
    → perform s cs ≡ ok t
    → status_of s.store id ≡ some old
    → (new : RunStatus) × (walk old (statuses_for id cs) ≡ ok new)
      × (status_of t.store id ≡ some new)
      × (length (statuses_for id cs) ≤ 5)
unfolding IsWalked
perform-walk s t cs id old h at =
    let (new, walked, ends) = perform-IsWalked s t cs id old h at in
    (new, walked, ends, walk_bounded old new (statuses_for id cs) walked)
