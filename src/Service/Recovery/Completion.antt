-- ===== src/Service/Recovery/Completion.antt =====
-- After a restart no run is left in the middle.
use lite_harness.Common.{
  ℕ, ◌+◌, String, Bool, true, false, ◌&&◌, ◌≡◌, not, Option, some, none, List, [], ◌∷◌, ok, arith,
  refl, all, all_mono_two, keep, if◌then◌else◌, ◌==◌, eq_iff, eq_refl, find_by, Option-cases, inl,
  inr, ◌∙◌, Bool-cases, subst,
}
use mathlib.Core.Option
use lite_harness.Run.Status.{RunStatus, is_terminal_run_status, orphaned}
use lite_harness.Store.Rows.{RunRow}
use lite_harness.Store.Tables.{Store, get_row, run_id_of}
use lite_harness.Store.Events.{append_event, after_event, event_at}
use lite_harness.Store.Events.Log.{IsLog, append_event-IsLog}
use lite_harness.Store.Events.Finality.{append_event_total}
use lite_harness.Service.State.{Service, notify}
use lite_harness.Service.Transition.Statuses.{status_of, status_of-append}
use lite_harness.Service.Cancel.{sort_runs, insert_run}
use lite_harness.Service.Cancel.Halting.{all-sort_runs, all-insert_run}
use lite_harness.Service.Recovery.{
  is_live, interrupted_event, with_ended_attempts, reconcile_run, reconcile_each,
  reconcile_interrupted_runs, list_non_terminal_runs,
}

abbrev pub is_other : String → RunRow → Bool
is_other id r = not (r.id == id)

-- The ids are those of a primary key.
abbrev pub has_unique_ids : List RunRow → Bool
has_unique_ids [] = true
has_unique_ids (r ∷ rs) = all (is_other r.id) rs && has_unique_ids rs

abbrev live_status : Option RunStatus → Bool
live_status none = false
live_status (some status) = not (is_terminal_run_status status)

abbrev all_live : Store → List RunRow → Bool
all_live s rs = all (λ r. live_status (status_of s r.id)) rs

insert_run-has_unique_ids :
    (r : RunRow) (xs : List RunRow) → has_unique_ids (insert_run r xs) ≡ has_unique_ids (r ∷ xs)
unfolding insert_run
insert_run-has_unique_ids r [] = refl
insert_run-has_unique_ids r (x ∷ xs) = ground (
  arith,
  insert_run-has_unique_ids r xs,
  all-insert_run (is_other x.id) r xs,
  eq_iff r.id x.id,
  eq_iff x.id r.id,
)

sort_runs-has_unique_ids : (xs : List RunRow) → has_unique_ids (sort_runs xs) ≡ has_unique_ids xs
unfolding sort_runs
sort_runs-has_unique_ids [] = refl
sort_runs-has_unique_ids (x ∷ xs) = ground (
  arith,
  insert_run-has_unique_ids x (sort_runs xs),
  sort_runs-has_unique_ids xs,
  all-sort_runs (is_other x.id) xs,
)

all-keep : (p q : RunRow → Bool) (xs : List RunRow) → all p xs ≡ true → all p (keep q xs) ≡ true
all-keep p q [] h = refl
all-keep p q (x ∷ xs) h = ground (arith, all-keep p q xs)

keep-has_unique_ids :
    (q : RunRow → Bool) (xs : List RunRow)
    → has_unique_ids xs ≡ true
    → has_unique_ids (keep q xs) ≡ true
keep-has_unique_ids q [] h = refl
keep-has_unique_ids q (x ∷ xs) h =
    ground (arith, keep-has_unique_ids q xs, all-keep (is_other x.id) q xs)

abbrev is_live_in : List RunRow → RunRow → Bool
is_live_in xs r = live_status (Option.map (λ x. x.status) (find_by run_id_of r.id xs))

find_by-other :
    (x r : RunRow) (xs : List RunRow)
    → is_live_in xs r ≡ true
    → is_other x.id r ≡ true
    → is_live_in (x ∷ xs) r ≡ true
find_by-other x r xs h k = ground (arith, eq_iff x.id r.id, eq_iff r.id x.id)

-- The live rows of a table with unique ids are found live under their ids.
keep-is_live :
    (xs : List RunRow) → has_unique_ids xs ≡ true → all (is_live_in xs) (keep is_live xs) ≡ true
keep-is_live [] h = refl
keep-is_live (x ∷ xs) h =
    let others : all (is_other x.id) xs ≡ true = ground arith in
    let rest : all (is_live_in (x ∷ xs)) (keep is_live xs) ≡ true =
      all_mono_two (is_live_in xs) (is_other x.id) (is_live_in (x ∷ xs)) (λ r. find_by-other x r xs)
        (keep is_live xs) (keep-is_live xs (ground arith))
        (all-keep (is_other x.id) is_live xs others) in
    ground (arith, rest, eq_refl x.id)

-- A live row that is found is one of the kept rows.
found-is_kept :
    (xs : List RunRow) (id : String) (row : RunRow)
    → find_by run_id_of id xs ≡ some row
    → is_live row ≡ true
    → all (is_other id) (keep is_live xs) ≡ false
found-is_kept [] id row h k = cc
found-is_kept (x ∷ xs) id row h k = ground (arith, found-is_kept xs id row)

-- An ended row that is found is none of them.
found-is_dropped :
    (xs : List RunRow) (id : String) (row : RunRow)
    → has_unique_ids xs ≡ true
    → find_by run_id_of id xs ≡ some row
    → is_live row ≡ false
    → all (is_other id) (keep is_live xs) ≡ true
found-is_dropped [] id row u h k = refl
found-is_dropped (x ∷ xs) id row u h k = elim (Bool-cases (x.id == id)) [
  | inr other ↦ ground (arith, other, found-is_dropped xs id row)
  | inl same ↦
      let others : all (is_other x.id) xs ≡ true = ground arith in
      let rest : all (is_other id) xs ≡ true =
        subst (λ j. all (is_other j) xs ≡ true) ((eq_iff x.id id).0 same) others in
      ground (arith, same, all-keep (is_other id) is_live xs rest)
]

missing-is_dropped :
    (xs : List RunRow) (id : String)
    → find_by run_id_of id xs ≡ none
    → all (is_other id) (keep is_live xs) ≡ true
missing-is_dropped [] id h = refl
missing-is_dropped (x ∷ xs) id h = ground (arith, missing-is_dropped xs id)

-- A run that is live is orphaned: the append commits, and no other run changes its status.
reconcile_run_total :
    (now : ℕ) (s : Service) (run : RunRow)
    → IsLog s.store
    → live_status (status_of s.store run.id) ≡ true
    → (t : Service) × (reconcile_run now s run ≡ ok t)
      × IsLog t.store
      × ((id : String)
          → status_of t.store id ≡ (if run.id == id then some orphaned else status_of s.store id))
unfolding reconcile_run
reconcile_run_total now s run log live =
    let before = with_ended_attempts now run.id s.store in
    let params = interrupted_event run in
    elim (Option-cases (get_row s.store run.id)) [
      | inl missing ↦ absurd (ground (arith, missing))
      | inr (row, found) ↦
          let after = after_event now before params (row.last_sequence + 1) in
          let e = event_at now (row.last_sequence + 1) params in
          let appended : append_event now before params ≡ ok (after, e) =
            append_event_total now before params row log found (ground (arith, found)) refl in
          (
            notify run.id (record s { store = after }),
            rw appended refl,
            append_event-IsLog now before params after e log appended,
            λ id. ground (
              arith,
              status_of-append now before params after e id appended,
              found,
              eq_iff run.id id,
            ),
          )
    ]

-- The statuses after the runs of a list are orphaned.
abbrev orphaned_among : List RunRow → String → Option RunStatus → Option RunStatus
orphaned_among rs id status = if all (is_other id) rs then status else some orphaned

still_live :
    (s t : Service) (run : RunRow)
    → ((id : String)
        → status_of t.store id ≡ (if run.id == id then some orphaned else status_of s.store id))
    → (r : RunRow) → live_status (status_of s.store r.id) ≡ true
    → is_other run.id r ≡ true
    → live_status (status_of t.store r.id) ≡ true
still_live s t run changed r live other =
    ground (arith, changed r.id, eq_iff run.id r.id, eq_iff r.id run.id)

reconcile_each_total :
    (now : ℕ) (rs : List RunRow) (s : Service)
    → IsLog s.store
    → has_unique_ids rs ≡ true
    → all_live s.store rs ≡ true
    → (t : Service) × (reconcile_each now s rs ≡ ok t)
      × IsLog t.store
      × ((id : String) → status_of t.store id ≡ orphaned_among rs id (status_of s.store id))
unfolding reconcile_each
reconcile_each_total now [] s log unique live = (s, refl, log, λ id. refl)
reconcile_each_total now (run ∷ rs) s log unique live =
    let (t, first, t_log, changed) = reconcile_run_total now s run log (ground arith) in
    let others : all (is_other run.id) rs ≡ true = ground arith in
    let live_rest : all_live s.store rs ≡ true = ground arith in
    let still : all_live t.store rs ≡ true =
      all_mono_two (λ r. live_status (status_of s.store r.id)) (is_other run.id)
        (λ r. live_status (status_of t.store r.id)) (still_live s t run changed) rs live_rest
        others in
    let (u, rest, u_log, ends) = reconcile_each_total now rs t t_log (ground arith) still in
    (u, rw first rest, u_log, λ id. ground (arith, ends id, changed id))

-- The status of a run that is found, after a restart.
abbrev pub status_after_restart : RunRow → RunStatus
status_after_restart row = if is_live row then orphaned else row.status

-- In a store with gapless logs and unique ids of runs, the reconciliation returns, leaves the logs
-- gapless, and leaves every run in a terminal status: a run that was live is orphaned, and the others
-- have the status that they had.
pub reconcile_total :
    (now : ℕ) (s : Service)
    → IsLog s.store
    → has_unique_ids s.store.runs ≡ true
    → (t : Service) × (reconcile_interrupted_runs now s ≡ ok t)
      × IsLog t.store
      × ((id : String)
          → status_of t.store id ≡ Option.map status_after_restart (get_row s.store id))
unfolding reconcile_interrupted_runs list_non_terminal_runs
reconcile_total now s log unique =
    let listed = keep is_live s.store.runs in
    let distinct : has_unique_ids (sort_runs listed) ≡ true =
      sort_runs-has_unique_ids listed ∙ keep-has_unique_ids is_live s.store.runs unique in
    let live : all_live s.store (sort_runs listed) ≡ true =
      all-sort_runs (λ r. live_status (status_of s.store r.id)) listed
      ∙ keep-is_live s.store.runs unique in
    let (t, done, t_log, ends) = reconcile_each_total now (sort_runs listed) s log distinct live in
    (
      t,
      done,
      t_log,
      λ id. elim (Option-cases (get_row s.store id)) [
        | inl missing ↦ ground (
          arith,
          ends id,
          missing,
          all-sort_runs (is_other id) listed,
          missing-is_dropped s.store.runs id,
        )
        | inr (row, found) ↦ ground (
          arith,
          ends id,
          found,
          all-sort_runs (is_other id) listed,
          found-is_kept s.store.runs id row,
          found-is_dropped s.store.runs id row unique,
        )
      ],
    )
