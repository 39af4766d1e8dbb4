-- ===== src/Store/Events/Log.antt =====
-- The log of a run is gapless: its events are numbered 1, 2, ... in the order of their rows.
use lite_harness.Common.{
  ℕ, zero, suc, ◌+◌, ◌≡◌, refl, String, List, [], ◌∷◌, ◌++◌, Option, some, none, map, arith, ◌==◌,
  if◌then◌else◌, find_by-update_by, eq_iff, ◌<◌, any, eqb, ◌&&◌, ok, false, any-append, ap,
}
use mathlib.Core.Option
use lite_harness.Store.Tables.{Store, get_row, run_id_of, events_of}
use lite_harness.Store.Rows.{RunRow, RunEvent}
use lite_harness.Store.Events.{AppendRunEvent, apply_event, event_at, append_event, after_event}
use lite_harness.Store.Events.Append.{Appended, append_event-Appended}

-- 1, 2, ..., n
abbrev pub up_to : ℕ → List ℕ
up_to zero = []
up_to (suc n) = up_to n ++ suc n ∷ []

abbrev pub sequences : String → List RunEvent → List ℕ
sequences id es = map (λ e. e.sequence) (events_of id es)

abbrev pub last_sequence : Option RunRow → ℕ
last_sequence none = 0
last_sequence (some row) = row.last_sequence

-- Every run's events are numbered from 1 to the run's last sequence number, with no gap.
abbrev pub IsLog : Store → Type 0
IsLog s = (id : String) → sequences id s.events ≡ up_to (last_sequence (get_row s id))

pub sequences-append :
    (id : String) (es : List RunEvent) (e : RunEvent)
    → sequences id (es ++ e ∷ [])
      ≡ (if e.run_id == id then sequences id es ++ e.sequence ∷ [] else sequences id es)
sequences-append id [] e = ground arith
sequences-append id (x ∷ es) e = ground (arith, sequences-append id es e)

apply_event-id : (now n : ℕ) (p : AppendRunEvent) (r : RunRow) → (apply_event now n p r).id ≡ r.id
unfolding apply_event
apply_event-id now n p r = refl

pub get_row-append :
    (now : ℕ) (s : Store) (params : AppendRunEvent) (t : Store) (e : RunEvent)
    (a : Appended now s params t e) (j : String)
    → get_row t j ≡ (
        if params.run_id == j
        then Option.map (apply_event now (a.row.last_sequence + 1) params) (get_row s j)
        else get_row s j)
get_row-append now s params t e a j = rw a.runs (
    find_by-update_by run_id_of params.run_id j _
      (apply_event-id now (a.row.last_sequence + 1) params) s.runs)

pub get_row-after_event :
    (now n : ℕ) (s : Store) (params : AppendRunEvent) (j : String)
    → get_row (after_event now s params n) j ≡ (
        if params.run_id == j
        then Option.map (apply_event now n params) (get_row s j)
        else get_row s j)
unfolding after_event
get_row-after_event now n s params j =
    find_by-update_by run_id_of params.run_id j _ (apply_event-id now n params) s.runs

last_sequence-append :
    (now : ℕ) (s : Store) (params : AppendRunEvent) (t : Store) (e : RunEvent)
    (a : Appended now s params t e) (j : String)
    → last_sequence (get_row t j) ≡ (
        if params.run_id == j
        then suc (last_sequence (get_row s j))
        else last_sequence (get_row s j))
unfolding apply_event
last_sequence-append now s params t e a j =
    ground (arith, get_row-append now s params t e a j, eq_iff params.run_id j, a.found)

-- If the events of every run are numbered 1, 2, ... up to the run's last sequence number, an
-- append that returns keeps them so.
pub append_event-IsLog :
    (now : ℕ) (s : Store) (params : AppendRunEvent) (t : Store) (e : RunEvent)
    → IsLog s
    → append_event now s params ≡ ok (t, e)
    → IsLog t
unfolding event_at
append_event-IsLog now s params t e log h j =
    let a = append_event-Appended now s params t e h in
    ground (
      arith,
      log j,
      a.found,
      a.event,
      ap (sequences j) a.events,
      sequences-append j s.events e,
      last_sequence-append now s params t e a j,
      eq_iff params.run_id j,
    )

above_up_to : (n m : ℕ) → n < m → any (λ k. eqb k m) (up_to n) ≡ false
above_up_to zero m h = refl
above_up_to (suc n) m h =
    ground (arith, any-append (λ k. eqb k m) (up_to n) (suc n ∷ []), above_up_to n m)

any-sequences :
    (id : String) (m : ℕ) (es : List RunEvent)
    → any (λ e. e.run_id == id && eqb e.sequence m) es ≡ any (λ k. eqb k m) (sequences id es)
any-sequences id m [] = refl
any-sequences id m (e ∷ es) = ground (arith, any-sequences id m es)

-- In a gapless log the next number is free, so the primary key of the events is never violated.
pub next_is_free :
    (s : Store) (id : String) (row : RunRow)
    → IsLog s
    → get_row s id ≡ some row
    → any (λ e. e.run_id == id && eqb e.sequence (row.last_sequence + 1)) s.events ≡ false
next_is_free s id row log found = ground (
  arith,
  any-sequences id (row.last_sequence + 1) s.events,
  log id,
  found,
  above_up_to row.last_sequence (row.last_sequence + 1),
)
