-- ===== src/Service/Finish/Ready.antt =====
-- A run that is there, in a known status, in a database with gapless logs: what the end of an
-- execution starts from, and what each step of it keeps.
use lite_harness.Common.{
  ℕ, ◌+◌, String, true, false, ◌≡◌, ◌≢◌, some, none, arith, eq_iff, eq_refl, refl, ok, Option, ◌∙◌,
}
use lite_harness.Run.Status.{RunStatus, is_terminal_run_status, assert_run_transition}
use lite_harness.Store.Json.{Fields}
use lite_harness.Store.Rows.{RunRow, RunEventType}
use lite_harness.Store.Tables.{Store, get_row}
use lite_harness.Store.Events.{
  AppendRunEvent, after_event, event_at, apply_event, is_subagent_completed,
}
use lite_harness.Store.Events.Log.{IsLog, append_event-IsLog, get_row-after_event}
use lite_harness.Store.Events.Finality.{append_event_total}
use lite_harness.Service.State.{Service, notify}
use lite_harness.Service.Transition.{transition, transition_run, after_transition, transition_event}
use lite_harness.Service.Transition.Parent.{transition_tells_parent, transition_appended}
use lite_harness.Service.Finish.{append_and_notify, plain_event}

-- The parent of a run, where it has one, is another run that is there.
abbrev pub HasFamily : Store → String → Option String → Type 0
HasFamily s run_id none = Unit {0}
HasFamily s run_id (some p) =
    (p ≢ run_id) × (run_id ≢ "") × (parent : RunRow) × (get_row s p ≡ some parent)

pub record Ready (store : Store) (run_id : String) (status : RunStatus) : Type 0 where
  pub log : IsLog store
  pub run : RunRow
  pub found : get_row store run_id ≡ some run
  pub current : run.status ≡ status
  pub family : HasFamily store run_id run.parent_run_id

HasFamily-append :
    (now n : ℕ) (s : Store) (params : AppendRunEvent) (parent : Option String)
    → HasFamily s params.run_id parent
    → HasFamily (after_event now s params n) params.run_id parent
HasFamily-append now n s params none f = tt
HasFamily-append now n s params (some p) (other, named, row, found) = (
  other,
  named,
  row,
  ground (arith, get_row-after_event now n s params p, eq_iff params.run_id p),
)

module _ (now : ℕ) (s : Service) (run_id : String) (status : RunStatus) (type : RunEventType)
    (payload : Fields) (live : is_terminal_run_status status ≡ false)
    (plain : is_subagent_completed type ≡ false) where
  apply_plain :
      (n : ℕ) (run : RunRow)
      → ((apply_event now n (plain_event run_id type payload) run).status ≡ run.status)
        × ((apply_event now n (plain_event run_id type payload) run).parent_run_id
            ≡ run.parent_run_id)
  unfolding apply_event
  apply_plain n run = (refl, refl)

  -- The run takes the event, and stays as it was.
  pub append_and_notify_total :
      Ready s.store run_id status
      → (u : Service) × (append_and_notify now s run_id type payload ≡ ok u)
        × Ready u.store run_id status
  unfolding append_and_notify
  append_and_notify_total r =
      let params = plain_event run_id type payload in
      let n = r.run.last_sequence + 1 in
      let total =
        append_event_total now s.store params r.run r.log r.found (rw r.current live) plain in
      let t = after_event now s.store params n in
      (
        notify run_id (record s { store = t }),
        rw total refl,
        record {
          log = append_event-IsLog now s.store params t (event_at now n params) r.log total;
          run = apply_event now n params r.run;
          found =
              ground
                (arith, get_row-after_event now n s.store params run_id, eq_refl run_id, r.found);
          current = (apply_plain n r.run).0 ∙ r.current;
          family =
              rw (apply_plain n r.run).1
                (HasFamily-append now n s.store params r.run.parent_run_id r.family);
        },
      )

module _ (now : ℕ) (s : Service) (run_id : String) (old status : RunStatus) (type : RunEventType)
    (payload : Fields) (allowed : assert_run_transition old status ≡ ok tt)
    (final : is_terminal_run_status status ≡ true)
    (plain : is_subagent_completed type ≡ false) where
  transition_of_family :
      (parent : Option String) (run : RunRow)
      → IsLog s.store
      → get_row s.store run_id ≡ some run
      → run.status ≡ old
      → run.parent_run_id ≡ parent
      → HasFamily s.store run_id parent
      → (u : Service) × (transition now s run_id status type payload ≡ ok u)
  unfolding transition transition_run after_transition
  transition_of_family none run log found at none_of f =
      let total =
        transition_appended now s run_id status type payload run log found (rw at allowed) plain in
      (
        notify run_id (record s {
          store =
              after_event now s.store (transition_event run_id status type payload)
                (run.last_sequence + 1);
        }),
        ground (arith, total),
      )
  transition_of_family (some p) run log found at child (other, named, parent, told) = (
    _,
    transition_tells_parent now s run_id status type payload p run parent log found child told other
        named final (rw at allowed) plain,
  )

  pub transition_total :
      Ready s.store run_id old
      → (u : Service) × (transition now s run_id status type payload ≡ ok u)
  transition_total r =
      transition_of_family r.run.parent_run_id r.run r.log r.found r.current refl r.family
