-- ===== src/Service/Transition/Parent.antt =====
-- What a transition does to the run and to its parent.
use lite_harness.Common.{
  ℕ, ◌+◌, String, ◌≡◌, some, true, false, ◌≢◌, arith, eq_iff, eq_refl, refl, ◌∙◌, ok, ◌++◌, [], ◌∷◌,
}
use lite_harness.Run.Status.{RunStatus, is_terminal_run_status, status_name, assert_run_transition}
use lite_harness.Run.Transitions.{live_before}
use lite_harness.Store.Json.{Fields}
use lite_harness.Store.Rows.{RunRow, RunEventType}
use lite_harness.Store.Tables.{Store, get_row}
use lite_harness.Store.Events.{
  append_event, append_to_run, write_event, after_event, event_at, detached_subagent_summary,
  is_subagent_completed, apply_event,
}
use lite_harness.Store.Events.Log.{IsLog, next_is_free, append_event-IsLog, get_row-after_event}
use lite_harness.Store.Events.Finality.{append_event_total}
use lite_harness.Service.State.{Service}
use lite_harness.Service.Transition.{
  transition, transition_run, transition_event, child_summary, after_transition, tell_parent,
  tell_parent_with,
}

-- The summary that a run sends when it has ended is one that the store takes.
summary_taken :
    (s : Store) (parent_id run_id : String) (status : RunStatus) (payload : Fields) (run : RunRow)
    → get_row s run_id ≡ some run
    → run.parent_run_id ≡ some parent_id
    → run.status ≡ status
    → is_terminal_run_status status ≡ true
    → run_id ≢ ""
    → detached_subagent_summary s (child_summary s parent_id run_id status payload) ≡ true
unfolding detached_subagent_summary child_summary
summary_taken s parent_id run_id status payload run found child at final named = ground (
  arith,
  eq_iff run_id "",
  eq_iff parent_id parent_id,
  eq_iff (status_name status) (status_name status),
)

-- A store takes the summary of an ended child whether the parent is live or not.
pub append_summary_total :
    (now : ℕ) (s : Store) (parent_id run_id : String) (status : RunStatus) (payload : Fields)
    (run parent : RunRow)
    → IsLog s
    → get_row s run_id ≡ some run
    → run.parent_run_id ≡ some parent_id
    → run.status ≡ status
    → is_terminal_run_status status ≡ true
    → run_id ≢ ""
    → get_row s parent_id ≡ some parent
    → append_event now s (child_summary s parent_id run_id status payload)
      ≡ ok (
        after_event now s
            (child_summary s parent_id run_id status payload)
            (parent.last_sequence + 1),
        event_at now (parent.last_sequence + 1) (child_summary s parent_id run_id status payload),
      )
unfolding append_event append_to_run write_event child_summary
append_summary_total now s parent_id run_id status payload run parent log found child at final named
      told =
    ground (
      arith,
      summary_taken s parent_id run_id status payload run found child at final named,
      next_is_free s parent_id parent log told,
    )

pub transition_appended :
    (now : ℕ) (s : Service) (run_id : String) (status : RunStatus) (type : RunEventType)
    (payload : Fields) (run : RunRow)
    → IsLog s.store
    → get_row s.store run_id ≡ some run
    → assert_run_transition run.status status ≡ ok tt
    → is_subagent_completed type ≡ false
    → append_event now s.store (transition_event run_id status type payload)
      ≡ ok (
        after_event now s.store
            (transition_event run_id status type payload)
            (run.last_sequence + 1),
        event_at now (run.last_sequence + 1) (transition_event run_id status type payload),
      )
unfolding transition_event
transition_appended now s run_id status type payload run log found allowed plain =
    append_event_total now s.store (transition_event run_id status type payload) run log found
      (live_before run.status status allowed) plain

module _ (now n : ℕ) (run_id : String) (status : RunStatus) (type : RunEventType) (payload : Fields)
    (run : RunRow) where
  -- The row of a run after a transition of it.
  transitioned : RunRow
  transitioned = apply_event now n (transition_event run_id status type payload) run

  transitioned_parent : transitioned.parent_run_id ≡ run.parent_run_id
  unfolding apply_event transition_event transitioned
  transitioned_parent = refl

  transitioned_status : transitioned.status ≡ status
  unfolding apply_event transition_event transitioned
  transitioned_status = refl

  transitioned_row :
      (s : Store)
      → get_row s run_id ≡ some run
      → get_row (after_event now s (transition_event run_id status type payload) n) run_id
        ≡ some transitioned
  unfolding transitioned transition_event
  transitioned_row s found = ground (
    arith,
    get_row-after_event now n s (transition_event run_id status type payload) run_id,
    eq_refl run_id,
  )

  transitioned_other :
      (s : Store) (j : String)
      → j ≢ run_id
      → get_row (after_event now s (transition_event run_id status type payload) n) j ≡ get_row s j
  unfolding transition_event
  transitioned_other s j other = ground (
    arith,
    get_row-after_event now n s (transition_event run_id status type payload) j,
    eq_iff run_id j,
  )

-- The service after a run has ended and its parent was told.
unfoldable pub told :
    ℕ → Service → String → RunStatus → RunEventType → Fields → RunRow → String → RunRow → Service
told now s run_id status type payload run parent_id parent =
    let t =
      after_event now s.store (transition_event run_id status type payload)
        (run.last_sequence + 1) in
    record s {
      store =
          after_event now t (child_summary t parent_id run_id status payload)
            (parent.last_sequence + 1);
      notified = (s.notified ++ run_id ∷ []) ++ parent_id ∷ [];
    }

-- In gapless logs, a terminal transition that the table allows, of a run whose parent is another
-- run of the database, commits, and the parent is told once, whether the parent is live or has
-- ended.
pub transition_tells_parent :
    (now : ℕ) (s : Service) (run_id : String) (status : RunStatus) (type : RunEventType)
    (payload : Fields) (parent_id : String) (run parent : RunRow)
    → IsLog s.store
    → get_row s.store run_id ≡ some run
    → run.parent_run_id ≡ some parent_id
    → get_row s.store parent_id ≡ some parent
    → parent_id ≢ run_id
    → run_id ≢ ""
    → is_terminal_run_status status ≡ true
    → assert_run_transition run.status status ≡ ok tt
    → is_subagent_completed type ≡ false
    → transition now s run_id status type payload
      ≡ ok (told now s run_id status type payload run parent_id parent)
unfolding transition transition_run after_transition tell_parent tell_parent_with told
transition_tells_parent now s run_id status type payload parent_id run parent log found child
      told_row other named final allowed plain =
    let params = transition_event run_id status type payload in
    let n = run.last_sequence + 1 in
    let moved = transition_appended now s run_id status type payload run log found allowed plain in
    let t = after_event now s.store params (run.last_sequence + 1) in
    let log2 =
      append_event-IsLog now s.store params t (event_at now (run.last_sequence + 1) params) log
        moved in
    let sent =
      append_summary_total now t parent_id run_id status payload _ parent log2
        (transitioned_row now n run_id status type payload run s.store found)
        (transitioned_parent now n run_id status type payload run ∙ child)
        (transitioned_status now n run_id status type payload run) final named
        (transitioned_other now n run_id status type payload run s.store parent_id other
          ∙ told_row) in
    ground (arith, sent, moved)
