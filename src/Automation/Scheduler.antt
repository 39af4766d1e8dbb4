-- ===== src/Automation/Scheduler.antt =====
-- The scheduler: packages/automation/src/index.ts (`SchedulerEngine.tick`) over the database of
-- triggers. Whether a run could be created for a trigger is a parameter: the name of the error, or
-- none.
pub mod Release
use lite_harness.Common.{
  ℕ, ◌+◌, String, Bool, true, false, Option, some, none, List, [], ◌∷◌, Result, ok, err,
  if◌then◌else◌,
}
use lite_harness.Automation.Trigger.{IntervalTrigger, Platform, TriggerError}
use lite_harness.Automation.Sqlite.{TriggerDatabase, claim_due, complete, fail}

module _ (p : Platform) (create_run : IntervalTrigger → Option String) (owner : String)
    (now : ℕ) where
  -- The `catch`: another attempt in half a minute.
  abbrev pub retry_later : String → String → TriggerDatabase → TriggerDatabase
  retry_later id error_name db = (fail now id owner (now + 30_000) error_name db).0

  unfoldable pub fire : IntervalTrigger → TriggerDatabase → TriggerDatabase × ℕ
  fire t db = elim (create_run t) [
    | some name ↦ (retry_later t.id name db, 0)
    | none ↦ elim (complete p t.id owner now db) [
      | err e ↦ (retry_later t.id "Error" db, 0)
      | ok (after, changed) ↦ (after, if changed then 1 else 0)
    ]
  ]

  unfoldable pub fire_all : List IntervalTrigger → TriggerDatabase → TriggerDatabase × ℕ
  fire_all [] db = (db, 0)
  fire_all (t ∷ ts) db =
      let first = fire t db in let rest = fire_all ts first.0 in (rest.0, first.1 + rest.1)

  -- The new database, and how many firings were completed.
  unfoldable pub tick : TriggerDatabase → TriggerDatabase × ℕ
  tick db = let (claimed, due) = claim_due now owner 30_000 db in fire_all due claimed
