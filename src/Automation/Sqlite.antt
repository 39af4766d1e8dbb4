-- ===== src/Automation/Sqlite.antt =====
-- The database of triggers: packages/automation/src/index.ts (`SqliteTriggerStore`). A time that a
-- method takes from the clock is an argument. Rows that are due at the same time come in the order of
-- their insertion.
pub mod Exclusion
use lite_harness.Common.{
  ℕ, String, Bool, true, false, ◌&&◌, ◌||◌, not, Option, some, none, List, [], ◌∷◌, ◌++◌, Result,
  ok, err, ◌>>=◌, if◌then◌else◌, keep, any, find?, find_by, update_by, update_where, leb, eqb, ◌==◌,
  ◌+◌,
}
use lite_harness.Automation.Trigger.{
  IntervalTrigger, TriggerError, Platform, validate_trigger, next_occurrence, max_safe_integer,
}

pub data FiringStatus : Type 0 where
  claimed completed failed : FiringStatus

pub record TriggerFiring : Type 0 where
  pub trigger_id : String
  pub scheduled_at : ℕ
  pub owner : String
  pub status : FiringStatus
  pub completed_at : Option ℕ
  pub error_code : Option String

-- A row: the trigger with its lease, and the columns that only the table has.
pub record TriggerRow : Type 0 where
  pub trigger : IntervalTrigger
  pub open trigger use *
  pub enabled : Bool
  pub last_fired_at : Option ℕ
  pub last_error_code : Option String

pub record TriggerDatabase : Type 0 where
  pub triggers : List TriggerRow
  pub firings : List TriggerFiring

abbrev pub trigger_id_of : TriggerRow → String
trigger_id_of r = r.trigger.id

abbrev new_row : IntervalTrigger → TriggerRow
new_row t = record {
  trigger = record t { lease_owner = none; lease_expires_at = none };
  enabled = true;
  last_fired_at = none;
  last_error_code = none;
}

-- `ON CONFLICT(id) DO UPDATE`: the lease stays.
abbrev overwritten : IntervalTrigger → TriggerRow → TriggerRow
overwritten t row = record row {
  trigger = record t {
    lease_owner = row.trigger.lease_owner;
    lease_expires_at = row.trigger.lease_expires_at;
  };
  enabled = true;
}

unfoldable pub put :
    Platform → IntervalTrigger → TriggerDatabase → Result TriggerError TriggerDatabase
put p t db = validate_trigger p t >>= λ _. ok (elim (find_by trigger_id_of t.id db.triggers) [
  | none ↦ record db { triggers = db.triggers ++ new_row t ∷ [] }
  | some _ ↦ record db { triggers = update_by trigger_id_of t.id (overwritten t) db.triggers }
])

unfoldable pub ensure :
    Platform → IntervalTrigger → TriggerDatabase → Result TriggerError TriggerDatabase
ensure p t db = validate_trigger p t >>= λ _. ok (elim (find_by trigger_id_of t.id db.triggers) [
  | none ↦ record db { triggers = db.triggers ++ new_row t ∷ [] }
  | some _ ↦ db
])

-- `lease_owner IS NULL OR lease_expires_at <= now`
abbrev pub is_free : ℕ → IntervalTrigger → Bool
is_free now t = elim t.lease_owner [
  | none ↦ true
  | some _ ↦ elim t.lease_expires_at [ none ↦ false | some e ↦ leb e now ]
]

abbrev pub is_due : ℕ → TriggerRow → Bool
is_due now row = row.enabled && leb row.trigger.next_fire_at now && is_free now row.trigger

unfoldable pub insert_due : TriggerRow → List TriggerRow → List TriggerRow
insert_due row [] = row ∷ []
insert_due row (x ∷ xs) =
    let rest = insert_due row xs in
    if leb row.trigger.next_fire_at x.trigger.next_fire_at then row ∷ x ∷ xs else x ∷ rest

-- `ORDER BY next_fire_at`
unfoldable pub sort_due : List TriggerRow → List TriggerRow
sort_due [] = []
sort_due (x ∷ xs) = insert_due x (sort_due xs)

unfoldable pub due_rows : ℕ → TriggerDatabase → List TriggerRow
due_rows now db = sort_due (keep (is_due now) db.triggers)

abbrev pub leased : String → ℕ → IntervalTrigger → IntervalTrigger
leased owner expires_at t = record t {
  lease_owner = some owner;
  lease_expires_at = some expires_at;
}

-- `INSERT OR IGNORE INTO trigger_firings`
abbrev pub record_claim : String → ℕ → String → List TriggerFiring → List TriggerFiring
record_claim id scheduled_at owner fs =
    if any (λ f. f.trigger_id == id && eqb f.scheduled_at scheduled_at) fs
    then fs
    else fs
      ++ record {
        trigger_id = id;
        scheduled_at = scheduled_at;
        owner = owner;
        status = claimed;
        completed_at = none;
        error_code = none;
      }
        ∷ []

-- Whether the `UPDATE` of the claim finds the row.
abbrev pub can_claim : ℕ → String → TriggerDatabase → Bool
can_claim now id db = any (λ r. r.trigger.id == id && is_free now r.trigger) db.triggers

unfoldable pub claim_row : ℕ → String → ℕ → TriggerRow → TriggerDatabase → TriggerDatabase
claim_row now owner lease_ms row db = record db {
  triggers =
      update_where (λ r. r.trigger.id == row.trigger.id && is_free now r.trigger)
        (λ r. record r { trigger = leased owner (now + lease_ms) r.trigger }) db.triggers;
  firings = record_claim row.trigger.id row.trigger.next_fire_at owner db.firings;
}

-- The loop over the rows that are due, with the triggers that it claims.
unfoldable pub claim_rows :
    ℕ → String → ℕ → List TriggerRow → TriggerDatabase → TriggerDatabase × List IntervalTrigger
claim_rows now owner lease_ms [] db = (db, [])
claim_rows now owner lease_ms (row ∷ rows) db =
    let found = can_claim now row.trigger.id db in
    let next = if found then claim_row now owner lease_ms row db else db in
    let rest = claim_rows now owner lease_ms rows next in
    if found then (rest.0, leased owner (now + lease_ms) row.trigger ∷ rest.1) else rest

unfoldable pub claim_due : ℕ → String → ℕ → TriggerDatabase → TriggerDatabase × List IntervalTrigger
claim_due now owner lease_ms db = claim_rows now owner lease_ms (due_rows now db) db

abbrev pub is_owner : Option String → String → Bool
is_owner none owner = false
is_owner (some o) owner = o == owner

-- `WHERE id = ? AND lease_owner = ?`
abbrev pub is_held_row : String → String → TriggerRow → Bool
is_held_row id owner r = r.trigger.id == id && is_owner r.trigger.lease_owner owner

abbrev pub is_firing : String → ℕ → String → TriggerFiring → Bool
is_firing id scheduled_at owner f =
    f.trigger_id == id && eqb f.scheduled_at scheduled_at && f.owner == owner

abbrev pub next_time : Platform → IntervalTrigger → ℕ → Result TriggerError ℕ
next_time p t fired_at = if t.one_shot then ok max_safe_integer else next_occurrence p t fired_at

abbrev pub completed_row : ℕ → ℕ → TriggerRow → TriggerRow
completed_row next fired_at r = record r {
  trigger = record r.trigger { next_fire_at = next; lease_owner = none; lease_expires_at = none };
  enabled = not r.trigger.one_shot;
  last_fired_at = some fired_at;
  last_error_code = none;
}

abbrev pub completed_firing : ℕ → TriggerFiring → TriggerFiring
completed_firing at f = record f { status = completed; completed_at = some at }

unfoldable pub complete :
    Platform → String → String → ℕ → TriggerDatabase → Result TriggerError (TriggerDatabase × Bool)
complete p id owner fired_at db = elim (find? (is_held_row id owner) db.triggers) [
  | none ↦ ok (db, false)
  | some row ↦ next_time p row.trigger fired_at >>= λ next. ok (
    record {
      triggers = update_where (is_held_row id owner) (completed_row next fired_at) db.triggers;
      firings =
          update_where (is_firing id row.trigger.next_fire_at owner) (completed_firing fired_at)
            db.firings;
    },
    true,
  )
]

abbrev pub failed_row : ℕ → String → TriggerRow → TriggerRow
failed_row retry_at error_code r = record r {
  trigger = record r.trigger {
    next_fire_at = retry_at;
    lease_owner = none;
    lease_expires_at = none;
  };
  last_error_code = some error_code;
}

abbrev pub failed_firing : ℕ → String → TriggerFiring → TriggerFiring
failed_firing at error_code f = record f {
  status = failed;
  completed_at = some at;
  error_code = some error_code;
}

unfoldable pub fail : ℕ → String → String → ℕ → String → TriggerDatabase → TriggerDatabase × Bool
fail now id owner retry_at error_code db = elim (find? (is_held_row id owner) db.triggers) [
  | none ↦ (db, false)
  | some row ↦ (
    record {
      triggers = update_where (is_held_row id owner) (failed_row retry_at error_code) db.triggers;
      firings =
          update_where (is_firing id row.trigger.next_fire_at owner) (failed_firing now error_code)
            db.firings;
    },
    true,
  )
]
