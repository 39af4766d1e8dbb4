-- ===== src/Automation/Trigger.antt =====
-- Triggers and the time of their next firing: packages/automation/src/index.ts (`IntervalTrigger`,
-- `validateTrigger`, `nextOccurrence`, `nextDailyOccurrence`, `zonedLocalToUtc`). Times and intervals
-- are whole milliseconds. `Intl` and `Date` are parameters, and so is the hash that draws the jitter.
pub mod Occurrence
use lite_harness.Common.{
  ℕ, ◌+◌, ◌-◌, ◌*◌, ◌/◌, ◌%◌, max, zero, suc, String, Bool, true, false, ◌&&◌, ◌||◌, not, Option,
  some, none, Result, ok, err, ◌>>=◌, ◌>>◌, throw_if, if◌then◌else◌, ltb, leb, eqb, ◌==◌,
}
use lite_harness.Run.Record.{or_else}
use lite_harness.Store.Json.{Fields}
use lite_harness.Store.Events.{absent}

pub data MissedRunPolicy : Type 0 where
  skip catch_up : MissedRunPolicy

-- "HH:mm" as its two numbers.
pub record LocalTime : Type 0 where
  pub hour : ℕ
  pub minute : ℕ

-- An absent policy is `skip`, an absent jitter 0, and an absent `oneShot` false.
pub record IntervalTrigger : Type 0 where
  pub id : String
  pub interval_ms : ℕ
  pub next_fire_at : ℕ
  pub payload : Fields
  pub lease_owner : Option String
  pub lease_expires_at : Option ℕ
  pub one_shot : Bool
  pub jitter_ms : ℕ
  pub missed_run_policy : MissedRunPolicy
  pub time_zone : Option String
  pub local_time : Option LocalTime

pub data TriggerError : Type 0 where
  interval_too_short next_fire_at_invalid jitter_invalid zone_without_time : TriggerError
  local_time_invalid time_zone_invalid nonexistent_local_time no_occurrence : TriggerError

-- `Number.MAX_SAFE_INTEGER`
abbrev pub max_safe_integer : ℕ
max_safe_integer = 9_007_199_254_740_991

-- What `zonedParts` reads off the clock of a zone.
pub record ZonedParts : Type 0 where
  pub year : ℕ
  pub month : ℕ
  pub day : ℕ
  pub hour : ℕ
  pub minute : ℕ

abbrev pub is_catch_up : MissedRunPolicy → Bool
is_catch_up skip = false
is_catch_up catch_up = true

abbrev pub is_local_time : LocalTime → Bool
is_local_time t = ltb t.hour 24 && ltb t.minute 60

-- `Intl.DateTimeFormat`, `Date.UTC` and SHA-256: whether a zone is known, the clock of a zone, the
-- instant of a date and time in UTC, the date that a day past the end of its month is, and the number
-- in the first four bytes of the hash of an id and a time.
pub record Platform : Type 0 where
  pub is_zone : String → Bool
  pub zoned_parts : String → ℕ → ZonedParts
  pub utc : ZonedParts → ℕ
  pub normal_date : ZonedParts → ZonedParts
  pub hash : String → ℕ → ℕ

abbrev pub same_parts : ZonedParts → ZonedParts → Bool
same_parts a b =
    eqb a.year b.year
    && eqb a.month b.month
    && eqb a.day b.day
    && eqb a.hour b.hour
    && eqb a.minute b.minute

-- The slots of the interval up to the firing are skipped.
unfoldable pub next_slot : IntervalTrigger → ℕ → ℕ
next_slot t fired_at =
    let missed = max 1 ((fired_at - t.next_fire_at) / t.interval_ms + 1) in
    t.next_fire_at + missed * t.interval_ms

module _ (p : Platform) where
  abbrev check_zone : String → LocalTime → Result TriggerError (Unit {0})
  check_zone zone time = do
    throw_if (not (is_local_time time)) local_time_invalid
    throw_if (not (p.is_zone zone)) time_zone_invalid

  abbrev check_zoned : Option String → Option LocalTime → Result TriggerError (Unit {0})
  check_zoned (some zone) (some time) = if zone == "" then ok tt else check_zone zone time
  check_zoned _ _ = ok tt

  -- A negative amount is no value of the model.
  unfoldable pub validate_trigger : IntervalTrigger → Result TriggerError (Unit {0})
  validate_trigger t = do
    throw_if (not t.one_shot && ltb t.interval_ms 1_000) interval_too_short
    throw_if (ltb max_safe_integer t.next_fire_at) next_fire_at_invalid
    throw_if (ltb (max t.interval_ms 86_400_000) t.jitter_ms) jitter_invalid
    throw_if (if absent t.time_zone then not (absent t.local_time) else absent t.local_time)
        zone_without_time
    check_zoned t.time_zone t.local_time

  -- The iteration of `zonedLocalToUtc`; the result tells whether a correction was zero.
  unfoldable pub correct : ℕ → String → ℕ → ℕ → ℕ × Bool
  correct zero zone target candidate = (candidate, false)
  correct (suc n) zone target candidate =
      let represented = p.utc (p.zoned_parts zone candidate) in
      let rest = correct n zone target (candidate + target - represented) in
      if eqb target represented then (candidate, true) else rest

  abbrev pub settled : String → ZonedParts → ℕ × Bool → Result TriggerError ℕ
  settled zone wanted (candidate, true) = ok candidate
  settled zone wanted (candidate, false) =
      if same_parts (p.zoned_parts zone candidate) wanted
      then ok candidate
      else err nonexistent_local_time

  unfoldable pub zoned_local_to_utc : String → ZonedParts → Result TriggerError ℕ
  zoned_local_to_utc zone wanted =
      settled zone wanted (correct 6 zone (p.utc wanted) (p.utc wanted))

  -- `Date.UTC(year, month - 1, day + offset)`, at the local time.
  abbrev pub day_after : ℕ → LocalTime → ZonedParts → ZonedParts
  day_after offset time current =
      record (p.normal_date (record current { day = current.day + offset; hour = 0; minute = 0 })) {
        hour = time.hour;
        minute = time.minute;
      }

  -- The loop over the offsets, from `offset`, with `days` to go.
  unfoldable pub search_days : ℕ → ℕ → String → LocalTime → ZonedParts → ℕ → Result TriggerError ℕ
  search_days zero offset zone time current after = err no_occurrence
  search_days (suc days) offset zone time current after =
      let rest = search_days days (offset + 1) zone time current after in
      elim (zoned_local_to_utc zone (day_after offset time current)) [
        | err e ↦ rest
        | ok candidate ↦ if ltb after candidate then ok candidate else rest
      ]

  unfoldable pub next_daily_occurrence : String → LocalTime → ℕ → Result TriggerError ℕ
  next_daily_occurrence zone time after =
      throw_if (not (is_local_time time)) local_time_invalid
      >> search_days 4 0 zone time (p.zoned_parts zone after) after

  unfoldable pub next_interval : IntervalTrigger → ℕ → ℕ
  next_interval t fired_at =
      if is_catch_up t.missed_run_policy
      then t.next_fire_at + t.interval_ms
      else (let base = next_slot t fired_at in
          if eqb t.jitter_ms 0 then base else base + p.hash t.id base % (t.jitter_ms + 1))

  abbrev pub next_of_zone :
      IntervalTrigger → ℕ → Option String → Option LocalTime → Result TriggerError ℕ
  next_of_zone t fired_at (some zone) (some time) =
      if zone == ""
      then ok (next_interval t fired_at)
      else next_daily_occurrence zone time
          (if is_catch_up t.missed_run_policy then t.next_fire_at else fired_at)
  next_of_zone t fired_at _ _ = ok (next_interval t fired_at)

  unfoldable pub next_occurrence : IntervalTrigger → ℕ → Result TriggerError ℕ
  next_occurrence t fired_at = next_of_zone t fired_at t.time_zone t.local_time
