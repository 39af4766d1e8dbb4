-- ===== src/Tests/Automation.antt =====
-- The theorems on triggers at two triggers.
use lite_harness.Common.{
  ℕ, ◌+◌, ◌*◌, ◌<◌, ◌≡◌, refl, arith, String, true, false, Option, some, none, [], ◌∷◌, ok, all,
  ◌/◌, ◌%◌,
}
use lite_harness.Store.Json.{no_fields}
use lite_harness.Automation.Trigger.{
  IntervalTrigger, LocalTime, Platform, skip, next_slot, next_occurrence, next_interval,
  next_daily_occurrence, search_days, zoned_local_to_utc, correct,
}
use lite_harness.Automation.Trigger.Occurrence.{
  next_occurrence-later, next_daily_occurrence-IsLocal, IsCalendar, midnight,
}
use lite_harness.Automation.Sqlite.{TriggerDatabase, TriggerRow, claim_due}
use lite_harness.Automation.Sqlite.Exclusion.{claim_due-excludes, lacks}
use lite_harness.Automation.Scheduler.{tick}
use lite_harness.Automation.Scheduler.Release.{tick-releases, is_released}

abbrev trigger : String → ℕ → IntervalTrigger
trigger id due = record {
  id = id;
  interval_ms = 60_000;
  next_fire_at = due;
  payload = no_fields;
  lease_owner = none;
  lease_expires_at = none;
  one_shot = false;
  jitter_ms = 0;
  missed_run_policy = skip;
  time_zone = none;
  local_time = none;
}

abbrev day_ms : ℕ
day_ms = 86_400_000

-- A platform whose only zone is UTC, with one month for all days.
abbrev platform : Platform
platform = record {
  is_zone = λ zone. true;
  zoned_parts = λ zone t. record {
    year = 0;
    month = 1;
    day = t / day_ms;
    hour = t % day_ms / 3_600_000;
    minute = t % 3_600_000 / 60_000;
  };
  utc = λ d. d.day * day_ms + d.hour * 3_600_000 + d.minute * 60_000;
  normal_date = λ d. d;
  hash = λ id t. 5;
}

abbrev trigger_row : IntervalTrigger → TriggerRow
trigger_row t = record { trigger = t; enabled = true; last_fired_at = none; last_error_code = none }

abbrev triggers : TriggerDatabase
triggers = record {
  triggers = trigger_row (trigger "a" 100) ∷ trigger_row (trigger "b" 500_000) ∷ [];
  firings = [];
}

fires_at_180_100 : next_occurrence platform (trigger "a" 100) 150_000 ≡ ok 180_100
unfolding next_occurrence next_interval next_slot
fires_at_180_100 = refl

next_occurrence-later_example : 150_000 < 180_100
next_occurrence-later_example =
    next_occurrence-later platform (trigger "a" 100) 150_000 180_100 (omega arith) fires_at_180_100

abbrev seven : LocalTime
seven = record { hour = 7; minute = 30 }

-- 07:30 on the next day.
fires_at_seven : next_daily_occurrence platform "UTC" seven 100_000_000 ≡ ok 113_400_000
unfolding next_daily_occurrence search_days zoned_local_to_utc correct
fires_at_seven = refl

platform-IsCalendar : IsCalendar platform
platform-IsCalendar = record {
  clock = λ zone n. (omega arith, omega arith);
  utc_time = λ d. omega arith;
  whole_days = λ d. omega arith;
  later_date = λ d k. omega arith;
}

next_daily_occurrence-IsLocal_example :
    (100_000_000 < 113_400_000)
    × ((platform.zoned_parts "UTC" 113_400_000).hour ≡ 7)
    × ((platform.zoned_parts "UTC" 113_400_000).minute ≡ 30)
    × (k : ℕ) × (k < 4)
    × (platform.utc (midnight (platform.zoned_parts "UTC" 113_400_000))
        ≡ platform.utc (midnight (platform.zoned_parts "UTC" 100_000_000)) + k * 86_400_000)
next_daily_occurrence-IsLocal_example =
    next_daily_occurrence-IsLocal platform platform-IsCalendar "UTC" seven 100_000_000 113_400_000
      fires_at_seven

claim_due-excludes_example :
    all
      (λ t.
        lacks t.id
          (claim_due 20_000 "scheduler_2" 30_000 (claim_due 200 "scheduler_1" 30_000 triggers).0).1)
      (claim_due 200 "scheduler_1" 30_000 triggers).1
    ≡ true
claim_due-excludes_example =
    claim_due-excludes 200 "scheduler_1" 30_000 20_000 "scheduler_2" 30_000 triggers refl
      (omega arith)

abbrev create_run : IntervalTrigger → Option String
create_run t = some "Error"

tick-releases_example :
    all
      (λ t.
        is_released t.id "scheduler_1"
          (tick platform create_run "scheduler_1" 200 triggers).0.triggers)
      (claim_due 200 "scheduler_1" 30_000 triggers).1
    ≡ true
tick-releases_example = tick-releases platform create_run "scheduler_1" 200 triggers
