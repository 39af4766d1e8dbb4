-- ===== src/Automation/Trigger/Occurrence.antt =====
-- The next firing of a trigger lies after the last one.
use lite_harness.Common.{
  ◌%◌, ◌∙◌, not, passed, throw_if, ℕ, sym, Result-cases, zero, suc, ◌+◌, ◌-◌, ◌*◌, ◌/◌, ◌≤◌, ◌<◌,
  ◌≡◌, max, String, Bool, true, false, Option, some, none, ok, arith, refl, if◌then◌else◌, ltb,
  Bool-cases, inl, inr, along,
}
use native.Mathlib.Nat.{lt-div-mul-add, div-mul-le_self}
use lite_harness.Automation.Trigger.{
  IntervalTrigger, LocalTime, ZonedParts, Platform, is_catch_up, next_slot, next_interval,
  next_occurrence, next_of_zone, next_daily_occurrence, search_days, zoned_local_to_utc, correct,
  settled, same_parts, day_after, is_local_time, local_time_invalid,
}

-- The slot that follows a firing of a trigger with a positive interval is a later slot of the
-- trigger, after the firing, and at most one interval after the later of the firing and the time
-- that was due.
pub next_slot_first :
    (t : IntervalTrigger) (fired_at : ℕ)
    → 0 < t.interval_ms
    → (k : ℕ) × (next_slot t fired_at ≡ t.next_fire_at + suc k * t.interval_ms)
      × (fired_at < next_slot t fired_at)
      × (next_slot t fired_at ≤ max fired_at t.next_fire_at + t.interval_ms)
unfolding next_slot
next_slot_first t fired_at positive =
    let late = fired_at - t.next_fire_at in
    let q = late / t.interval_ms in
    let above : late < q * t.interval_ms + t.interval_ms = lt-div-mul-add positive in
    let below : q * t.interval_ms ≤ late = div-mul-le_self late t.interval_ms in
    let one : max 1 (q + 1) ≡ suc q = omega arith in
    let product : suc q * t.interval_ms ≡ q * t.interval_ms + t.interval_ms = grind arith in
    (q, rw one refl, rw one (omega (arith, above, product)), rw one (omega (arith, below, product)))

-- The date of the parts, at the start of the day.
abbrev pub midnight : ZonedParts → ZonedParts
midnight d = record d { hour = 0; minute = 0 }

-- What is documented of `Intl` and `Date.UTC`, for dates after 1970: the clock of a zone shows a time
-- of day, an instant in UTC is that of its date and the time of the day, days are whole, and a day past
-- the end of its month is the date that many days later.
pub record IsCalendar (p : Platform) : Type 0 where
  pub clock :
      (zone : String) (n : ℕ)
      → ((p.zoned_parts zone n).hour < 24) × ((p.zoned_parts zone n).minute < 60)
  pub utc_time :
      (d : ZonedParts) → p.utc d ≡ p.utc (midnight d) + (d.hour * 3_600_000 + d.minute * 60_000)
  pub whole_days : (d : ZonedParts) → p.utc (midnight d) % 86_400_000 ≡ 0
  pub later_date :
      (d : ZonedParts) (k : ℕ)
      → p.utc (midnight (p.normal_date (record d { day = d.day + k; hour = 0; minute = 0 })))
        ≡ p.utc (midnight d) + k * 86_400_000

-- One instant has one date and one time of day.
same_clock :
    (a b h m i n : ℕ)
    → a % 86_400_000 ≡ 0
    → b % 86_400_000 ≡ 0
    → (h < 24) × (m < 60)
    → (i < 24) × (n < 60)
    → a + (h * 3_600_000 + m * 60_000) ≡ b + (i * 3_600_000 + n * 60_000)
    → (h ≡ i) × (m ≡ n) × (a ≡ b)
same_clock a b h m i n a_whole b_whole left right same =
    let dates : a ≡ b = omega arith in
    let hours : h ≡ i = omega (arith, dates) in (hours, omega (arith, dates, hours), dates)

module _ (p : Platform) where
  next_interval-later :
      (t : IntervalTrigger) (fired_at : ℕ)
      → 0 < t.interval_ms
      → (if is_catch_up t.missed_run_policy then t.next_fire_at else fired_at)
        < next_interval p t fired_at
  unfolding next_interval
  next_interval-later t fired_at positive =
      let (k, slot, after, first) = next_slot_first t fired_at positive in ground (arith, after)

  search_days-later :
      (days offset : ℕ) (zone : String) (time : LocalTime) (current : ZonedParts) (after n : ℕ)
      → search_days p days offset zone time current after ≡ ok n
      → after < n
  unfolding search_days
  search_days-later zero offset zone time current after n h = cc
  search_days-later (suc days) offset zone time current after n h =
      ground (arith, search_days-later days (offset + 1) zone time current after n)

  next_daily-later :
      (zone : String) (time : LocalTime) (after n : ℕ)
      → next_daily_occurrence p zone time after ≡ ok n
      → after < n
  unfolding next_daily_occurrence
  next_daily-later zone time after n h =
      ground (arith, search_days-later 4 0 zone time (p.zoned_parts zone after) after n)

  next_of_zone-later :
      (t : IntervalTrigger) (fired_at n : ℕ) (zone : Option String) (time : Option LocalTime)
      → 0 < t.interval_ms
      → next_of_zone p t fired_at zone time ≡ ok n
      → (if is_catch_up t.missed_run_policy then t.next_fire_at else fired_at) < n
  next_of_zone-later t fired_at n none time positive h =
      ground (arith, next_interval-later t fired_at positive)
  next_of_zone-later t fired_at n (some zone) none positive h =
      ground (arith, next_interval-later t fired_at positive)
  next_of_zone-later t fired_at n (some zone) (some time) positive h = ground (
    arith,
    next_interval-later t fired_at positive,
    next_daily-later zone time
        (if is_catch_up t.missed_run_policy then t.next_fire_at else fired_at) n,
  )

  -- The next firing of a trigger with a positive interval lies after the firing or, where missed runs
  -- are caught up, after the time it was due, in the zone's days as in intervals.
  pub next_occurrence-later :
      (t : IntervalTrigger) (fired_at n : ℕ)
      → 0 < t.interval_ms
      → next_occurrence p t fired_at ≡ ok n
      → (if is_catch_up t.missed_run_policy then t.next_fire_at else fired_at) < n
  unfolding next_occurrence
  next_occurrence-later t fired_at n positive h =
      next_of_zone-later t fired_at n t.time_zone t.local_time positive h

  -- The instant reads, on the zone's clock, as a date at the local time.
  correct-settles :
      (n : ℕ) (zone : String) (target candidate : ℕ)
      → (correct p n zone target candidate).1 ≡ true
      → p.utc (p.zoned_parts zone (correct p n zone target candidate).0) ≡ target
  unfolding correct
  correct-settles zero zone target candidate h = cc
  correct-settles (suc n) zone target candidate h = ground (
    arith,
    correct-settles n zone target (candidate + target - p.utc (p.zoned_parts zone candidate)),
  )

  same_parts→eq : (a b : ZonedParts) → same_parts a b ≡ true → a ≡ b
  same_parts→eq a b h = ground arith

  settled-IsLocal :
      (zone : String) (wanted : ZonedParts) (r : ℕ × Bool) (c : ℕ)
      → (r.1 ≡ true → p.utc (p.zoned_parts zone r.0) ≡ p.utc wanted)
      → settled p zone wanted r ≡ ok c
      → p.utc (p.zoned_parts zone c) ≡ p.utc wanted
  settled-IsLocal zone wanted (candidate, true) c h e =
      along (λ v. p.utc (p.zoned_parts zone v) ≡ p.utc wanted) e (h refl)
  settled-IsLocal zone wanted (candidate, false) c h e =
      ground (arith, same_parts→eq (p.zoned_parts zone candidate) wanted)

  -- An instant that is found for a local time of a zone shows that time on the clock of the zone.
  pub zoned_local_to_utc-IsLocal :
      (zone : String) (wanted : ZonedParts) (c : ℕ)
      → zoned_local_to_utc p zone wanted ≡ ok c
      → p.utc (p.zoned_parts zone c) ≡ p.utc wanted
  unfolding zoned_local_to_utc
  zoned_local_to_utc-IsLocal zone wanted c h =
      settled-IsLocal zone wanted (correct p 6 zone (p.utc wanted) (p.utc wanted)) c
        (correct-settles 6 zone (p.utc wanted) (p.utc wanted)) h

  -- The instant shows the time on the clock, on one of some days.
  abbrev pub IsShown : String → LocalTime → ZonedParts → ℕ → ℕ → Type 0
  IsShown zone time current bound n =
      (k : ℕ) × (k < bound) × (p.utc (p.zoned_parts zone n) ≡ p.utc (day_after p k time current))

  one_day_less :
      (days offset : ℕ) (zone : String) (time : LocalTime) (current : ZonedParts) (n : ℕ)
      → IsShown zone time current (offset + 1 + days) n
      → IsShown zone time current (offset + suc days) n
  one_day_less days offset zone time current n (k, below, shown) = (k, omega (arith, below), shown)

  search_days-IsLocal :
      (days offset : ℕ) (zone : String) (time : LocalTime) (current : ZonedParts) (after n : ℕ)
      → search_days p days offset zone time current after ≡ ok n
      → IsShown zone time current (offset + days) n
  unfolding search_days
  search_days-IsLocal zero offset zone time current after n h = cc
  search_days-IsLocal (suc days) offset zone time current after n h =
      let rest = search_days p days (offset + 1) zone time current after in
      let later = λ (e : rest ≡ ok n).
        one_day_less days offset zone time current n
          (search_days-IsLocal days (offset + 1) zone time current after n e) in
      elim (Result-cases (zoned_local_to_utc p zone (day_after p offset time current))) [
        | inl (e, missing) ↦ later (ground (arith, missing))
        | inr (c, found) ↦ elim (Bool-cases (ltb after c)) [
          | inr early ↦ later (ground (arith, found, early))
          | inl late ↦
              let same : c ≡ n = ground (arith, found, late) in
              (
                offset,
                omega arith,
                rw (sym same)
                    (zoned_local_to_utc-IsLocal zone (day_after p offset time current) c found),
              )
        ]
      ]

  -- A daily occurrence that is found lies after the given instant and shows the local time on the
  -- zone's clock, on the day of that instant there or one of the three days that follow, over a
  -- calendar as documented.
  pub next_daily_occurrence-IsLocal :
      (calendar : IsCalendar p) (zone : String) (time : LocalTime) (after n : ℕ)
      → next_daily_occurrence p zone time after ≡ ok n
      → (after < n)
        × ((p.zoned_parts zone n).hour ≡ time.hour)
        × ((p.zoned_parts zone n).minute ≡ time.minute)
        × (k : ℕ) × (k < 4)
        × (p.utc (midnight (p.zoned_parts zone n))
            ≡ p.utc (midnight (p.zoned_parts zone after)) + k * 86_400_000)
  unfolding next_daily_occurrence
  next_daily_occurrence-IsLocal calendar zone time after n h =
      let current = p.zoned_parts zone after in
      let (valid, found) = passed (throw_if (not (is_local_time time)) local_time_invalid) _ h in
      let (k, below, shown) = search_days-IsLocal 4 0 zone time current after n found in
      let wanted = day_after p k time current in
      let read = p.zoned_parts zone n in
      let (hours, minutes, days) =
        same_clock (p.utc (midnight read)) (p.utc (midnight wanted)) read.hour read.minute time.hour
          time.minute (calendar.whole_days read) (calendar.whole_days wanted)
          (calendar.clock zone n) (ground (arith, valid))
          (sym (calendar.utc_time read) ∙ shown ∙ calendar.utc_time wanted) in
      (
        next_daily-later zone time after n h,
        hours,
        minutes,
        k,
        below,
        days ∙ calendar.later_date current k,
      )
