-- ===== src/Automation/Scheduler/Release.antt =====
-- A tick releases whatever it claims.
use lite_harness.Common.{
  ℕ, ◌+◌, ◌≡◌, String, Bool, true, false, ◌&&◌, ◌||◌, not, Option, none, List, ◌⊎◌, [], ◌∷◌, arith,
  refl, ok, Result-cases, Option-cases, all, find?, update_where, eq_iff, eq_refl, subst,
  Bool-cases, inl, inr, ◌==◌,
}
use lite_harness.Automation.Trigger.{IntervalTrigger, Platform}
use lite_harness.Automation.Scheduler.{fire, fire_all, tick}
use lite_harness.Automation.Sqlite.{
  TriggerDatabase, TriggerRow, claim_due, complete, fail, is_held_row, next_time, completed_row,
  failed_row,
}

-- No row of the trigger is leased to the owner.
abbrev pub is_released : String → String → List TriggerRow → Bool
is_released id owner rows = all (λ r. not (is_held_row id owner r)) rows

-- A change of rows that takes no lease.
frees-is_released :
    (id own owner : String) (f : TriggerRow → TriggerRow) (rows : List TriggerRow)
    → ((r : TriggerRow) → is_held_row id owner (f r) ≡ false)
    → is_released id owner rows ≡ true
    → is_released id owner (update_where (is_held_row own owner) f rows) ≡ true
frees-is_released id own owner f [] g h = refl
frees-is_released id own owner f (r ∷ rows) g h =
    ground (arith, g r, frees-is_released id own owner f rows g)

freed-is_released :
    (id owner : String) (f : TriggerRow → TriggerRow) (rows : List TriggerRow)
    → ((r : TriggerRow) → is_held_row id owner (f r) ≡ false)
    → is_released id owner (update_where (is_held_row id owner) f rows) ≡ true
freed-is_released id owner f [] g = refl
freed-is_released id owner f (r ∷ rows) g = ground (arith, g r, freed-is_released id owner f rows g)

not_found-is_released :
    (id owner : String) (rows : List TriggerRow)
    → find? (is_held_row id owner) rows ≡ none
    → is_released id owner rows ≡ true
not_found-is_released id owner [] h = refl
not_found-is_released id owner (r ∷ rows) h = ground (arith, not_found-is_released id owner rows)

false_and : (b : Bool) → (b && false) ≡ false
false_and true = refl
false_and false = refl

module _ (own owner : String) (now : ℕ) (db : TriggerDatabase) where
  fail-keeps :
      (id : String) (retry_at : ℕ) (name : String)
      → is_released id owner db.triggers ≡ true
      → is_released id owner (fail now own owner retry_at name db).0.triggers ≡ true
  unfolding fail
  fail-keeps id retry_at name h = ground (
    arith,
    frees-is_released id own owner (failed_row retry_at name) db.triggers
        (λ r. false_and (r.trigger.id == id)) h,
  )

  fail-releases :
      (retry_at : ℕ) (name : String)
      → is_released own owner (fail now own owner retry_at name db).0.triggers ≡ true
  unfolding fail
  fail-releases retry_at name = ground (
    arith,
    not_found-is_released own owner db.triggers,
    freed-is_released own owner (failed_row retry_at name) db.triggers
        (λ r. false_and (r.trigger.id == own)),
  )

  -- What a completion that returns does to the rows.
  complete-triggers :
      (p : Platform) (t : TriggerDatabase) (changed : Bool)
      → complete p own owner now db ≡ ok (t, changed)
      → ((find? (is_held_row own owner) db.triggers ≡ none) × (t ≡ db))
        ⊎ ((next : ℕ) × (t.triggers
              ≡ update_where (is_held_row own owner) (completed_row next now) db.triggers))
  unfolding complete
  complete-triggers p t changed h =
      elim (Option-cases (find? (is_held_row own owner) db.triggers)) [
        | inl n ↦ inl (n, ground (arith, n))
        | inr (row, found) ↦ elim (Result-cases (next_time p row.trigger now)) [
          | inl (e, failed) ↦ absurd (ground (arith, found, failed))
          | inr (next, timed) ↦ inr (next, ground (arith, found, timed))
        ]
      ]

  complete-keeps :
      (p : Platform) (t : TriggerDatabase) (changed : Bool) (id : String)
      → complete p own owner now db ≡ ok (t, changed)
      → is_released id owner db.triggers ≡ true
      → is_released id owner t.triggers ≡ true
  complete-keeps p t changed id h k = elim (complete-triggers p t changed h) [
    | inl (n, same) ↦ rw same k
    | inr (next, rows) ↦ rw rows (
        frees-is_released id own owner (completed_row next now) db.triggers
          (λ r. false_and (r.trigger.id == id)) k)
  ]

  complete-releases :
      (p : Platform) (t : TriggerDatabase) (changed : Bool)
      → complete p own owner now db ≡ ok (t, changed)
      → is_released own owner t.triggers ≡ true
  complete-releases p t changed h = elim (complete-triggers p t changed h) [
    | inl (n, same) ↦ rw same (not_found-is_released own owner db.triggers n)
    | inr (next, rows) ↦ rw rows (
        freed-is_released own owner (completed_row next now) db.triggers
          (λ r. false_and (r.trigger.id == own)))
  ]

module _ (own owner : String) (now : ℕ) (db : TriggerDatabase) (id : String)
    (before : (is_released id owner db.triggers || own == id) ≡ true) where
  fail-is_released :
      (retry_at : ℕ) (name : String)
      → is_released id owner (fail now own owner retry_at name db).0.triggers ≡ true
  fail-is_released retry_at name = elim (Bool-cases (own == id)) [
    | inl same ↦
        let e : own ≡ id = (eq_iff own id).0 same in
        subst (λ j. is_released j owner (fail now own owner retry_at name db).0.triggers ≡ true) e
          (fail-releases own owner now db retry_at name)
    | inr other ↦ fail-keeps own owner now db id retry_at name (ground arith)
  ]

  complete-is_released :
      (p : Platform) (t : TriggerDatabase) (changed : Bool)
      → complete p own owner now db ≡ ok (t, changed)
      → is_released id owner t.triggers ≡ true
  complete-is_released p t changed h = elim (Bool-cases (own == id)) [
    | inl same ↦
        let e : own ≡ id = (eq_iff own id).0 same in
        subst (λ j. is_released j owner t.triggers ≡ true) e
          (complete-releases own owner now db p t changed h)
    | inr other ↦ complete-keeps own owner now db p t changed id h (ground arith)
  ]

module _ (p : Platform) (create_run : IntervalTrigger → Option String) (owner : String)
    (now : ℕ) where
  fire-is_released :
      (t : IntervalTrigger) (db : TriggerDatabase) (id : String)
      → (is_released id owner db.triggers || t.id == id) ≡ true
      → is_released id owner (fire p create_run owner now t db).0.triggers ≡ true
  unfolding fire
  fire-is_released t db id h = elim (Option-cases (create_run t)) [
    | inr (name, refused) ↦
        ground (arith, refused, fail-is_released t.id owner now db id h (now + 30_000) name)
    | inl created ↦ elim (Result-cases (complete p t.id owner now db)) [
      | inl (e, failed) ↦
          ground
            (arith, created, failed, fail-is_released t.id owner now db id h (now + 30_000) "Error")
      | inr ((after, changed), done) ↦
          ground
            (arith, created, done, complete-is_released t.id owner now db id h p after changed done)
    ]
  ]

  fire_all-keeps :
      (ts : List IntervalTrigger) (db : TriggerDatabase) (id : String)
      → is_released id owner db.triggers ≡ true
      → is_released id owner (fire_all p create_run owner now ts db).0.triggers ≡ true
  unfolding fire_all
  fire_all-keeps [] db id h = h
  fire_all-keeps (t ∷ ts) db id h =
      fire_all-keeps ts (fire p create_run owner now t db).0 id
        (fire-is_released t db id (rw h refl))

  fire_all-releases :
      (ts : List IntervalTrigger) (db : TriggerDatabase)
      → all (λ t. is_released t.id owner (fire_all p create_run owner now ts db).0.triggers) ts
        ≡ true
  unfolding fire_all
  fire_all-releases [] db = refl
  fire_all-releases (t ∷ ts) db =
      let next = (fire p create_run owner now t db).0 in
      let here =
        fire_all-keeps ts next t.id (fire-is_released t db t.id (ground (arith, eq_refl t.id))) in
      rw (here, fire_all-releases ts next) refl

  -- After a tick no trigger that it claimed is still leased to the scheduler, whether its run was
  -- created or not, and whether its next time could be calculated or not.
  pub tick-releases :
      (db : TriggerDatabase)
      → all
          (λ t. is_released t.id owner (tick p create_run owner now db).0.triggers)
          (claim_due now owner 30_000 db).1
        ≡ true
  unfolding tick
  tick-releases db =
      fire_all-releases (claim_due now owner 30_000 db).1 (claim_due now owner 30_000 db).0
