-- ===== src/Automation/Sqlite/Exclusion.antt =====
-- A trigger that was claimed is claimed by nobody else while its lease lasts.
use lite_harness.Common.{
  ℕ, ◌+◌, ◌<◌, ◌≡◌, String, Bool, true, false, ◌&&◌, ◌||◌, not, ◌∙◌, List, [], ◌∷◌, arith, refl,
  all, any, keep, update_where, eq_iff, Bool-cases, inl, inr, ◌==◌,
}
use lite_harness.Automation.Trigger.{IntervalTrigger}
use lite_harness.Automation.Sqlite.{
  TriggerDatabase, TriggerRow, is_free, is_due, insert_due, sort_due, due_rows, leased, can_claim,
  claim_row, claim_rows, claim_due,
}

-- The trigger is leased to a time later than `now`.
abbrev pub is_leased_past : ℕ → IntervalTrigger → Bool
is_leased_past now t = not (is_free now t)

-- Every row of the trigger is leased past `now`.
abbrev pub is_held : String → ℕ → List TriggerRow → Bool
is_held id now rows = all (λ r. not (r.trigger.id == id) || is_leased_past now r.trigger) rows

-- None of the triggers is the one named.
abbrev pub lacks : String → List IntervalTrigger → Bool
lacks id ts = all (λ t. not (t.id == id)) ts

abbrev rows_lack : String → List TriggerRow → Bool
rows_lack id rows = all (λ r. not (r.trigger.id == id)) rows

-- The rows after a claim of the trigger `own`.
abbrev after_claim : ℕ → String → ℕ → String → List TriggerRow → List TriggerRow
after_claim now owner until own rows =
    update_where (λ r. r.trigger.id == own && is_free now r.trigger)
      (λ r. record r { trigger = leased owner until r.trigger }) rows

claim-is_held :
    (now : ℕ) (owner : String) (until : ℕ) (own id : String) (later : ℕ) (rows : List TriggerRow)
    → later < until
    → is_held id later rows ≡ true
    → is_held id later (after_claim now owner until own rows) ≡ true
claim-is_held now owner until own id later [] h k = refl
claim-is_held now owner until own id later (r ∷ rows) h k =
    ground (arith, claim-is_held now owner until own id later rows h)

-- The primary key: no two rows have one id.
abbrev pub has_unique_ids : List TriggerRow → Bool
has_unique_ids [] = true
has_unique_ids (r ∷ rows) = rows_lack r.trigger.id rows && has_unique_ids rows

claim-rows_lack :
    (now : ℕ) (owner : String) (until : ℕ) (own id : String) (rows : List TriggerRow)
    → rows_lack id (after_claim now owner until own rows) ≡ rows_lack id rows
claim-rows_lack now owner until own id [] = refl
claim-rows_lack now owner until own id (r ∷ rows) =
    ground (arith, claim-rows_lack now owner until own id rows)

claim-has_unique_ids :
    (now : ℕ) (owner : String) (until : ℕ) (own : String) (rows : List TriggerRow)
    → has_unique_ids (after_claim now owner until own rows) ≡ has_unique_ids rows
claim-has_unique_ids now owner until own [] = refl
claim-has_unique_ids now owner until own (r ∷ rows) = ground (
  arith,
  claim-has_unique_ids now owner until own rows,
  claim-rows_lack now owner until own r.trigger.id rows,
)

lacked-is_held :
    (id : String) (later : ℕ) (rows : List TriggerRow)
    → rows_lack id rows ≡ true
    → is_held id later rows ≡ true
lacked-is_held id later [] h = refl
lacked-is_held id later (r ∷ rows) h = ground (arith, lacked-is_held id later rows)

lacked-any :
    (now : ℕ) (id : String) (rows : List TriggerRow)
    → rows_lack id rows ≡ true
    → any (λ r. r.trigger.id == id && is_free now r.trigger) rows ≡ false
lacked-any now id [] h = refl
lacked-any now id (r ∷ rows) h = ground (arith, lacked-any now id rows)

claimed-is_held :
    (now : ℕ) (owner : String) (until : ℕ) (own : String) (later : ℕ) (rows : List TriggerRow)
    → later < until
    → has_unique_ids rows ≡ true
    → any (λ r. r.trigger.id == own && is_free now r.trigger) rows ≡ true
    → is_held own later (after_claim now owner until own rows) ≡ true
claimed-is_held now owner until own later [] h u a = cc
claimed-is_held now owner until own later (r ∷ rows) h u a =
    elim (Bool-cases (r.trigger.id == own)) [
      | inr other ↦ ground (arith, claimed-is_held now owner until own later rows h)
      | inl same ↦
          let rest : rows_lack own rows ≡ true = ground (arith, eq_iff r.trigger.id own) in
          ground (
            arith,
            lacked-any now own rows,
            lacked-is_held own later (after_claim now owner until own rows),
            claim-rows_lack now owner until own own rows,
          )
    ]

module _ (now : ℕ) (owner : String) (lease_ms later : ℕ) (in_time : later < now + lease_ms) where
  claim_rows-is_held :
      (rows : List TriggerRow) (db : TriggerDatabase) (id : String)
      → is_held id later db.triggers ≡ true
      → is_held id later (claim_rows now owner lease_ms rows db).0.triggers ≡ true
  unfolding claim_rows claim_row
  claim_rows-is_held [] db id h = h
  claim_rows-is_held (row ∷ rows) db id h = elim (Bool-cases (can_claim now row.trigger.id db)) [
    | inr n ↦ rw n (claim_rows-is_held rows db id h)
    | inl y ↦ rw y (
        claim_rows-is_held rows (claim_row now owner lease_ms row db) id
          (claim-is_held now owner (now + lease_ms) row.trigger.id id later db.triggers in_time h))
  ]

  -- Whatever the loop claims is leased afterwards.
  claim_rows-all_held :
      (rows : List TriggerRow) (db : TriggerDatabase)
      → has_unique_ids db.triggers ≡ true
      → all
          (λ t. is_held t.id later (claim_rows now owner lease_ms rows db).0.triggers)
          (claim_rows now owner lease_ms rows db).1
        ≡ true
  unfolding claim_rows claim_row
  claim_rows-all_held [] db u = refl
  claim_rows-all_held (row ∷ rows) db u = elim (Bool-cases (can_claim now row.trigger.id db)) [
    | inr n ↦ rw n (claim_rows-all_held rows db u)
    | inl y ↦
        let next = claim_row now owner lease_ms row db in
        let here = claim_rows-is_held rows next row.trigger.id (
          claimed-is_held now owner (now + lease_ms) row.trigger.id later db.triggers in_time u
            y) in
        let rest =
          claim_rows-all_held rows next
            (claim-has_unique_ids now owner (now + lease_ms) row.trigger.id db.triggers ∙ u) in
        rw y (rw (here, rest) refl)
  ]

claim_rows-lacks :
    (now : ℕ) (owner : String) (lease_ms : ℕ) (id : String) (rows : List TriggerRow)
    (db : TriggerDatabase)
    → rows_lack id rows ≡ true
    → lacks id (claim_rows now owner lease_ms rows db).1 ≡ true
unfolding claim_rows
claim_rows-lacks now owner lease_ms id [] db h = refl
claim_rows-lacks now owner lease_ms id (row ∷ rows) db h =
    elim (Bool-cases (can_claim now row.trigger.id db)) [
      | inr n ↦ rw n (claim_rows-lacks now owner lease_ms id rows db (ground arith))
      | inl y ↦ rw y (
          ground (
            arith,
            claim_rows-lacks now owner lease_ms id rows (claim_row now owner lease_ms row db),
          ))
    ]

all-insert_due :
    (p : TriggerRow → Bool) (r : TriggerRow) (xs : List TriggerRow)
    → all p (insert_due r xs) ≡ all p (r ∷ xs)
unfolding insert_due
all-insert_due p r [] = refl
all-insert_due p r (x ∷ xs) = ground (arith, all-insert_due p r xs)

all-sort_due : (p : TriggerRow → Bool) (xs : List TriggerRow) → all p (sort_due xs) ≡ all p xs
unfolding sort_due
all-sort_due p [] = refl
all-sort_due p (x ∷ xs) = all-insert_due p x (sort_due xs) ∙ ground (arith, all-sort_due p xs)

held-not_due :
    (id : String) (now : ℕ) (rows : List TriggerRow)
    → is_held id now rows ≡ true
    → rows_lack id (keep (is_due now) rows) ≡ true
held-not_due id now [] h = refl
held-not_due id now (r ∷ rows) h = ground (arith, held-not_due id now rows)

held-lacks :
    (id : String) (now : ℕ) (owner : String) (lease_ms : ℕ) (db : TriggerDatabase)
    → is_held id now db.triggers ≡ true
    → lacks id (claim_due now owner lease_ms db).1 ≡ true
unfolding claim_due due_rows
held-lacks id now owner lease_ms db h =
    claim_rows-lacks now owner lease_ms id (sort_due (keep (is_due now) db.triggers)) db (
      all-sort_due (λ r. not (r.trigger.id == id)) (keep (is_due now) db.triggers)
      ∙ held-not_due id now db.triggers h)

all_mono :
    (p q : IntervalTrigger → Bool) (ts : List IntervalTrigger)
    → ((t : IntervalTrigger) → p t ≡ true → q t ≡ true)
    → all p ts ≡ true
    → all q ts ≡ true
all_mono p q [] f h = refl
all_mono p q (t ∷ ts) f h = ground (arith, f t, all_mono p q ts f)

-- In a table with unique ids, no trigger of one claim is in the next claim by anybody, at any time
-- before the lease of the first runs out.
pub claim_due-excludes :
    (now : ℕ) (owner : String) (lease_ms : ℕ) (later : ℕ) (other : String) (other_ms : ℕ)
    (db : TriggerDatabase)
    → has_unique_ids db.triggers ≡ true
    → later < now + lease_ms
    → all
        (λ t. lacks t.id (claim_due later other other_ms (claim_due now owner lease_ms db).0).1)
        (claim_due now owner lease_ms db).1
      ≡ true
unfolding claim_due
claim_due-excludes now owner lease_ms later other other_ms db u in_time =
    let after = (claim_due now owner lease_ms db).0 in
    all_mono (λ t. is_held t.id later after.triggers) _ (claim_due now owner lease_ms db).1
      (λ t h. held-lacks t.id later other other_ms after h)
      (claim_rows-all_held now owner lease_ms later in_time (due_rows now db) db u)
