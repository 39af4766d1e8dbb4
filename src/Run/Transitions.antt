-- ===== src/Run/Transitions.antt =====
-- What the table of packages/domain/src/index.ts says of the life of a run.
use lite_harness.Common.{
  any, ℕ, ◌+◌, ◌≤◌, ◌≡◌, ◌↔◌, Bool, true, false, ◌||◌, List, [], ◌∷◌, Result, ok, arith, length,
  ◌>>=◌, returned_before, ◌⊎◌, any, inl, inr, refl,
}
use lite_harness.Run.Status.{
  RunStatus, accepted, queued, preparing, running, checkpointing, failed, cancelled, timed_out,
  is_status, is_terminal_run_status, allowed_transitions, TransitionError, assert_run_transition,
  succeeded, orphaned,
}

-- A run that is driven through the checked transitions to each status of a list in turn.
unfoldable pub walk : RunStatus → List RunStatus → Result TransitionError RunStatus
walk s [] = ok s
walk s (t ∷ ts) = assert_run_transition s t >>= λ _. walk t ts

-- How far a status stands from acceptance.
abbrev stage : RunStatus → ℕ
stage accepted = 0
stage queued = 1
stage preparing = 2
stage running = 3
stage checkpointing = 4
stage _ = 5

-- The terminal statuses of the contracts are exactly the statuses with no way out in the domain's
-- table.
pub is_terminal-iff-no_transitions :
    (s : RunStatus) → (is_terminal_run_status s ≡ true) ↔ (allowed_transitions s ≡ [])
unfolding is_terminal_run_status allowed_transitions
is_terminal-iff-no_transitions accepted = (λ h. cc, λ h. cc)
is_terminal-iff-no_transitions _ = ground arith

stage_mono : (s t : RunStatus) → assert_run_transition s t ≡ ok tt → stage s + 1 ≤ stage t
unfolding assert_run_transition
stage_mono s t h = ground arith

stage-walk :
    (s t : RunStatus) (ts : List RunStatus) → walk s ts ≡ ok t → stage s + length ts ≤ stage t
unfolding walk
stage-walk s t [] h = ground arith
stage-walk s t (u ∷ ts) h =
    let (_, rest, e) = returned_before (λ _. walk u ts) (assert_run_transition s u) h in
    omega (arith, stage_mono s u e, stage-walk u t ts rest)

stage-le : (s : RunStatus) → stage s ≤ 5
stage-le s = ground arith

-- A run makes at most five checked transitions.
pub walk_bounded : (s t : RunStatus) (ts : List RunStatus) → walk s ts ≡ ok t → length ts ≤ 5
walk_bounded s t ts h = omega (arith, stage-walk s t ts h, stage-le t)

-- Before it runs.
abbrev pub early : RunStatus → Bool
early accepted = true
early queued = true
early preparing = true
early _ = false

step_early :
    (s t : RunStatus)
    → early s ≡ true
    → assert_run_transition s t ≡ ok tt
    → (early t
        || is_status t running
        || is_status t cancelled
        || is_status t failed
        || is_status t timed_out)
      ≡ true
unfolding assert_run_transition
step_early s t h e = ground arith

-- What a run can end in only by way of RUNNING.
abbrev pub needs_running : RunStatus → Bool
needs_running t = is_status t succeeded || is_status t orphaned || is_status t checkpointing

step_by_running :
    (s t : RunStatus)
    → early s ≡ true
    → assert_run_transition s t ≡ ok tt
    → (is_status t running ≡ true)
      ⊎ ((early t ≡ true) ⊎ ((needs_running t ≡ false) × (is_terminal_run_status t ≡ true)))
unfolding assert_run_transition is_terminal_run_status
step_by_running s t h e = ground arith

walk_of_terminal :
    (s t : RunStatus) (ts : List RunStatus)
    → is_terminal_run_status s ≡ true
    → walk s ts ≡ ok t
    → s ≡ t
unfolding walk
walk_of_terminal s t [] h e = ground arith
walk_of_terminal s t (u ∷ ts) h e =
    absurd (no_way s u h (returned_before (λ _. walk u ts) (assert_run_transition s u) e).2)
  where
    no_way :
        (s u : RunStatus) → is_terminal_run_status s ≡ true → assert_run_transition s u ≡ ok tt → ⊥
    no_way accepted u h e = unfold is_terminal_run_status in cc
    no_way s u h e = unfold is_terminal_run_status assert_run_transition in ground arith

-- A run that has not started succeeds, is checkpointed or is orphaned by a checked transition only
-- after RUNNING.
pub walk-running :
    (s t : RunStatus) (ts : List RunStatus)
    → early s ≡ true
    → needs_running t ≡ true
    → walk s ts ≡ ok t
    → any (is_status running) ts ≡ true
unfolding walk
walk-running s t [] h n e = ground arith
walk-running s t (u ∷ ts) h n e =
    let (_, rest, a) = returned_before (λ _. walk u ts) (assert_run_transition s u) e in
    elim (step_by_running s u h a) [
      | inl r ↦ ground (arith, r)
      | inr (inl still) ↦ ground (arith, walk-running u t ts still n rest)
      | inr (inr (plain, dead)) ↦ ground (arith, walk_of_terminal u t ts dead rest)
    ]

-- A run with an allowed transition is live.
pub live_before :
    (s t : RunStatus) → assert_run_transition s t ≡ ok tt → is_terminal_run_status s ≡ false
unfolding assert_run_transition is_terminal_run_status
live_before accepted t h = refl
live_before s t h = ground arith
