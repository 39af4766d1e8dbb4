-- ===== src/Run/Status.antt =====
-- The status of a run: packages/contracts/src/index.ts (`RunStatus`, `isTerminalRunStatus`) and
-- packages/domain/src/index.ts (`allowedTransitions`, `assertRunTransition`).
use lite_harness.Common.{
  ◌≡◌, Bool, true, String, List, [], ◌∷◌, Result, ok, arith, err, any, if◌then◌else◌, not, ℕ, eqb,
}

pub data RunStatus : Type 0 where
  accepted queued preparing running checkpointing : RunStatus
  succeeded failed cancelled timed_out orphaned : RunStatus

abbrev code : RunStatus → ℕ
code accepted = 0
code queued = 1
code preparing = 2
code running = 3
code checkpointing = 4
code succeeded = 5
code failed = 6
code cancelled = 7
code timed_out = 8
code orphaned = 9

-- `left === right`
abbrev pub is_status : RunStatus → RunStatus → Bool
is_status s t = eqb (code s) (code t)

-- The word that the database and the payloads of events hold.
unfoldable pub status_name : RunStatus → String
status_name accepted = "ACCEPTED"
status_name queued = "QUEUED"
status_name preparing = "PREPARING"
status_name running = "RUNNING"
status_name checkpointing = "CHECKPOINTING"
status_name succeeded = "SUCCEEDED"
status_name failed = "FAILED"
status_name cancelled = "CANCELLED"
status_name timed_out = "TIMED_OUT"
status_name orphaned = "ORPHANED"

abbrev pub terminal_statuses : List RunStatus
terminal_statuses = succeeded ∷ failed ∷ cancelled ∷ timed_out ∷ orphaned ∷ []

unfoldable pub is_terminal_run_status : RunStatus → Bool
is_terminal_run_status s = any (is_status s) terminal_statuses

unfoldable pub allowed_transitions : RunStatus → List RunStatus
allowed_transitions accepted = queued ∷ cancelled ∷ failed ∷ []
allowed_transitions queued = preparing ∷ cancelled ∷ failed ∷ timed_out ∷ []
allowed_transitions preparing = running ∷ cancelled ∷ failed ∷ timed_out ∷ []
allowed_transitions running =
    checkpointing ∷ succeeded ∷ cancelled ∷ failed ∷ timed_out ∷ orphaned ∷ []
allowed_transitions checkpointing = succeeded ∷ failed ∷ orphaned ∷ []
allowed_transitions succeeded = []
allowed_transitions failed = []
allowed_transitions cancelled = []
allowed_transitions timed_out = []
allowed_transitions orphaned = []

pub data TransitionError : Type 0 where
  invalid_run_transition : RunStatus → RunStatus → TransitionError

unfoldable pub assert_run_transition : RunStatus → RunStatus → Result TransitionError (Unit {0})
unfolding allowed_transitions
assert_run_transition from to =
    if not (any (is_status to) (allowed_transitions from))
    then err (invalid_run_transition from to)
    else ok tt

pub is_status→eq : (s t : RunStatus) → is_status s t ≡ true → s ≡ t
is_status→eq s t h = ground arith
