-- ===== src/Contracts/RunWait.antt =====
-- src/contracts/run-wait.ts: `waitForRun`. What happens around the loop is an argument: at each of
-- the points where the loop looks at its signal, whether the caller aborted or the deadline passed
-- (the first of the two, which `interrupt` keeps), and what each retrieval brings.
pub mod Waiting
mod Tests
use cavi_api_client.Base.{
  ℕ, zero, suc, ◌+◌, ◌*◌, Bool, true, false, not, ◌&&◌, ◌||◌, Option, none, some, if◌then◌else◌,
  Result, ok, err, ltb, leb, ◌==◌,
}
use cavi_api_client.Base.Number.{Number, int, scale, is_integer, lt_num, gt_num, whole}
use cavi_api_client.Errors.{Failure}
use cavi_api_client.Runtime.Run.{
  RunState, started, running, completed, failed, cancelled, stopping, RunStatus,
}
use cavi_api_client.Contracts.Envelope.{ContractGap}

pub data StopReason : Type 0 where
  terminal state_not_pollable poll_limit timeout aborted : StopReason
  gap : ContractGap → StopReason

pub record RunWaitResult : Type 0 where
  pub reason : StopReason
  pub run : RunStatus
  pub polls : ℕ

pub data Interruption : Type 0 where
  caller_abort deadline_passed : Interruption

abbrev pub interruption_reason : Interruption → StopReason
interruption_reason caller_abort = aborted
interruption_reason deadline_passed = timeout

-- What `observeOrStop(client.getRun(run_id))` settles to.
pub data Observation : Type 0 where
  stopped : Interruption → Observation
  threw : Failure → Observation
  gapped : ContractGap → Observation
  observed : RunStatus → Observation

-- One turn of the loop: the signal at its head and after the pause, and the retrieval.
pub record Turn : Type 0 where
  pub at_head : Option Interruption
  pub after_pause : Option Interruption
  pub retrieval : Observation

unfoldable pub observed_stop_reason : RunState → Option StopReason
observed_stop_reason completed = some terminal
observed_stop_reason failed = some terminal
observed_stop_reason cancelled = some terminal
observed_stop_reason started = none
observed_stop_reason running = none
observed_stop_reason stopping = none
observed_stop_reason _ = some state_not_pollable

abbrev pub stop : {E : Type 0} → StopReason → RunStatus → ℕ → Result E RunWaitResult
stop reason run polls = ok (record { reason = reason; run = run; polls = polls })

-- The checks at the head of a turn; `none` goes on to the pause.
unfoldable pub head_check : Option Interruption → RunStatus → Option StopReason
unfolding observed_stop_reason
head_check (some i) run = some (interruption_reason i)
head_check none run = observed_stop_reason run.status

-- What a turn after its pause does: it stops, it throws, or it goes on with an observed run.
pub data TurnEnd : Type 0 where
  stops : StopReason → (polled : Bool) → TurnEnd
  throws : Failure → TurnEnd
  goes_on : RunStatus → TurnEnd

after_retrieval : Observation → TurnEnd
after_retrieval (stopped i) = stops (interruption_reason i) true
after_retrieval (threw e) = throws e
after_retrieval (gapped g) = stops (gap g) true
after_retrieval (observed run) = goes_on run

unfoldable pub turn_end : Turn → TurnEnd
unfolding after_retrieval
turn_end turn = elim turn.after_pause [
  | some i ↦ stops (interruption_reason i) false
  | none ↦ after_retrieval turn.retrieval
]

abbrev pub counted : Bool → ℕ → ℕ
counted true polls = suc polls
counted false polls = polls

-- `while (true)`, with the polls that are left; turn number `polls` is the next one.
unfoldable pub wait_loop : (left : ℕ) → (ℕ → Turn) → RunStatus → ℕ → Result Failure RunWaitResult
wait_loop zero turns run polls = elim (head_check (turns polls).at_head run) [
  | some reason ↦ stop reason run polls
  | none ↦ stop poll_limit run polls
]
wait_loop (suc left) turns run polls = elim (head_check (turns polls).at_head run) [
  | some reason ↦ stop reason run polls
  | none ↦ elim (turn_end (turns polls)) [
    | stops reason polled ↦ stop reason run (counted polled polls)
    | throws e ↦ err e
    | goes_on next ↦ wait_loop left turns next (suc polls)
  ]
]

pub record RunWaitOptions : Type 0 where
  pub max_polls : Option Number
  pub poll_interval_ms : Option Number
  pub max_wait_ms : Option Number

abbrev pub or_default : Option Number → ℕ → Number
or_default none d = int d
or_default (some n) d = n

-- `2 ** 31 - 1` and `Number.MAX_SAFE_INTEGER`
abbrev pub max_timer_ms : ℕ
max_timer_ms = 2147483647

abbrev pub max_safe_integer : ℕ
max_safe_integer = 9007199254740991

abbrev whole_up_to : Number → ℕ → Bool
whole_up_to n top = is_integer n && not (lt_num n 0) && not (gt_num n (top * scale))

unfoldable pub valid_options : RunWaitOptions → Bool
valid_options o =
    whole_up_to (or_default o.max_polls 60) max_safe_integer
    && whole_up_to (or_default o.poll_interval_ms 1000) max_timer_ms
    && whole_up_to (or_default o.max_wait_ms 60000) max_timer_ms

-- The rejected options throw a validation error; any other error comes from the client.
pub data WaitError : Type 0 where
  invalid_options : WaitError
  client_threw : Failure → WaitError

lift_client : Result Failure RunWaitResult → Result WaitError RunWaitResult
lift_client (ok r) = ok r
lift_client (err e) = err (client_threw e)

-- From the first check of the run on, with the options read as numbers.
start_wait :
    ℕ → ℕ → RunStatus → (aborted_before : Bool) → (ℕ → Turn) → Result WaitError RunWaitResult
unfolding lift_client
start_wait max_polls max_wait run before turns = elim (observed_stop_reason run.status) [
  | some reason ↦ stop reason run 0
  | none ↦
      if before
      then stop aborted run 0
      else if max_polls == 0
      then stop poll_limit run 0
      else if max_wait == 0
      then stop timeout run 0
      else lift_client (wait_loop max_polls turns run 0)
]

unfoldable pub wait_for_run :
    RunStatus
    → RunWaitOptions
    → (aborted_before : Bool) → (ℕ → Turn)
    → Result WaitError RunWaitResult
unfolding start_wait
wait_for_run run o before turns =
    if valid_options o
    then start_wait (whole (or_default o.max_polls 60)) (whole (or_default o.max_wait_ms 60000)) run
        before turns
    else err invalid_options
