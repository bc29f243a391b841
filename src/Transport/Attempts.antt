-- ===== src/Transport/Attempts.antt =====
-- src/core/transport/lifecycle.ts and error.ts: `runTransportAttempts`. Each attempt reads the
-- signal, the authentication, the call, the clock, the random source and the sleep of an `Attempt`.
pub mod Retries
mod Tests
use cavi_api_client.Base.{
  ℕ, zero, suc, ◌+◌, ◌*◌, Bool, true, false, not, ◌&&◌, ◌||◌, Option, none, some, List, [], ◌∷◌,
  if◌then◌else◌, Result, ok, err, ltb, leb, is_some, String,
}
use cavi_api_client.Base.Number.{
  Number, num, neg, int, scale, is_finite, is_integer, lt_num, millionths, whole,
}
use cavi_api_client.Base.Text.{codes, is_blank}
use cavi_api_client.Errors.{Failure, is_abort_error}
use cavi_api_client.Transport.Backoff.{
  RetryPolicy, Delay, millis, not_a_number, PolicyError, positive_integer, finite_non_negative,
  validate_retry_policy, compute_backoff_delay,
}

pub data TransportKind : Type 0 where
  http sse websocket json_rpc stdio unix : TransportKind

pub data TransportPhase : Type 0 where
  configure authenticate connect request decode close : TransportPhase

pub data OperationSafety : Type 0 where
  read idempotent connection mutation : OperationSafety

-- An optional property of an untrusted record: left out, a number, a text, or of another type.
pub data Field : Type 0 where
  absent : Field
  number : Number → Field
  text : String → Field
  invalid : Field

-- The record `error.transport` before it is checked; `none` where the type or the name is wrong.
pub record RawTransport : Type 0 where
  pub kind : Option TransportKind
  pub phase : Option TransportPhase
  pub operation : Option String
  pub retryable : Option Bool
  pub attempt : Field
  pub status : Field
  pub code : Field
  pub retry_after_ms : Field

named : Option String → Bool
named none = false
named (some s) = not (is_blank (codes s))

positive_field : Field → Bool
positive_field (number n) = positive_integer n
positive_field _ = false

finite_field : Field → Bool
finite_field absent = true
finite_field (number n) = is_finite n
finite_field _ = false

code_field : Field → Bool
code_field absent = true
code_field (text s) = true
code_field (number n) = is_finite n
code_field invalid = false

delay_field : Field → Bool
delay_field absent = true
delay_field (number n) = finite_non_negative n
delay_field _ = false

-- What the retry loop uses of valid metadata.
pub record Metadata : Type 0 where
  pub may_retry : Bool
  pub retry_after : Option Number

abbrev field_number : Field → Option Number
field_number (number n) = some n
field_number _ = none

abbrev or_false : Option Bool → Bool
or_false none = false
or_false (some b) = b

unfoldable pub transport_error_metadata : Option RawTransport → Option Metadata
unfolding named positive_field finite_field code_field delay_field
transport_error_metadata none = none
transport_error_metadata (some t) =
    if is_some t.kind
      && is_some t.phase
      && named t.operation
      && is_some t.retryable
      && positive_field t.attempt
      && finite_field t.status
      && code_field t.code
      && delay_field t.retry_after_ms
    then some
        (record { may_retry = or_false t.retryable; retry_after = field_number t.retry_after_ms })
    else none

-- What an attempt throws: an abort, the failed authentication, or the error of the call with its
-- property `transport`.
pub data Thrown : Type 0 where
  abort_error : Thrown
  authentication_failed : Thrown
  call_failed : Failure → Option RawTransport → Thrown

abbrev pub is_abort : Thrown → Bool
is_abort abort_error = true
is_abort authentication_failed = false
is_abort (call_failed e t) = is_abort_error e

abbrev pub metadata_of : Thrown → Option Metadata
metadata_of (call_failed e t) = transport_error_metadata t
metadata_of _ = some (record { may_retry = false; retry_after = none })

-- What the world does during an attempt.
pub record Attempt (A : Type 0) : Type 0 where
  pub aborted_at_head : Bool
  pub auth_failure : Option Failure
  pub aborted_after_auth : Bool
  pub call : Result Thrown A
  pub aborted_after_failure : Bool
  pub random : Number
  pub now : ℕ
  pub sleep_failure : Option Failure
  pub aborted_after_sleep : Bool

pub data AttemptsError : Type 0 where
  aborted : AttemptsError
  threw : Thrown → AttemptsError
  backoff_rejected : PolicyError → AttemptsError
  sleep_failed : Failure → AttemptsError
  exhausted : AttemptsError

-- The lifecycle event `retrying`.
pub record Retry : Type 0 where
  pub attempt : ℕ
  pub delay_ms : Delay

-- What the loop does: its outcome, how often `execute` was called, and the retries it announced.
pub record Report (A : Type 0) : Type 0 where
  pub outcome : Result AttemptsError A
  pub calls : ℕ
  pub retries : List Retry

-- The `try` block; the flag tells whether `execute` was called.
try_block : {A : Type 0} → Attempt A → Result Thrown A × Bool
try_block a = elim a.auth_failure [
  | some e ↦
      if is_abort_error e then (err abort_error, false) else (err authentication_failed, false)
  | none ↦ if a.aborted_after_auth then (err abort_error, false) else (a.call, true)
]

pub data Decision : Type 0 where
  give_up : AttemptsError → Decision
  retry_after_delay : Delay → Decision

-- `now - startedAt + delayMs > deadlineMs`, which NaN never fulfils.
unfoldable pub past_deadline : Option Number → (started now : ℕ) → Delay → Bool
past_deadline none started now delay = false
past_deadline (some deadline) started now not_a_number = false
past_deadline (some deadline) started now (millis delay) =
    ltb (started * scale + millionths deadline) ((now + delay) * scale)

abbrev is_mutation : OperationSafety → Bool
is_mutation mutation = true
is_mutation _ = false

timed : RetryPolicy → (started : ℕ) → Thrown → (now : ℕ) → Result PolicyError Delay → Decision
timed p started e now (err x) = give_up (backoff_rejected x)
timed p started e now (ok delay) =
    if past_deadline p.deadline_ms started now delay
    then give_up (threw e)
    else retry_after_delay delay

retryable_error :
    {A : Type 0}
    → RetryPolicy
    → (started attempt : ℕ) → Attempt A
    → Thrown
    → Option Metadata
    → Decision
retryable_error p started attempt a e none = give_up (threw e)
retryable_error p started attempt a e (some m) =
    if not m.may_retry || leb (whole p.max_attempts) attempt
    then give_up (threw e)
    else timed p started e a.now (compute_backoff_delay p (int attempt) a.random m.retry_after)

-- The `catch` block, up to the announcement of a retry.
catch_block :
    {A : Type 0}
    → OperationSafety
    → RetryPolicy
    → (started attempt : ℕ) → Attempt A
    → Thrown
    → Decision
catch_block safety p started attempt a e =
    if a.aborted_after_failure || is_abort e
    then give_up aborted
    else if is_mutation safety
    then give_up (threw e)
    else retryable_error p started attempt a e (metadata_of e)

after_sleep : {A : Type 0} → Attempt A → Option AttemptsError
after_sleep a = elim a.sleep_failure [
  | none ↦ none
  | some e ↦
      if a.aborted_after_sleep || is_abort_error e then some aborted else some (sleep_failed e)
]

abbrev pub counted : Bool → ℕ → ℕ
counted true n = suc n
counted false n = n

abbrev announced : ℕ → Delay → List Retry → List Retry
announced attempt delay retries = record { attempt = attempt; delay_ms = delay } ∷ retries

abbrev pub again : {A : Type 0} → Bool → ℕ → Delay → Report A → Report A
again called attempt delay rest = record {
  outcome = rest.outcome;
  calls = counted called rest.calls;
  retries = announced attempt delay rest.retries;
}

abbrev pub ends : {A : Type 0} → Bool → Result AttemptsError A → Report A
ends called outcome = record { outcome = outcome; calls = counted called 0; retries = [] }

-- One attempt: it ends the loop, or goes on after a delay.
pub data Step (A : Type 0) : Type 0 where
  done : (called : Bool) → Result AttemptsError A → Step A
  slept : (called : Bool) → (delay : Delay) → Option AttemptsError → Step A

decided : {A : Type 0} → Attempt A → Bool → Decision → Step A
unfolding after_sleep
decided a called (give_up x) = done called (err x)
decided a called (retry_after_delay delay) = slept called delay (after_sleep a)

settled :
    {A : Type 0}
    → OperationSafety
    → RetryPolicy
    → (started attempt : ℕ) → Attempt A
    → Result Thrown A × Bool
    → Step A
settled safety p started attempt a (ok v, called) = done called (ok v)
settled safety p started attempt a (err e, called) =
    decided a called (catch_block safety p started attempt a e)

unfoldable pub attempt_step :
    {A : Type 0} → OperationSafety → RetryPolicy → (started attempt : ℕ) → Attempt A → Step A
unfolding try_block past_deadline timed retryable_error catch_block decided settled
attempt_step safety p started attempt a =
    if a.aborted_at_head
    then done false (err aborted)
    else settled safety p started attempt a (try_block a)

-- `for (let attempt = 1; attempt <= maxAttempts; attempt += 1)`, with the attempts that are left.
unfoldable pub attempts_loop :
    {A : Type 0}
    → (left : ℕ) → OperationSafety
    → RetryPolicy
    → (started : ℕ) → (ℕ → Attempt A)
    → (attempt : ℕ) → Report A
attempts_loop zero safety p started world attempt = ends false (err exhausted)
attempts_loop (suc left) safety p started world attempt =
    elim (attempt_step safety p started attempt (world attempt)) [
      | done called outcome ↦ ends called outcome
      | slept called delay stop ↦ elim stop [
        | some x ↦ again called attempt delay (ends false (err x))
        | none ↦
            again called attempt delay (attempts_loop left safety p started world (suc attempt))
      ]
    ]

unfoldable pub run_transport_attempts :
    {A : Type 0}
    → OperationSafety
    → RetryPolicy
    → (started : ℕ) → (ℕ → Attempt A)
    → Result PolicyError (Report A)
run_transport_attempts safety p started world = elim (validate_retry_policy p) [
  | err e ↦ err e
  | ok u ↦ ok (attempts_loop (whole p.max_attempts) safety p started world 1)
]
