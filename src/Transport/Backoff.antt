-- ===== src/Transport/Backoff.antt =====
-- src/core/transport/backoff.ts: the retry policy and the delay before a retry. Jitter is computed
-- exactly, in fractions of a millionth, and rounded once at the end, as `Math.round` does.
pub mod Bounds
mod Tests
use cavi_api_client.Base.{
  ℕ, zero, suc, ◌+◌, ◌-◌, ◌*◌, ◌/◌, ◌^◌, min, max, Bool, true, false, not, ◌&&◌, ◌||◌, Option, none,
  some, if◌then◌else◌, Result, ok, err, ◌>>=◌, ◌>>◌, guard, ltb, ◌==◌,
}
use cavi_api_client.Base.Number.{
  Number, num, neg, infinity, minus_infinity, nan, int, scale, is_finite, is_integer, lt_num,
  gt_num, millionths, whole,
}

pub record RetryPolicy : Type 0 where
  pub max_attempts : Number
  pub base_delay_ms : Number
  pub max_delay_ms : Number
  pub jitter_ratio : Option Number
  pub deadline_ms : Option Number

-- The messages of the validation errors, which all have the code `validation_failed`.
pub data PolicyError : Type 0 where
  max_attempts_not_positive base_delay_negative max_delay_negative max_below_base : PolicyError
  jitter_out_of_range deadline_negative attempt_not_positive random_out_of_range : PolicyError

abbrev pub finite_non_negative : Number → Bool
finite_non_negative n = is_finite n && not (lt_num n 0)

abbrev pub unit_interval : Number → Bool
unit_interval n = is_finite n && not (lt_num n 0) && not (gt_num n scale)

abbrev pub positive_integer : Number → Bool
positive_integer n = is_integer n && not (lt_num n scale)

abbrev pub jitter_of : Option Number → Number
jitter_of none = num 0
jitter_of (some n) = n

check_deadline : Option Number → Result PolicyError (Unit {0})
check_deadline none = ok tt
check_deadline (some n) = guard (finite_non_negative n) deadline_negative

unfoldable pub validate_retry_policy : RetryPolicy → Result PolicyError (Unit {0})
unfolding check_deadline
validate_retry_policy p = do
  guard (positive_integer p.max_attempts) max_attempts_not_positive
  guard (finite_non_negative p.base_delay_ms) base_delay_negative
  guard (finite_non_negative p.max_delay_ms) max_delay_negative
  guard (not (ltb (millionths p.max_delay_ms) (millionths p.base_delay_ms))) max_below_base
  guard (unit_interval (jitter_of p.jitter_ratio)) jitter_out_of_range
  check_deadline p.deadline_ms

-- A computed delay: whole milliseconds, or NaN.
pub data Delay : Type 0 where
  millis : ℕ → Delay
  not_a_number : Delay

-- `Math.min(maxDelayMs, baseDelayMs * 2 ** (attempt - 1))`, in millionths; `none` is NaN. From
-- attempt 1025 on the power is infinite: 0 times it is NaN, and anything else infinite. A smaller
-- power times the base is exact, or infinite and then beyond the finite largest delay.
unfoldable pub exponential : ℕ → ℕ → ℕ → Option ℕ
exponential cap base attempt =
    if ltb 1024 attempt
    then if base == 0 then none else some cap
    else some (min cap (base * 2 ^ (attempt - 1)))

-- `exponential * (1 + (random * 2 - 1) * jitterRatio)`, in 10 ^ -18: with a jitter of at most one
-- the factor is not negative.
abbrev jittered : ℕ → ℕ → ℕ → ℕ
jittered delay random jitter = delay * (scale * scale + 2 * random * jitter - scale * jitter)

abbrev tiny : ℕ
tiny = scale * scale

-- `Math.max(0, retryAfterMs)` where it is finite; `none` leaves the jittered delay.
abbrev requested_by : Option Number → Option ℕ
requested_by (some (num n)) = some n
requested_by (some (neg n)) = some 0
requested_by _ = none

at_least_requested : ℕ → Option ℕ → ℕ
at_least_requested delay none = delay
at_least_requested delay (some n) = max delay (n * tiny)

-- `Math.round`, from 10 ^ -18 to whole numbers.
abbrev round : ℕ → ℕ
round n = (2 * n + scale * tiny) / (2 * (scale * tiny))

-- From the jitter on. NaN passes through `Math.max`, `Math.min` and `Math.round`.
spread_delay : RetryPolicy → (random : ℕ) → (requested : Option ℕ) → Option ℕ → Delay
unfolding at_least_requested
spread_delay p random requested none = not_a_number
spread_delay p random requested (some delay) =
    let cap = millionths p.max_delay_ms in
    let spread = jittered delay random (millionths (jitter_of p.jitter_ratio)) in
    millis (round (min (cap * tiny) (at_least_requested spread requested)))

delay_ms : RetryPolicy → ℕ → ℕ → Option ℕ → Delay
unfolding spread_delay exponential
delay_ms p attempt random requested =
    let delay = exponential (millionths p.max_delay_ms) (millionths p.base_delay_ms) attempt in
    spread_delay p random requested delay

unfoldable pub compute_backoff_delay :
    RetryPolicy
    → (attempt random : Number) → (retry_after_ms : Option Number) → Result PolicyError Delay
unfolding delay_ms
compute_backoff_delay p attempt random retry_after = do
  validate_retry_policy p
  guard (positive_integer attempt) attempt_not_positive
  guard (unit_interval random) random_out_of_range
  ok (delay_ms p (whole attempt) (millionths random) (requested_by retry_after))
