-- ===== src/Transport/Attempts/Retries.antt =====
-- How often a call is made, which delays are announced, and how the loop ends.
use cavi_api_client.Base.{
  ℕ, zero, suc, ◌+◌, ◌*◌, ◌/◌, ◌≤◌, ◌<◌, ◌≡◌, ◌≢◌, ◌⊎◌, Option, none, some, [], Result, ok, err,
  arith, true, false, All, Bool, refl, inl, inr, Result-cases, Bool-cases,
}
use cavi_api_client.Base.Number.{Number, int, scale, millionths, whole}
use cavi_api_client.Transport.Backoff.{
  RetryPolicy, Delay, millis, not_a_number, compute_backoff_delay, validate_retry_policy,
}
use cavi_api_client.Transport.Backoff.Bounds.{compute_backoff_delay-le_max}
use cavi_api_client.Transport.Attempts.{
  OperationSafety, mutation, Attempt, Step, done, slept, Retry, Report, AttemptsError, exhausted,
  attempt_step, attempts_loop, past_deadline, Thrown, Metadata, Decision, give_up, again, ends,
  timed, retry_after_delay, retryable_error, catch_block, try_block, settled, decided, after_sleep,
  run_transport_attempts, metadata_of,
}

abbrev pub rounded_max : RetryPolicy → ℕ
rounded_max p = (2 * millionths p.max_delay_ms + scale) / (2 * scale)

-- The deadline of the policy, if it has one, is not passed at the end of the delay.
abbrev pub InTime : Option Number → (started now delay : ℕ) → Type 0
InTime none started now delay = Unit {0}
InTime (some deadline) started now delay =
    (now + delay) * scale ≤ started * scale + millionths deadline

-- A delay is within the policy's largest one and its deadline; it is NaN only for an attempt after
-- the 1024th of a policy without a base delay.
abbrev pub Waits : RetryPolicy → (started attempt now : ℕ) → Delay → Type 0
Waits p started attempt now (millis d) = (d ≤ rounded_max p) × InTime p.deadline_ms started now d
Waits p started attempt now not_a_number = (millionths p.base_delay_ms ≡ 0) × (1024 < attempt)

in_time :
    (deadline : Option Number) (started now delay : ℕ)
    → past_deadline deadline started now (millis delay) ≡ false
    → InTime deadline started now delay
unfolding past_deadline
in_time none started now delay h = tt
in_time (some deadline) started now delay h = ground arith

whole-int : (n : ℕ) → n * 1000000 / 1000000 ≡ n
whole-int n = omega arith

computed-Waits :
    (p : RetryPolicy) (started attempt now : ℕ) (random : Number) (after : Option Number)
    (delay : Delay)
    → compute_backoff_delay p (int attempt) random after ≡ ok delay
    → past_deadline p.deadline_ms started now delay ≡ false
    → Waits p started attempt now delay
computed-Waits p started attempt now random after delay h late =
    elim (compute_backoff_delay-le_max p (int attempt) random after delay h) [
      | inl (d, e, bound, other) ↦
          let late' : past_deadline p.deadline_ms started now (millis d) ≡ false = rw (← e) late in
          rw e (bound, in_time p.deadline_ms started now d late')
      | inr (e, base, many) ↦ let same = whole-int attempt in rw e (base, omega arith)
    ]

module _ {A : Type 0} (safety : OperationSafety) (p : RetryPolicy) (started : ℕ) where
  -- What holds when an attempt is followed by another one.
  abbrev pub MayRetry : ℕ → Attempt A → Delay → Type 0
  MayRetry attempt a delay =
      (attempt < whole p.max_attempts) × (safety ≢ mutation) × Waits p started attempt a.now delay

  timed-retries :
      (attempt : ℕ) (a : Attempt A) (e : Thrown) (m : Metadata) (d : Delay)
      → timed p started e a.now (compute_backoff_delay p (int attempt) a.random m.retry_after)
        ≡ retry_after_delay d
      → Waits p started attempt a.now d
  unfolding timed
  timed-retries attempt a e m d h =
      elim (Result-cases (compute_backoff_delay p (int attempt) a.random m.retry_after)) [
        | inl (b, q) ↦
            let r : past_deadline p.deadline_ms started a.now b ≡ false = ground arith in
            let same : b ≡ d = ground arith in
            rw (← same) (computed-Waits p started attempt a.now a.random m.retry_after b q r)
        | inr (x, q) ↦ absurd (ground arith)
      ]

  retryable_error-retries :
      (attempt : ℕ) (a : Attempt A) (e : Thrown) (m : Option Metadata) (d : Delay)
      → retryable_error p started attempt a e m ≡ retry_after_delay d
      → (attempt < whole p.max_attempts) × Waits p started attempt a.now d
  unfolding retryable_error
  retryable_error-retries attempt a e none d h = absurd (ground arith)
  retryable_error-retries attempt a e (some m) d h =
      let q : timed p started e a.now (compute_backoff_delay p (int attempt) a.random m.retry_after)
          ≡ retry_after_delay d =
        ground arith in
      (ground arith, timed-retries attempt a e m d q)

  catch_block-retries :
      (attempt : ℕ) (a : Attempt A) (e : Thrown) (d : Delay)
      → catch_block safety p started attempt a e ≡ retry_after_delay d
      → MayRetry attempt a d
  unfolding catch_block
  catch_block-retries attempt a e d h =
      let q : retryable_error p started attempt a e (metadata_of e) ≡ retry_after_delay d =
        ground arith in
      let (early, waits) = retryable_error-retries attempt a e (metadata_of e) d q in
      (early, ground arith, waits)

  decided-slept :
      (a : Attempt A) (was called : Bool) (choice : Decision) (delay : Delay)
      (stop : Option AttemptsError)
      → decided a was choice ≡ slept called delay stop
      → choice ≡ retry_after_delay delay
  unfolding decided
  decided-slept a was called (give_up x) delay stop h = cc
  decided-slept a was called (retry_after_delay d) delay stop h = ground arith

  settled-slept :
      (attempt : ℕ) (a : Attempt A) (r : Result Thrown A × Bool) (called : Bool) (delay : Delay)
      (stop : Option AttemptsError)
      → settled safety p started attempt a r ≡ slept called delay stop
      → MayRetry attempt a delay
  unfolding settled
  settled-slept attempt a (ok v, was) called delay stop h = cc
  settled-slept attempt a (err e, was) called delay stop h =
      catch_block-retries attempt a e delay
        (decided-slept a was called (catch_block safety p started attempt a e) delay stop h)

  step-slept :
      (attempt : ℕ) (a : Attempt A) (called : Bool) (delay : Delay) (stop : Option AttemptsError)
      → attempt_step safety p started attempt a ≡ slept called delay stop
      → MayRetry attempt a delay
  unfolding attempt_step
  step-slept attempt a called delay stop h = elim (Bool-cases a.aborted_at_head) [
    | inl q ↦ absurd (ground arith)
    | inr q ↦ settled-slept attempt a (try_block a) called delay stop (rw q at h)
  ]

  step-counts :
      (attempt : ℕ) (a : Attempt A) (outcome : Result AttemptsError A) (called : Bool)
      → attempt_step safety p started attempt a ≡ done called outcome
      → outcome ≢ err exhausted
  unfolding attempt_step
  step-counts attempt a outcome called h q = ground arith

  -- What holds of a report of the attempts from a given one on.
  pub record Sound (left attempt : ℕ) (world : ℕ → Attempt A) (r : Report A) : Type 0 where
    pub calls_within : r.calls ≤ left
    pub retried :
        All
          (λ (t : Retry).
            (t.attempt < whole p.max_attempts)
            × Waits p started t.attempt (world t.attempt).now t.delay_ms)
          r.retries
    pub never_exhausted : r.outcome ≢ err exhausted
    pub mutation_once : safety ≡ mutation → (r.calls ≤ 1) × (r.retries ≡ [])

  Step-cases :
      (s : Step A)
      → ((called : Bool) × (outcome : Result AttemptsError A) × (s ≡ done called outcome))
        ⊎ ((called : Bool) × (delay : Delay) × (stop : Option AttemptsError) × (s
              ≡ slept called delay stop))
  Step-cases (done c o) = inl (c, o, refl)
  Step-cases (slept c d s) = inr (c, d, s, refl)

  again-Sound :
      (left attempt : ℕ) (world : ℕ → Attempt A) (called : Bool) (delay : Delay) (rest : Report A)
      → MayRetry attempt (world attempt) delay
      → Sound left (suc attempt) world rest
      → Sound (suc left) attempt world (again called attempt delay rest)
  again-Sound left attempt world true delay rest m r = record {
    calls_within = omega (arith, r.calls_within);
    retried = ((m.0, m.2), r.retried);
    never_exhausted = r.never_exhausted;
    mutation_once = λ q. absurd (m.1 q);
  }
  again-Sound left attempt world false delay rest m r = record {
    calls_within = omega (arith, r.calls_within);
    retried = ((m.0, m.2), r.retried);
    never_exhausted = r.never_exhausted;
    mutation_once = λ q. absurd (m.1 q);
  }

  ends-Sound :
      (left attempt : ℕ) (world : ℕ → Attempt A) (called : Bool) (outcome : Result AttemptsError A)
      → outcome ≢ err exhausted
      → Sound (suc left) attempt world (ends called outcome)
  ends-Sound left attempt world true outcome h = record {
    calls_within = omega arith;
    retried = tt;
    never_exhausted = h;
    mutation_once = λ q. (omega arith, refl);
  }
  ends-Sound left attempt world false outcome h = record {
    calls_within = omega arith;
    retried = tt;
    never_exhausted = h;
    mutation_once = λ q. (omega arith, refl);
  }

  -- A sleep that fails does not exhaust the attempts.
  step-stop :
      (attempt : ℕ) (a : Attempt A) (called : Bool) (delay : Delay) (x : AttemptsError)
      → attempt_step safety p started attempt a ≡ slept called delay (some x)
      → x ≢ exhausted
  unfolding attempt_step after_sleep
  step-stop attempt a called delay x h q = ground arith

  stopped-Sound :
      (left attempt : ℕ) (world : ℕ → Attempt A) (x : AttemptsError)
      → x ≢ exhausted
      → Sound left attempt world (ends false (err x))
  stopped-Sound left attempt world x h = record {
    calls_within = omega arith;
    retried = tt;
    never_exhausted = λ q. h (cc);
    mutation_once = λ q. (omega arith, refl);
  }

  loop_of :
      (left attempt : ℕ) (world : ℕ → Attempt A) (rest : Report A) (s : Step A)
      → ((called : Bool) (outcome : Result AttemptsError A)
          → s ≡ done called outcome
          → outcome ≢ err exhausted)
      → ((called : Bool) (delay : Delay) (stop : Option AttemptsError)
          → s ≡ slept called delay stop
          → MayRetry attempt (world attempt) delay)
      → ((called : Bool) (delay : Delay) (x : AttemptsError)
          → s ≡ slept called delay (some x)
          → x ≢ exhausted)
      → (attempt < whole p.max_attempts → Sound left (suc attempt) world rest)
      → Sound (suc left) attempt world (elim s [
        | done called outcome ↦ ends called outcome
        | slept called delay stop ↦ elim stop [
          | some x ↦ again called attempt delay (ends false (err x))
          | none ↦ again called attempt delay rest
        ]
      ])
  loop_of left attempt world rest (done c o) f g k r =
      ends-Sound left attempt world c o (f c o refl)
  loop_of left attempt world rest (slept c d none) f g k r =
      let m = g c d none refl in again-Sound left attempt world c d rest m (r m.0)
  loop_of left attempt world rest (slept c d (some x)) f g k r =
      again-Sound left attempt world c d _ (g c d (some x) refl)
        (stopped-Sound left (suc attempt) world x (k c d x refl))

  attempts_loop-Sound :
      (left attempt : ℕ) (world : ℕ → Attempt A)
      → attempt + left ≡ whole p.max_attempts
      → Sound (suc left) attempt world (attempts_loop (suc left) safety p started world attempt)
  unfolding attempts_loop
  attempts_loop-Sound zero attempt world h =
      loop_of 0 attempt world (ends false (err exhausted))
        (attempt_step safety p started attempt (world attempt))
        (λ c o q. step-counts attempt (world attempt) o c q)
        (λ c d s q. step-slept attempt (world attempt) c d s q)
        (λ c d x q. step-stop attempt (world attempt) c d x q) (λ early. absurd (omega arith))
  attempts_loop-Sound (suc left) attempt world h =
      let rest = attempts_loop-Sound left (suc attempt) world (omega arith) in
      loop_of (suc left) attempt world
        (attempts_loop (suc left) safety p started world (suc attempt))
        (attempt_step safety p started attempt (world attempt))
        (λ c o q. step-counts attempt (world attempt) o c q)
        (λ c d s q. step-slept attempt (world attempt) c d s q)
        (λ c d x q. step-stop attempt (world attempt) c d x q) (λ early. rest)

  loop_total :
      (n : ℕ) (world : ℕ → Attempt A)
      → n ≡ whole p.max_attempts
      → 0 < n
      → Sound n 1 world (attempts_loop n safety p started world 1)
  loop_total zero world e h = absurd (omega arith)
  loop_total (suc left) world e h = attempts_loop-Sound left 1 world (omega arith)

pub positive_attempts :
    (p : RetryPolicy) (u : Unit {0}) → validate_retry_policy p ≡ ok u → 0 < whole p.max_attempts
unfolding validate_retry_policy
positive_attempts p u h = ground arith

-- Under every valid policy, and whatever the world does: the call is made at most as often as the
-- policy has attempts, and every announced retry is before the last attempt; it waits no longer
-- than the policy's largest delay and ends before its deadline, or its delay is NaN, which needs a
-- base delay of zero and an attempt after the 1024th; a mutation is called once at most and never
-- retried; and the loop never runs out of attempts without an outcome of its own.
pub run_transport_attempts-Sound :
    {A : Type 0} (safety : OperationSafety) (p : RetryPolicy) (started : ℕ) (world : ℕ → Attempt A)
    (r : Report A)
    → run_transport_attempts safety p started world ≡ ok r
    → Sound safety p started (whole p.max_attempts) 1 world r
unfolding run_transport_attempts
run_transport_attempts-Sound safety p started world r h =
    elim (Result-cases (validate_retry_policy p)) [
      | inr (e, q) ↦ absurd (ground arith)
      | inl (u, q) ↦
          let same : attempts_loop (whole p.max_attempts) safety p started world 1 ≡ r =
            ground arith in
          rw (← same) (
            loop_total safety p started (whole p.max_attempts) world refl (positive_attempts p u q))
    ]
