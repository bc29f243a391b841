-- ===== src/Transport/Backoff/Bounds.antt =====
-- The delays lie within the policy, and follow the server's request and the attempts.
use cavi_api_client.Base.{
  ℕ, suc, ◌+◌, ◌-◌, ◌*◌, ◌/◌, ◌^◌, ◌≤◌, ◌<◌, min, ◌≡◌, ◌≢◌, ◌⊎◌, inl, inr, refl, Option, none, some,
  ok, arith, Bool-cases, ltb, ap,
}
use cavi_api_client.Base.Number.{Number, int, scale, millionths, whole}
use cavi_api_client.Transport.Backoff.{
  RetryPolicy, Delay, millis, not_a_number, exponential, compute_backoff_delay,
}

-- A computed delay is at most the policy's largest delay, rounded to whole milliseconds, whatever
-- the jitter and the server's request, unless the base delay is zero and the attempt comes after
-- the 1024th: then, and only then, it is NaN.
pub compute_backoff_delay-le_max :
    (p : RetryPolicy) (attempt random : Number) (after : Option Number) (delay : Delay)
    → compute_backoff_delay p attempt random after ≡ ok delay
    → ((d : ℕ) × (delay ≡ millis d)
        × (d ≤ (2 * millionths p.max_delay_ms + scale) / (2 * scale))
        × ((millionths p.base_delay_ms ≢ 0) ⊎ (whole attempt ≤ 1024)))
      ⊎ ((delay ≡ not_a_number) × (millionths p.base_delay_ms ≡ 0) × (1024 < whole attempt))
unfolding compute_backoff_delay exponential
compute_backoff_delay-le_max p attempt random after (millis d) h =
    elim (Bool-cases (ltb 1024 (whole attempt))) [
      | inl late ↦ inl (d, refl, ground arith, inl (λ e. ground arith))
      | inr early ↦ inl (d, refl, ground arith, inr (ground arith))
    ]
compute_backoff_delay-le_max p attempt random after not_a_number h =
    inr (refl, ground arith, ground arith)

-- A wait of `k` milliseconds that the server asks for, and that the policy allows, is kept: the
-- delay is no shorter.
pub compute_backoff_delay_honours :
    (p : RetryPolicy) (attempt random : Number) (k d : ℕ)
    → compute_backoff_delay p attempt random (some (int k)) ≡ ok (millis d)
    → k * scale ≤ millionths p.max_delay_ms
    → k ≤ d
unfolding compute_backoff_delay exponential
compute_backoff_delay_honours p attempt random k d h l = ground arith

doublings : (n : ℕ) → suc n * 1000000 / 1000000 - 1 ≡ n
doublings n = omega arith

-- With no jitter and no request, and up to the 1024th attempt, the delay is the base delay doubled for every attempt after the
-- first, capped by the largest delay and rounded.
pub compute_backoff_delay_exponential :
    (p : RetryPolicy) (n : ℕ) (random : Number) (d : ℕ)
    → n < 1024
    → p.jitter_ratio ≡ none
    → compute_backoff_delay p (int (suc n)) random none ≡ ok (millis d)
    → d
      ≡ (2 * min (millionths p.max_delay_ms) (millionths p.base_delay_ms * 2 ^ n) + scale)
        / (2 * scale)
unfolding compute_backoff_delay exponential
compute_backoff_delay_exponential p n random d few j h =
    ground (arith, ap (λ (k : ℕ). 2 ^ k) (doublings n))
