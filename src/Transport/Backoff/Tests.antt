-- ===== src/Transport/Backoff/Tests.antt =====
-- Delays of one policy, and rejected policies.
use cavi_api_client.Base.{ℕ, ◌+◌, ◌*◌, ◌/◌, ◌≤◌, ◌<◌, ◌≢◌, ◌⊎◌, none, some, ◌≡◌, refl, ok, err}
use cavi_api_client.Base.Number.{num, int, neg, nan, infinity, scale, millionths, whole}
use cavi_api_client.Transport.Backoff.{
  RetryPolicy, millis, not_a_number, exponential, validate_retry_policy, compute_backoff_delay,
  max_attempts_not_positive, jitter_out_of_range, random_out_of_range,
}
use cavi_api_client.Transport.Backoff.Bounds.{compute_backoff_delay-le_max}

abbrev policy : RetryPolicy
policy = record {
  max_attempts = int 4;
  base_delay_ms = int 100;
  max_delay_ms = int 1000;
  jitter_ratio = some (num 500000);
  deadline_ms = none;
}

abbrev steady : RetryPolicy
steady = record policy { jitter_ratio = none }

delays :
    (compute_backoff_delay policy (int 1) (num 0) none ≡ ok (millis 50))
    × (compute_backoff_delay policy (int 2) (int 1) none ≡ ok (millis 300))
    × (compute_backoff_delay policy (int 1) (num 0) (some (int 700)) ≡ ok (millis 700))
    × (compute_backoff_delay policy (int 1) (num 0) (some (int 7000)) ≡ ok (millis 1000))
    × (compute_backoff_delay policy (int 1) (num 500000) (some nan) ≡ ok (millis 100))
    × (compute_backoff_delay steady (int 3) (num 0) none ≡ ok (millis 400))
unfolding compute_backoff_delay validate_retry_policy exponential
delays = (refl, refl, refl, refl, refl, refl)

rejections :
    (validate_retry_policy (record policy { max_attempts = num 1500000 })
      ≡ err max_attempts_not_positive)
    × (validate_retry_policy (record policy { jitter_ratio = some (neg 0) })
        ≡ err jitter_out_of_range)
    × (compute_backoff_delay policy (int 1) infinity none ≡ err random_out_of_range)
unfolding validate_retry_policy compute_backoff_delay
rejections = (refl, refl, refl)

-- With no base delay the attempts have no delay, until it is NaN.
no_base-test :
    (compute_backoff_delay (record policy { base_delay_ms = int 0 }) (int 1024) (num 0) none
      ≡ ok (millis 0))
    × (compute_backoff_delay (record policy { base_delay_ms = int 0 }) (int 1025) (num 0) none
        ≡ ok not_a_number)
unfolding compute_backoff_delay validate_retry_policy exponential
no_base-test = (refl, refl)

compute_backoff_delay-le_max_example :
    ((d : ℕ) × (millis 1000 ≡ millis d)
      × (d ≤ (2 * millionths (int 1000) + scale) / (2 * scale))
      × ((millionths (int 100) ≢ 0) ⊎ (whole (int 1) ≤ 1024)))
    ⊎ ((millis 1000 ≡ not_a_number) × (millionths (int 100) ≡ 0) × (1024 < whole (int 1)))
compute_backoff_delay-le_max_example =
    compute_backoff_delay-le_max policy (int 1) (num 0) (some (int 7000)) (millis 1000) delays.3
