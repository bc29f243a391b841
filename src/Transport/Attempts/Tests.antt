-- ===== src/Transport/Attempts/Tests.antt =====
-- A call that fails twice and then succeeds.
use cavi_api_client.Base.{ℕ, suc, none, some, ◌≡◌, refl, false, true, ok, err, [], ◌∷◌}
use cavi_api_client.Base.Number.{num, int}
use cavi_api_client.Base.Text.{codes}
use cavi_api_client.Errors.{error, Failure, is_abort_error}
use cavi_api_client.Transport.Backoff.{
  RetryPolicy, millis, exponential, validate_retry_policy, compute_backoff_delay,
}
use cavi_api_client.Transport.Attempts.{
  read, http, request, mutation, RawTransport, absent, number, transport_error_metadata,
  call_failed, Attempt, Report, threw, run_transport_attempts, attempts_loop, attempt_step,
}
use cavi_api_client.Transport.Attempts.Retries.{Sound, run_transport_attempts-Sound}

abbrev policy : RetryPolicy
policy = record {
  max_attempts = int 3;
  base_delay_ms = int 100;
  max_delay_ms = int 1000;
  jitter_ratio = none;
  deadline_ms = some (int 5000);
}

abbrev unavailable : Failure
unavailable = record {
  class = error;
  name = some "TransportError";
  type = some "transport";
  code = some "transport_unavailable";
  status = none;
  message = codes "503";
  rendered = codes "{}";
  as_string = codes "503";
}

abbrev metadata : RawTransport
metadata = record {
  kind = some http;
  phase = some request;
  operation = some "GET /runs";
  retryable = some true;
  attempt = number (int 1);
  status = number (int 503);
  code = absent;
  retry_after_ms = number (int 250);
}

abbrev quiet : Attempt ℕ
quiet = record {
  aborted_at_head = false;
  auth_failure = none;
  aborted_after_auth = false;
  call = ok 7;
  aborted_after_failure = false;
  random = num 0;
  now = 0;
  sleep_failure = none;
  aborted_after_sleep = false;
}

abbrev world : ℕ → Attempt ℕ
world (suc (suc (suc n))) = quiet
world _ = record quiet { call = err (call_failed unavailable (some metadata)) }

abbrev three_calls : Report ℕ
three_calls = record {
  outcome = ok 7;
  calls = 3;
  retries =
      record { attempt = 1; delay_ms = millis 250 }
      ∷ record { attempt = 2; delay_ms = millis 250 }
      ∷ [];
}

third_time : run_transport_attempts read policy 0 world ≡ ok three_calls
unfolding run_transport_attempts attempts_loop attempt_step transport_error_metadata is_abort_error
    validate_retry_policy compute_backoff_delay exponential
third_time = refl

mutations_fail_at_once :
    run_transport_attempts mutation policy 0 world
    ≡ ok (record {
      outcome = err (threw (call_failed unavailable (some metadata)));
      calls = 1;
      retries = [];
    })
unfolding run_transport_attempts attempts_loop attempt_step transport_error_metadata is_abort_error
    validate_retry_policy compute_backoff_delay exponential
mutations_fail_at_once = refl

run_transport_attempts-Sound_example : Sound read policy 0 3 1 world three_calls
run_transport_attempts-Sound_example =
    run_transport_attempts-Sound read policy 0 world three_calls third_time
