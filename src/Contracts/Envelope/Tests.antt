-- ===== src/Contracts/Envelope/Tests.antt =====
-- Reads that succeed, degrade and throw.
use cavi_api_client.Base.{ℕ, none, some, ◌≡◌, ◌⊎◌, refl, ok, err, Result}
use cavi_api_client.Base.Number.{int}
use cavi_api_client.Base.Text.{Text, codes}
use cavi_api_client.Errors.{ErrorClass, error, gateway_http, Failure, get_error_message}
use cavi_api_client.Contracts.Envelope.{
  backend_unavailable, transport_disconnected, unknown, classify_fallback_error, Envelope,
  with_fallback, MutationError, with_mutation_result, is_unknown_method,
  is_transport_failure_message, is_backend_failure_message,
}
use cavi_api_client.Contracts.Envelope.Degrade.{with_mutation_result_agrees}

abbrev thrown : ErrorClass → Text → Failure
thrown class message = record {
  class = class;
  name = some "Error";
  type = none;
  code = none;
  status = none;
  message = message;
  rendered = codes "{}";
  as_string = message;
}

reasons :
    ((classify_fallback_error (thrown error (codes "Unknown method: x"))).reason
      ≡ backend_unavailable)
    × ((classify_fallback_error (thrown error (codes "WebSocket closed"))).reason
        ≡ transport_disconnected)
    × ((classify_fallback_error (thrown error (codes "unknown methods"))).reason ≡ unknown)
    × ((classify_fallback_error (thrown (gateway_http (int 503)) (codes "x"))).reason
        ≡ backend_unavailable)
unfolding classify_fallback_error is_unknown_method is_transport_failure_message
    is_backend_failure_message get_error_message
reasons = (refl, refl, refl, refl)

abbrev slow : Failure
slow = thrown error (codes "Request timed out")

with_mutation_result_agrees_example :
    let r : Result Failure ℕ = err slow in
    ((env : Envelope ℕ) × ((with_fallback {A = ℕ} 5 "area" "GET /x" "note" 0 r).0 ≡ ok env)
      × (with_mutation_result 5 "area" "GET /x" "note" (λ _. 0) r ≡ ok env))
    ⊎ ((e : Failure) × ((with_fallback {A = ℕ} 5 "area" "GET /x" "note" 0 r).0 ≡ err e)
        × (w : MutationError) × (with_mutation_result 5 "area" "GET /x" "note" (λ _. 0) r ≡ err w)
        × (w.cause ≡ e))
with_mutation_result_agrees_example =
    with_mutation_result_agrees 5 "area" "GET /x" "note" 0 (err slow)
