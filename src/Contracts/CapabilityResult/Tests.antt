-- ===== src/Contracts/CapabilityResult/Tests.antt =====
-- Failed calls that become gaps, and one that is thrown.
use cavi_api_client.Base.{
  ℕ, String, Option, ◌*◌, ◌≤◌, ◌<◌, none, some, ◌≡◌, ◌≢◌, ◌⊎◌, refl, true, false, ok, err, arith,
}
use cavi_api_client.Base.Number.{Number, num, int, scale}
use cavi_api_client.Base.Text.{codes}
use cavi_api_client.Errors.{
  ErrorClass, error, gateway_rpc, Failure, is_auth_error, get_error_status,
}
use cavi_api_client.Contracts.Envelope.{
  backend_unavailable, endpoint_not_found, request_invalid, unknown, ContractGap,
  classify_fallback_error,
}
use cavi_api_client.Contracts.CapabilityResult.{
  gateway_rpc_code_reason, classify_capability_failure,
}
use cavi_api_client.Contracts.CapabilityResult.Carveouts.{
  IsAuthCode, classify_capability_failure_rethrows, classify_capability_failure_of_status,
}

abbrev thrown : ErrorClass → Option String → Option Number → Failure
thrown class code status = record {
  class = class;
  name = some "Error";
  type = none;
  code = code;
  status = status;
  message = codes "no";
  rendered = codes "{}";
  as_string = codes "Error: no";
}

abbrev denied : Failure
denied = thrown gateway_rpc (some "PERMISSION_DENIED") none

denied_is_thrown : classify_capability_failure "area" "call" denied ≡ err denied
unfolding classify_capability_failure gateway_rpc_code_reason is_auth_error
denied_is_thrown = refl

classify_capability_failure_rethrows_example :
    (denied ≡ denied)
    × ((is_auth_error denied ≡ true)
        ⊎ (denied.class ≡ gateway_rpc) × IsAuthCode denied.code
        ⊎ ((classify_fallback_error denied).reason ≡ unknown))
classify_capability_failure_rethrows_example =
    classify_capability_failure_rethrows "area" "call" denied denied denied_is_thrown

abbrev limited : Failure
limited = thrown error none (some (int 429))

limited_known :
    (is_auth_error limited ≡ false) × (get_error_status limited ≡ some (num (429 * scale)))
unfolding is_auth_error get_error_status
limited_known = (refl, refl)

classify_capability_failure_of_status_example :
    (g : ContractGap) × (classify_capability_failure "area" "call" limited ≡ ok g)
    × (g.http_status ≡ some (num (429 * scale)))
    × ((◌≡◌ {A = ℕ} 429 404) × (g.reason ≡ endpoint_not_found)
        ⊎ (500 ≤ 429) × (g.reason ≡ backend_unavailable)
        ⊎ (◌≢◌ {A = ℕ} 429 404) × (429 < 500) × (g.reason ≡ request_invalid))
classify_capability_failure_of_status_example =
    classify_capability_failure_of_status "area" "call" limited 429 limited_known.0 refl
      limited_known.1 (omega arith)
