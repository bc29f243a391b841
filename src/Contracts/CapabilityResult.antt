-- ===== src/Contracts/CapabilityResult.antt =====
-- src/contracts/capability-result.ts: a failed capability call becomes a gap, or is thrown again.
pub mod Carveouts
mod Tests
use cavi_api_client.Base.{
  ℕ, ◌*◌, String, str_eq, Bool, true, false, not, ◌||◌, Option, none, some, if◌then◌else◌, Result,
  ok, err,
}
use cavi_api_client.Base.Number.{Number, scale, lt_num}
use cavi_api_client.Base.Text.{Text}
use cavi_api_client.Errors.{
  ErrorClass, gateway_rpc, call_rejected, Failure, is_text, is_status, is_auth_error,
  get_error_code, get_error_status, is_error,
}
use cavi_api_client.Contracts.Envelope.{
  GapReason, backend_unavailable, endpoint_not_found, request_invalid, Note, failed, rejected,
  quoted, ContractGap, fallback_gap, Classified, classify_fallback_error, is_unknown,
}

-- `none` is an authentication code, which the caller throws again.
unfoldable pub gateway_rpc_code_reason : Option String → Option GapReason
gateway_rpc_code_reason code =
    if is_text code "UNAUTHENTICATED" || is_text code "PERMISSION_DENIED"
    then none
    else if is_text code "INVALID_REQUEST"
        || is_text code "INVALID_ARGUMENT"
        || is_text code "FAILED_PRECONDITION"
    then some request_invalid
    else if is_text code "NOT_FOUND" || is_text code "UNIMPLEMENTED"
    then some endpoint_not_found
    else some backend_unavailable

pub data CapabilityResult {ℓ} (A : Type ℓ) : Type ℓ where
  live : A → CapabilityResult A
  gap : ContractGap → CapabilityResult A

-- `${call} failed: …` and `${call} rejected: …`
abbrev failed_gap : String → String → Note → GapReason → Option Number → ContractGap
failed_gap area call text reason status = fallback_gap area call (failed call text) reason status

abbrev rejected_gap : String → String → Note → Option Number → ContractGap
rejected_gap area call text status =
    fallback_gap area call (rejected call text) request_invalid status

error_message_of : Failure → Text
error_message_of e = if is_error e.class then e.message else e.as_string

classify_rpc : String → String → Failure → Option GapReason → Result Failure ContractGap
classify_rpc area call e none = err e
classify_rpc area call e (some reason) =
    ok (failed_gap area call (quoted (error_message_of e)) reason none)

-- From `classifyFallbackError` on.
classify_rest : String → String → Failure → Result Failure ContractGap
classify_rest area call e =
    let c = classify_fallback_error e in
    if is_unknown c.reason
    then err e
    else ok (failed_gap area call c.message c.reason c.http_status)

-- The codes of an error that carries no deciding status.
classify_code : String → String → Failure → Result Failure ContractGap
classify_code area call e =
    let text = quoted (error_message_of e) in
    let code = get_error_code e in
    if is_text code "validation_failed" || is_text code "invalid_request"
    then ok (rejected_gap area call text none)
    else if is_text code "endpoint_not_found"
    then ok (failed_gap area call text endpoint_not_found none)
    else if is_text code "backend_unavailable"
    then ok (failed_gap area call text backend_unavailable none)
    else classify_rest area call e

-- `status >= k`, for a finite status.
abbrev at_least : Number → ℕ → Bool
at_least status k = not (lt_num status (k * scale))

classify_status : String → String → Failure → Option Number → Result Failure ContractGap
classify_status area call e none = classify_code area call e
classify_status area call e (some status) =
    let text = quoted (error_message_of e) in
    if is_status (some status) 404
    then ok (failed_gap area call text endpoint_not_found (some status))
    else if at_least status 500
    then ok (failed_gap area call text backend_unavailable (some status))
    else if at_least status 400
    then ok (rejected_gap area call text (some status))
    else classify_code area call e

classify_class : String → String → Failure → ErrorClass → Result Failure ContractGap
classify_class area call e gateway_rpc = classify_rpc area call e (gateway_rpc_code_reason e.code)
classify_class area call e (call_rejected status) =
    ok (rejected_gap area call (quoted e.message) status)
classify_class area call e _ = classify_status area call e (get_error_status e)

-- `ok` is the gap, `err` an error that is thrown again. The expected contract is the call.
unfoldable pub classify_capability_failure :
    (area call : String) → Failure → Result Failure ContractGap
unfolding error_message_of classify_rpc classify_rest classify_code classify_status classify_class
classify_capability_failure area call e =
    if is_auth_error e then err e else classify_class area call e e.class
