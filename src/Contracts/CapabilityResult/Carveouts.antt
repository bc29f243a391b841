-- ===== src/Contracts/CapabilityResult/Carveouts.antt =====
-- What is thrown out of a classified call, and what becomes a gap with which reason.
use cavi_api_client.Base.{
  ℕ, ◌*◌, ◌≤◌, ◌<◌, String, ◌≡◌, ◌≢◌, ◌⊎◌, true, false, none, some, Bool, inl, inr, Result-cases,
  Bool-cases, Option, eq_iff, ok, err, arith,
}
use cavi_api_client.Base.Number.{num, scale}
use cavi_api_client.Errors.{
  ErrorClass, gateway_rpc, call_rejected, Failure, is_text, is_auth_error, get_error_status,
}
use cavi_api_client.Contracts.Envelope.{
  backend_unavailable, endpoint_not_found, request_invalid, unknown, ContractGap, fallback_gap,
  classify_fallback_error,
}
use cavi_api_client.Contracts.CapabilityResult.{
  gateway_rpc_code_reason, classify_capability_failure,
}

-- The gateway's codes of an authentication failure.
abbrev pub IsAuthCode : Option String → Type 0
IsAuthCode code = (code ≡ some "UNAUTHENTICATED") ⊎ (code ≡ some "PERMISSION_DENIED")

is_text-eq : (code : Option String) (s : String) → is_text code s ≡ true → code ≡ some s
is_text-eq none s h = ground arith
is_text-eq (some t) s h = ground (arith, eq_iff t s)

gateway_rpc_code_reason-IsAuthCode :
    (code : Option String) → gateway_rpc_code_reason code ≡ none → IsAuthCode code
unfolding gateway_rpc_code_reason
gateway_rpc_code_reason-IsAuthCode code h = elim (Bool-cases (is_text code "UNAUTHENTICATED")) [
  | inl q ↦ inl (is_text-eq code "UNAUTHENTICATED" q)
  | inr n ↦ elim (Bool-cases (is_text code "PERMISSION_DENIED")) [
    | inl q ↦ inr (is_text-eq code "PERMISSION_DENIED" q)
    | inr n' ↦ ground arith
  ]
]

-- A classified call throws only the error that it was given, and only one that is an
-- authentication error, a gateway RPC error with the code UNAUTHENTICATED or PERMISSION_DENIED, or
-- an error whose fallback classification is unknown.
pub classify_capability_failure_rethrows :
    (area call : String) (e thrown : Failure)
    → classify_capability_failure area call e ≡ err thrown
    → (thrown ≡ e)
      × ((is_auth_error e ≡ true)
          ⊎ ((e.class ≡ gateway_rpc) × IsAuthCode e.code)
          ⊎ ((classify_fallback_error e).reason ≡ unknown))
unfolding classify_capability_failure
classify_capability_failure_rethrows area call e thrown h =
    let auth = gateway_rpc_code_reason-IsAuthCode e.code in ground arith

-- An error that is classified by its status: neither a gateway RPC error nor a rejected call.
abbrev pub by_status : ErrorClass → Bool
by_status gateway_rpc = false
by_status (call_rejected s) = false
by_status _ = true

module _ (area call : String) (e : Failure) (k : ℕ) (known : is_auth_error e ≡ false)
    (status_class : by_status e.class ≡ true) (status : get_error_status e ≡ some (num (k * scale)))
    (failing : 400 ≤ k) where
  never_rethrown : (t : Failure) → classify_capability_failure area call e ≢ err t
  unfolding classify_capability_failure
  never_rethrown t p = ground arith

  gap_of_status :
      (g : ContractGap)
      → classify_capability_failure area call e ≡ ok g
      → (g.http_status ≡ some (num (k * scale)))
        × (((k ≡ 404) × (g.reason ≡ endpoint_not_found))
            ⊎ ((500 ≤ k) × (g.reason ≡ backend_unavailable))
            ⊎ ((k ≢ 404) × (k < 500) × (g.reason ≡ request_invalid)))
  unfolding classify_capability_failure fallback_gap
  gap_of_status g p = ground arith

-- A failure with a whole status of 400 or more that is neither an authentication error, nor a
-- gateway RPC error, nor a rejected call becomes a gap that holds the status: 404 is a missing
-- endpoint, 500 and above a backend failure, anything else a bad request.
pub classify_capability_failure_of_status :
    (area call : String) (e : Failure) (k : ℕ)
    → is_auth_error e ≡ false
    → by_status e.class ≡ true
    → get_error_status e ≡ some (num (k * scale))
    → 400 ≤ k
    → (g : ContractGap) × (classify_capability_failure area call e ≡ ok g)
      × (g.http_status ≡ some (num (k * scale)))
      × (((k ≡ 404) × (g.reason ≡ endpoint_not_found))
          ⊎ ((500 ≤ k) × (g.reason ≡ backend_unavailable))
          ⊎ ((k ≢ 404) × (k < 500) × (g.reason ≡ request_invalid)))
classify_capability_failure_of_status area call e k a c s h =
    elim (Result-cases (classify_capability_failure area call e)) [
      | inl (g, p) ↦
          let (status, reason) = gap_of_status area call e k a c s h g p in (g, p, status, reason)
      | inr (t, p) ↦ absurd (never_rethrown area call e k a c s h t p)
    ]
