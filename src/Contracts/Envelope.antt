-- ===== src/Contracts/Envelope.antt =====
-- src/core/gateway/envelope/envelope.ts: which failures degrade to fallback data with a gap, and
-- which are thrown again. The wording of a message is kept as a `Note`, the clock is an argument.
pub mod Degrade
mod Tests
use cavi_api_client.Base.{
  ℕ, String, Bool, true, false, not, ◌&&◌, ◌||◌, leb, ◌==◌, drop, Option, none, some, map, List, [],
  ◌∷◌, any, if◌then◌else◌, Result, ok, err,
}
use cavi_api_client.Base.Number.{Number, num, int}
use cavi_api_client.Base.Text.{Text, codes, to_lower, starts_with, includes}
use cavi_api_client.Errors.{
  ErrorClass, gateway_http, type_error, Failure, is_status, is_auth_error, get_error_message,
}

pub data GapReason : Type 0 where
  backend_unavailable backend_not_configured endpoint_not_found auth_insufficient : GapReason
  transport_disconnected capability_unsupported request_invalid request_aborted unknown : GapReason

-- Why a call of the client is not served: what is declared of its capability, or what is missing.
pub data SupportDetail : Type 0 where
  runtime_reports static_declares : (key : String) → Bool → SupportDetail
  undeclared unwired : (key : String) → SupportDetail
  unimplemented : (call : String) → SupportDetail

-- What a gap or a classified message says, with the texts that it quotes.
pub data Note : Type 0 where
  routes_missing backend_status request_status : Note
  rpc_unsupported disconnected no_response backend_down runtime : Text → Note
  failed rejected : String → Note → Note
  quoted : Text → Note
  annotated : String → Note → Note
  unsupported unserved : (call : String) → SupportDetail → (available_on : List String) → Note
  aborted : String → (cancelled_run : Option String) → Note

pub record ContractGap : Type 0 where
  pub area : String
  pub expected_contract : String
  pub note : Note
  pub reason : GapReason
  pub http_status : Option Number

unfoldable pub fallback_gap : String → String → Note → GapReason → Option Number → ContractGap
fallback_gap area expected note reason status = record {
  area = area;
  expected_contract = expected;
  note = note;
  reason = reason;
  http_status = status;
}

-- `normalized.includes(…) || …`, on the text in lower case.
unfoldable pub mentions : List String → Text → Bool
unfolding includes to_lower
mentions words message = any (λ w. includes (codes w) (map to_lower message)) words

unfoldable pub is_backend_failure_message : Text → Bool
unfolding mentions
is_backend_failure_message = mentions (
    "unavailable" ∷ "not available" ∷ "fetch failed" ∷ "failed to fetch" ∷ "network error"
    ∷ "networkerror" ∷ "econn" ∷ "timed out" ∷ "timeout" ∷ "refused" ∷ [])

unfoldable pub is_transport_failure_message : Text → Bool
unfolding mentions
is_transport_failure_message =
    mentions ("not connected" ∷ "gateway client not connected" ∷ "socket" ∷ "websocket" ∷ [])

pub record Classified : Type 0 where
  pub message : Note
  pub reason : GapReason
  pub http_status : Option Number

classify_gateway_http : Number → Classified
classify_gateway_http status =
    if is_status (some status) 404
    then record {
      message = routes_missing;
      reason = endpoint_not_found;
      http_status = some (int 404);
    }
    else if is_status (some status) 502 || is_status (some status) 503
    then record {
      message = backend_status;
      reason = backend_unavailable;
      http_status = some status;
    }
    else record {
      message = request_status;
      reason = backend_unavailable;
      http_status = some status;
    }

-- `\b` after the match: the text ends, or goes on with no letter, digit or underscore.
ends_word : Text → Bool
ends_word [] = true
ends_word (c ∷ s) =
    not (
      leb b'a' c && leb c b'z' || leb b'A' c && leb c b'Z' || leb b'0' c && leb c b'9' || c == b'_')

-- `/unknown method\b/i.test(message)`
unfoldable pub is_unknown_method : Text → Bool
unfolding starts_with to_lower ends_word
is_unknown_method [] = false
is_unknown_method (c ∷ s) =
    starts_with (codes "unknown method") (map to_lower (c ∷ s)) && ends_word (drop 14 (c ∷ s))
    || is_unknown_method s

abbrev is_type_error : ErrorClass → Bool
is_type_error type_error = true
is_type_error _ = false

abbrev statusless : Note → GapReason → Classified
statusless message reason = record { message = message; reason = reason; http_status = none }

classify_message : ErrorClass → Text → Classified
classify_message class message =
    if is_unknown_method message
    then statusless (rpc_unsupported message) backend_unavailable
    else if is_transport_failure_message message
    then statusless (disconnected message) transport_disconnected
    else if is_backend_failure_message message
    then statusless (if is_type_error class then no_response message else backend_down message)
        backend_unavailable
    else statusless (runtime message) unknown

classify_class : ErrorClass → Text → Classified
classify_class (gateway_http status) message = classify_gateway_http status
classify_class class message = classify_message class message

unfoldable pub classify_fallback_error : Failure → Classified
unfolding classify_gateway_http classify_message classify_class
classify_fallback_error e = classify_class e.class (get_error_message e)

pub data DataSource : Type 0 where
  gateway mock : DataSource

-- `DataEnvelope` and `MutationResult`; the time stamp is `fetchedAt` or `appliedAt`.
pub record Envelope (A : Type 0) : Type 0 where
  pub value : A
  pub source : DataSource
  pub at : ℕ
  pub contract_gaps : List ContractGap

abbrev live : {A : Type 0} → ℕ → A → Envelope A
live now a = record { value = a; source = gateway; at = now; contract_gaps = [] }

abbrev mocked : {A : Type 0} → ℕ → A → ContractGap → Envelope A
mocked now a gap = record { value = a; source = mock; at = now; contract_gaps = gap ∷ [] }

abbrev pub is_unknown : GapReason → Bool
is_unknown unknown = true
is_unknown _ = false

gap_of : String → String → String → Classified → ContractGap
unfolding fallback_gap
gap_of area expected note c =
    fallback_gap area expected (annotated note c.message) c.reason c.http_status

-- The result of `run` is an argument. The flag says whether `onResolve` is called, and with what;
-- it is taken to return, since a hook that threw would be a failure of the read.
unfoldable pub with_fallback :
    {A : Type 0}
    → (now : ℕ) → (area expected note : String) → (fallback : A) → Result Failure A
    → Result Failure (Envelope A) × Option DataSource
unfolding gap_of
with_fallback now area expected note fallback (ok a) = (ok (live now a), some gateway)
with_fallback now area expected note fallback (err e) =
    let classified = classify_fallback_error e in
    if is_auth_error e
    then (err e, none)
    else if is_unknown classified.reason
    then (err e, none)
    else (ok (mocked now fallback (gap_of area expected note classified)), some mock)

-- An unclassified failure of a mutation is wrapped: the new error has the old one as its cause.
pub record MutationError : Type 0 where
  pub wrapped : Bool
  pub cause : Failure

unfoldable pub with_mutation_result :
    {A : Type 0}
    → (now : ℕ) → (area expected note : String) → (fallback : Unit {0} → A) → Result Failure A
    → Result MutationError (Envelope A)
unfolding gap_of
with_mutation_result now area expected note fallback (ok a) = ok (live now a)
with_mutation_result now area expected note fallback (err e) =
    let classified = classify_fallback_error e in
    if is_auth_error e
    then err (record { wrapped = false; cause = e })
    else if is_unknown classified.reason
    then err (record { wrapped = true; cause = e })
    else ok (mocked now (fallback tt) (gap_of area expected note classified))
