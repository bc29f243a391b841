-- ===== src/Transport/JsonRpc/Responses.antt =====
-- What a response does to the request that it answers, and to the others.
use cavi_api_client.Base.{if◌then◌else◌, ℕ, ◌≡◌, true, false, none, some, List, ◌∷◌, Option, arith}
use cavi_api_client.Base.Number.{is_finite}
use cavi_api_client.Transport.JsonRpc.{
  RequestId, Settlement, resolved, rejected, malformed_response, remote_error, Transport, Message,
  valid, take_out, unknown_id, on_message, ErrorField, coded,
}

-- A response on an open transport, answered or not.
abbrev pub IsResponse : {V : Type 0} → Message V → RequestId → Type 0
IsResponse m id = (m.is_rpc ≡ true) × (m.method ≡ none) × (m.id ≡ valid id)

-- The answer that the protocol gives: a result alone, a well-formed error alone, or none.
abbrev pub answer : {V : Type 0} → Option V → Option ErrorField → Settlement V
answer (some v) none = resolved v
answer none (some (coded code)) =
    if is_finite code then rejected (remote_error code) else rejected malformed_response
answer _ _ = rejected malformed_response

-- On an open transport a response with the id of a pending request settles that request and no other, which leaves the
-- pending ones: it resolves with a result that comes alone, rejects with the code of a well-formed
-- error that comes alone, and rejects as malformed for both, neither, or any other error.
pub on_message_answers :
    {V : Type 0} (m : Message V) (id : RequestId) (s : Transport V) (t : ℕ)
    (rest : List (RequestId × ℕ))
    → s.closed ≡ false
    → IsResponse m id
    → take_out id s.pending ≡ some (t, rest)
    → ((on_message m s).pending ≡ rest)
      × ((on_message m s).settled ≡ (t, answer m.result m.error) ∷ s.settled)
      × ((on_message m s).issued ≡ s.issued)
unfolding on_message
on_message_answers m id s t rest h r q = ground arith

-- On an open transport a response with an id that no pending request has is reported and changes nothing else.
pub on_message_unknown :
    {V : Type 0} (m : Message V) (id : RequestId) (s : Transport V)
    → s.closed ≡ false
    → IsResponse m id
    → take_out id s.pending ≡ none
    → on_message m s ≡ record s { reports = unknown_id ∷ s.reports }
unfolding on_message
on_message_unknown m id s h r q = ground arith
