-- ===== src/Transport/JsonRpc.antt =====
-- src/core/transport/json-rpc.ts: requests over a message channel. A request is known by its
-- ticket, the number of requests before it; the handlers that the transport gives to the channel,
-- to a signal and to the promise of `send` are the events of a step function.
pub mod Accounts
pub mod Responses
mod Tests
use cavi_api_client.Base.{
  ℕ, zero, suc, ◌+◌, String, str_eq, Bool, true, false, not, ◌&&◌, ◌||◌, Option, none, some, List,
  [], ◌∷◌, ◌++◌, map, if◌then◌else◌, Result, ok, err, ◌==◌, is_some,
}
use cavi_api_client.Base.Number.{Number, is_finite}

-- `JsonRpcId`; a number is a whole one here, `negative n` is -(n + 1).
pub data RequestId : Type 0 where
  named : String → RequestId
  number : ℕ → RequestId
  negative : ℕ → RequestId

unfoldable pub same_id : RequestId → RequestId → Bool
same_id (named s) (named t) = str_eq s t
same_id (number m) (number n) = m == n
same_id (negative m) (negative n) = m == n
same_id _ _ = false

-- The property `id` of a message: left out, an id, or anything else.
pub data IdField : Type 0 where
  absent : IdField
  valid : RequestId → IdField
  invalid : IdField

-- The property `error`: a record whose code is a number and whose message a text, or anything else.
pub data ErrorField : Type 0 where
  coded : (code : Number) → ErrorField
  malformed : ErrorField

-- A message that the channel delivers. `is_rpc` says that it is a record of version "2.0".
pub record Message (V : Type 0) : Type 0 where
  pub is_rpc : Bool
  pub method : Option String
  pub params : V
  pub id : IdField
  pub result : Option V
  pub error : Option ErrorField

pub data RpcError : Type 0 where
  closed_before_completion malformed_response send_failed request_aborted : RpcError
  remote_error : (code : Number) → RpcError

pub data Settlement (V : Type 0) : Type 0 where
  resolved : V → Settlement V
  rejected : RpcError → Settlement V

pub data ProtocolReport : Type 0 where
  invalid_message invalid_response unknown_id malformed_report : ProtocolReport

pub record Transport (V : Type 0) : Type 0 where
  pub pending : List (RequestId × ℕ)
  pub issued : ℕ
  pub settled : List (ℕ × Settlement V)
  pub closed : Bool
  pub listeners : ℕ
  pub delivered : List (String × V)
  pub reports : List ProtocolReport

unfoldable pub create : {V : Type 0} → Transport V
create = record {
  pending = [];
  issued = 0;
  settled = [];
  closed = false;
  listeners = 0;
  delivered = [];
  reports = [];
}

-- `pending.get(id)` with `pending.delete(id)`: the ticket and the other requests.
unfoldable pub take_out : RequestId → List (RequestId × ℕ) → Option (ℕ × List (RequestId × ℕ))
unfolding same_id
take_out id [] = none
take_out id ((i, t) ∷ rest) =
    let below = take_out id rest in
    if same_id i id
    then some (t, rest)
    else elim below [ none ↦ none | some (u, left) ↦ some (u, (i, t) ∷ left) ]

-- A request leaves `pending` and its promise is settled; with no such id nothing happens.
settle_if :
    {V : Type 0} → Option (ℕ × List (RequestId × ℕ)) → Settlement V → Transport V → Transport V
settle_if none how s = s
settle_if (some (t, rest)) how s = record s { pending = rest; settled = (t, how) ∷ s.settled }

unfoldable pub settle : {V : Type 0} → RequestId → Settlement V → Transport V → Transport V
unfolding settle_if
settle id how s = settle_if (take_out id s.pending) how s

unfoldable pub is_settled : {V : Type 0} → ℕ → List (ℕ × Settlement V) → Bool
is_settled ticket [] = false
is_settled ticket ((t, how) ∷ rest) = t == ticket || is_settled ticket rest

-- The send of the request `ticket` fails: whatever request has its id leaves `pending`, and the
-- promise that is rejected is the ticket's own, unless it has settled before.
unfoldable pub fail_if :
    {V : Type 0} → Option (ℕ × List (RequestId × ℕ)) → ℕ → Transport V → Transport V
unfolding is_settled
fail_if none ticket s = s
fail_if (some (t, rest)) ticket s =
    if is_settled ticket s.settled
    then record s { pending = rest }
    else record s { pending = rest; settled = (ticket, rejected send_failed) ∷ s.settled }

unfoldable pub fail_send : {V : Type 0} → RequestId → ℕ → Transport V → Transport V
unfolding fail_if
fail_send id ticket s = fail_if (take_out id s.pending) ticket s

unfoldable pub report : {V : Type 0} → ProtocolReport → Transport V → Transport V
report r s = record s { reports = r ∷ s.reports }

unfoldable pub reject_all :
    {V : Type 0} → List (RequestId × ℕ) → List (ℕ × Settlement V) → List (ℕ × Settlement V)
reject_all [] settled = settled
reject_all ((i, t) ∷ rest) settled =
    reject_all rest ((t, rejected closed_before_completion) ∷ settled)

unfoldable pub finish : {V : Type 0} → Transport V → Transport V
unfolding reject_all
finish s = if s.closed then s else record s {
  closed = true;
  listeners = 0;
  settled = reject_all s.pending s.settled;
  pending = [];
}

-- What a response with a known id settles its request with; `none` is a malformed response.
unfoldable pub settlement_of : {V : Type 0} → Option V → Option ErrorField → Option (Settlement V)
settlement_of (some v) none = some (resolved v)
settlement_of none (some (coded code)) =
    if is_finite code then some (rejected (remote_error code)) else none
settlement_of _ _ = none

deliver : {V : Type 0} → ℕ → String × V → List (String × V) → List (String × V)
deliver zero m delivered = delivered
deliver (suc n) m delivered = m ∷ deliver n m delivered

respond :
    {V : Type 0}
    → RequestId
    → Option (ℕ × List (RequestId × ℕ))
    → Option (Settlement V)
    → Transport V
    → Transport V
unfolding settle report
respond id none how s = report unknown_id s
respond id (some found) (some how) s = settle id how s
respond id (some found) none s = report malformed_report (settle id (rejected malformed_response) s)

on_response : {V : Type 0} → Message V → IdField → Transport V → Transport V
unfolding respond report settlement_of
on_response m absent s = report invalid_response s
on_response m invalid s = report invalid_response s
on_response m (valid id) s = respond id (take_out id s.pending) (settlement_of m.result m.error) s

abbrev is_absent : IdField → Bool
is_absent absent = true
is_absent _ = false

notification : {V : Type 0} → Message V → Option String → Transport V → Transport V
notification m (some method) s = record s {
  delivered = deliver s.listeners (method, m.params) s.delivered;
}
notification m none s = s

-- The listener that the transport puts on its channel; a closed transport has taken it off.
unfoldable pub on_message : {V : Type 0} → Message V → Transport V → Transport V
unfolding notification on_response report deliver
on_message m s =
    if s.closed
    then s
    else if not m.is_rpc
    then report invalid_message s
    else if is_some m.method && is_absent m.id
    then notification m m.method s
    else on_response m m.id s

pub data RequestError : Type 0 where
  transport_closed aborted_before invalid_id duplicate_id : RequestError

-- What `request` finds: its signal, the id of the generator, and whether `send` throws at once.
pub record Call : Type 0 where
  pub aborted : Bool
  pub id : IdField
  pub send_throws : Bool

issue : {V : Type 0} → RequestId → Transport V → Transport V
issue id s = record s { pending = s.pending ++ (id, s.issued) ∷ []; issued = suc s.issued }

enter : {V : Type 0} → Bool → IdField → Transport V → Result RequestError (Transport V)
enter throws absent s = err invalid_id
enter throws invalid s = err invalid_id
enter throws (valid id) s =
    if is_some (take_out id s.pending)
    then err duplicate_id
    else if throws
    then ok (settle id (rejected send_failed) (issue id s))
    else ok (issue id s)

unfoldable pub request : {V : Type 0} → Call → Transport V → Result RequestError (Transport V)
unfolding issue enter settle
request c s =
    if s.closed
    then err transport_closed
    else if c.aborted
    then err aborted_before
    else enter c.send_throws c.id s

-- The state goes on unchanged where a call throws.
abbrev pub or_same : {E S : Type 0} → S → Result E S → S
or_same s (ok s') = s'
or_same s (err e) = s

pub data Event (V : Type 0) : Type 0 where
  requested : Call → Event V
  received : Message V → Event V
  signal_aborted : RequestId → Event V
  sending_failed : RequestId → (ticket : ℕ) → Event V
  channel_closed : Event V
  listener_added listener_removed : Event V

remove_one : ℕ → ℕ
remove_one zero = zero
remove_one (suc n) = n

unfoldable pub step : {V : Type 0} → Event V → Transport V → Transport V
unfolding request on_message settle fail_send finish remove_one
step (requested c) s = or_same s (request c s)
step (received m) s = on_message m s
step (signal_aborted id) s = settle id (rejected request_aborted) s
step (sending_failed id ticket) s = fail_send id ticket s
step channel_closed s = finish s
step listener_added s = record s { listeners = suc s.listeners }
step listener_removed s = record s { listeners = remove_one s.listeners }

unfoldable pub run : {V : Type 0} → List (Event V) → Transport V → Transport V
run [] s = s
run (e ∷ es) s = run es (step e s)
