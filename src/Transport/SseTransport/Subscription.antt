-- ===== src/Transport/SseTransport/Subscription.antt =====
-- src/core/transport/sse.ts, subscribe: the attempts of a subscription. What the resolver of the
-- authentication, fetch, the body, the clock and the sleep do in an attempt is a record of its own,
-- with the state of the signal where the code reads it; the reads of a body go on to its end.
-- A failed read is no transport error. The request's headers other than the cursor, and the URL,
-- are not modelled.
use cavi_api_client.Base.{
  ℕ, zero, suc, Bool, true, false, not, ◌||◌, Option, none, some, List, [], ◌∷◌, if◌then◌else◌, ltb,
  leb, ◌==◌, Result, ok, err, ◌>>=◌, ◌>>◌,
}
use cavi_api_client.Base.Number.{Number, int, whole}
use cavi_api_client.Base.Text.{Text, is_empty}
use cavi_api_client.Errors.{Failure, is_abort_error}
use cavi_api_client.Transport.Backoff.{
  Delay, RetryPolicy, PolicyError, validate_retry_policy, compute_backoff_delay,
}
use cavi_api_client.Transport.Attempts.{past_deadline}
use cavi_api_client.Transport.Lifecycle.{
  LifecycleEvent, event_of, connecting, connected, retrying, reconnected, closed,
}
use cavi_api_client.Transport.SseStream.{SseMessage}
use cavi_api_client.Transport.SseConsumer.{
  Reaction, returns, Read, Consumer, ConsumeError, buffer_limit, limit_not_positive, handler_failed,
  read_failed, consume_sse_stream,
}
use cavi_api_client.Transport.SseTransport.{
  Session, new_session, has_seen, after_messages, CapacityError, validate_dedupe_capacity,
}

pub data SseFailure : Type 0 where
  authentication_failed connection_failed fetch_rejected : SseFailure
  status_failed : (status : ℕ) → SseFailure
  content_type_invalid body_unavailable stream_too_large message_handler_failed : SseFailure
  decoding_failed deadline_exceeded : SseFailure
  backoff_rejected : PolicyError → SseFailure
  sleep_failed : Failure → SseFailure

pub record Response : Type 0 where
  pub is_ok : Bool
  pub status : ℕ
  pub is_sse : Bool
  pub has_body : Bool
  pub reads : List Read

-- A failed fetch comes with the metadata of its error, where that is a transport error: whether it
-- may be retried, and after what time.
pub data Fetched : Type 0 where
  fetch_failed : Failure → (transport : Option (Bool × Option Number)) → Fetched
  responded : Response → Fetched

pub record SseAttempt : Type 0 where
  pub aborted_at_head : Bool
  pub auth_failure : Option Failure
  pub aborted_after_auth : Bool
  pub fetched : Fetched
  pub aborted_after_failure : Bool
  pub random : Number
  pub now : ℕ
  pub sleep_failure : Option Failure
  pub aborted_after_sleep : Bool

pub record SseConfig : Type 0 where
  pub policy : RetryPolicy
  pub dedupe_capacity : Option Number
  pub max_buffer_bytes : Option Number
  pub started_at : ℕ
  pub to_number : Text → Number
  pub byte_length : Text → ℕ
  pub on_message : SseMessage → Reaction

-- How an attempt goes on: the subscription ends, it fails, or it waits, for the time asked for.
pub data Decision : Type 0 where
  stop : Decision
  fail : SseFailure → Decision
  wait : Option Number → Decision

abbrev pub retryable_status : ℕ → Bool
retryable_status status = status == 408 || status == 429 || not (ltb status 500)

-- The failure where nothing may follow, else the wait.
abbrev pub retry_or_fail : (may_retry last : Bool) → SseFailure → Option Number → Decision
retry_or_fail may_retry last e after = if not may_retry || last then fail e else wait after

abbrev pub connect_decision : Option (Bool × Option Number) → (last : Bool) → Decision
connect_decision none last = retry_or_fail true last connection_failed none
connect_decision (some (may_retry, after)) last = retry_or_fail may_retry last fetch_rejected after

abbrev pub is_abort : ConsumeError → Bool
is_abort (read_failed e) = is_abort_error e
is_abort _ = false

-- The caller's handler is called with what the session hands on.
abbrev pub is_new : SseMessage → Option Text → Session → Bool
is_new m none s = true
is_new m (some id) s = is_empty id || not (has_seen id s.seen_ids)

unfoldable pub handler :
    (capacity : ℕ) → (SseMessage → Reaction) → Session → List SseMessage → SseMessage → Reaction
handler capacity on_message s before m =
    if is_new m m.id (after_messages capacity s before) then on_message m else returns

abbrev pub stream_error : ConsumeError → (last : Bool) → Option Number → Decision
stream_error buffer_limit last after = fail stream_too_large
stream_error (handler_failed e) last after = fail message_handler_failed
stream_error limit_not_positive last after = retry_or_fail true last decoding_failed after
stream_error (read_failed e) last after = retry_or_fail true last decoding_failed after

-- The end of a stream, with what its consumer threw.
abbrev pub stream_decision :
    (aborted aborted_after last : Bool) → Option ConsumeError → Option Number → Decision
stream_decision aborted aborted_after last none after = if aborted || last then stop else wait after
stream_decision aborted aborted_after last (some e) after =
    if aborted || aborted_after || is_abort e then stop else stream_error e last after

unfoldable pub consumed :
    (capacity : ℕ)
    → (aborted_after last : Bool) → Session
    → Result ConsumeError Consumer
    → Decision × Session
consumed capacity aborted_after last s (err e) =
    (stream_decision false aborted_after last (some e) s.server_retry_ms, s)
consumed capacity aborted_after last s (ok c) =
    let after = after_messages capacity s c.messages in
    (stream_decision c.aborted aborted_after last c.failure after.server_retry_ms, after)

-- What is announced of the subscription, and the cursors that its requests sent, the latest first.
pub record Subscription : Type 0 where
  pub session : Session
  pub emitted : List LifecycleEvent
  pub cursors : List (Option Text)
  pub final_attempt : ℕ

abbrev pub announce : LifecycleEvent → Subscription → Subscription
announce e s = record s { emitted = e ∷ s.emitted }

abbrev pub connected_state : ℕ → LifecycleEvent
connected_state attempt = event_of (if attempt == 1 then connected else reconnected) attempt

abbrev pub keep_session : Subscription → Decision × Session → Decision × Subscription
keep_session s (decision, session) = (decision, record s { session = session })

-- The header `Last-Event-ID`: none for an empty cursor.
abbrev pub named_cursor : Option Text → Option Text
named_cursor none = none
named_cursor (some cursor) = if is_empty cursor then none else some cursor

module _ (c : SseConfig) (capacity : ℕ) where
  unfoldable pub stream :
      (attempt : ℕ)
      → (aborted_after last : Bool) → Response
      → Subscription
      → Decision × Subscription
  unfolding consumed handler
  stream attempt aborted_after last r s = keep_session (announce (connected_state attempt) s) (
      consumed capacity aborted_after last s.session (
        consume_sse_stream c.to_number c.byte_length (handler capacity c.on_message s.session)
          c.max_buffer_bytes r.reads))

  unfoldable pub respond :
      (attempt : ℕ)
      → (aborted_after last : Bool) → Response
      → Subscription
      → Decision × Subscription
  unfolding stream
  respond attempt aborted_after last r s =
      if not r.is_ok
      then (retry_or_fail (retryable_status r.status) last (status_failed r.status) none, s)
      else if not r.is_sse
      then (fail content_type_invalid, s)
      else if not r.has_body
      then (fail body_unavailable, s)
      else stream attempt aborted_after last r s

  unfoldable pub fetch :
      (attempt : ℕ) → (aborted_after last : Bool) → Fetched → Subscription → Decision × Subscription
  unfolding respond
  fetch attempt aborted_after last (fetch_failed e transport) s =
      (if aborted_after || is_abort_error e then stop else connect_decision transport last, s)
  fetch attempt aborted_after last (responded r) s = respond attempt aborted_after last r s

  abbrev pub sent : Subscription → Subscription
  sent s = record s { cursors = named_cursor s.session.cursor ∷ s.cursors }

  unfoldable pub authenticate :
      (attempt : ℕ)
      → (last : Bool) → SseAttempt
      → Option Failure
      → Subscription
      → Decision × Subscription
  unfolding fetch
  authenticate attempt last a (some e) s =
      (if a.aborted_after_failure || is_abort_error e then stop else fail authentication_failed, s)
  authenticate attempt last a none s =
      if a.aborted_after_auth
      then (stop, s)
      else fetch attempt a.aborted_after_failure last a.fetched (sent s)

  abbrev pub slept : SseAttempt → Option Failure → Option SseFailure
  slept a none = none
  slept a (some e) =
      if a.aborted_after_sleep || is_abort_error e then none else some (sleep_failed e)

  -- `waitForReconnect`: what it throws, with the announced retry.
  unfoldable pub wait_for_reconnect :
      (attempt : ℕ)
      → SseAttempt
      → Result PolicyError Delay
      → Subscription
      → Option SseFailure × Subscription
  unfolding past_deadline
  wait_for_reconnect attempt a (err e) s = (some (backoff_rejected e), s)
  wait_for_reconnect attempt a (ok delay) s =
      if past_deadline c.policy.deadline_ms c.started_at a.now delay
      then (some deadline_exceeded, s)
      else (
        slept a a.sleep_failure,
        announce (record { state = retrying; attempt = attempt; delay_ms = some delay }) s,
      )

  abbrev pub entered : ℕ → Subscription → Subscription
  entered attempt s = record s { final_attempt = attempt }

  abbrev pub proceed :
      Option SseFailure × Subscription
      → (Subscription → Option SseFailure × Subscription)
      → Option SseFailure × Subscription
  proceed (none, s) next = next s
  proceed (some e, s) next = (some e, s)

  unfoldable pub reconnect :
      (attempt : ℕ)
      → SseAttempt
      → Decision × Subscription
      → (Subscription → Option SseFailure × Subscription)
      → Option SseFailure × Subscription
  unfolding wait_for_reconnect
  reconnect attempt a (stop, s) next = (none, s)
  reconnect attempt a (fail e, s) next = (some e, s)
  reconnect attempt a (wait after, s) next =
      proceed
        (wait_for_reconnect attempt a (compute_backoff_delay c.policy (int attempt) a.random after)
          s)
        next

  -- The loop, by the attempts left: what it throws, and the subscription.
  unfoldable pub attempts :
      (left attempt : ℕ) → (ℕ → SseAttempt) → Subscription → Option SseFailure × Subscription
  unfolding authenticate reconnect
  attempts zero attempt world s = (none, s)
  attempts (suc left) attempt world s =
      let a = world attempt in
      let s' = entered attempt s in
      let next = attempts left (suc attempt) world in
      if a.aborted_at_head
      then (none, s')
      else reconnect attempt a
          (authenticate attempt (leb (whole c.policy.max_attempts) attempt) a a.auth_failure
            (announce (event_of connecting attempt) s'))
          next

abbrev pub unconnected : Option Text → Subscription
unconnected cursor = record {
  session = new_session cursor;
  emitted = [];
  cursors = [];
  final_attempt = 1;
}

-- What `subscribe` throws at once.
pub data Refused : Type 0 where
  policy_invalid : PolicyError → Refused
  capacity_invalid : Refused

abbrev pub lift_policy : {A : Type 0} → Result PolicyError A → Result Refused A
lift_policy (ok a) = ok a
lift_policy (err e) = err (policy_invalid e)

abbrev pub lift_capacity : {A : Type 0} → Result CapacityError A → Result Refused A
lift_capacity (ok a) = ok a
lift_capacity (err e) = err capacity_invalid

-- The promise `done` with the end that is always announced.
abbrev pub close_with : Option SseFailure × Subscription → Option SseFailure × Subscription
close_with (e, s) = (e, announce (event_of closed s.final_attempt) s)

unfoldable pub subscribe :
    SseConfig
    → (cursor : Option Text) → (ℕ → SseAttempt)
    → Result Refused (Option SseFailure × Subscription)
unfolding attempts
subscribe c cursor world = do
  lift_policy (validate_retry_policy c.policy)
  capacity ← lift_capacity (validate_dedupe_capacity c.dedupe_capacity)
  ok (close_with (attempts c capacity (whole c.policy.max_attempts) 1 world (unconnected cursor)))
