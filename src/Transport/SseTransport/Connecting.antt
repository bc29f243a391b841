-- ===== src/Transport/SseTransport/Connecting.antt =====
-- The attempts of a subscription: what holds of every one, and when it gives up.
use cavi_api_client.Base.{
  ℕ, zero, suc, ◌+◌, ◌≤◌, ◌≡◌, refl, ◌∙◌, ap, Bool, true, false, not, ◌&&◌, Option, none, some,
  if◌then◌else◌, leb, length, arith, Bool-cases, inl, inr, Result, ok, err, ◌>>◌,
}
use cavi_api_client.Base.Number.{Number, whole}
use cavi_api_client.Base.Text.{Text}
use cavi_api_client.Errors.{Failure}
use cavi_api_client.Transport.Backoff.{Delay, PolicyError, validate_retry_policy}
use cavi_api_client.Transport.Attempts.{past_deadline}
use cavi_api_client.Transport.Attempts.Retries.{positive_attempts}
use cavi_api_client.Transport.Lifecycle.{
  LifecycleEvent, closings, is_closed, event_of, connecting, retrying,
}
use cavi_api_client.Transport.SseConsumer.{
  Consumer, ConsumeError, buffer_limit, handler_failed, limit_not_positive, read_failed,
}
use cavi_api_client.Transport.SseTransport.{validate_dedupe_capacity}
use cavi_api_client.Transport.SseTransport.Dedupe.{Windowed, after-Windowed, new-Windowed}
use cavi_api_client.Transport.SseTransport.Subscription.{
  SseFailure, connection_failed, status_failed, decoding_failed, Decision, stop, fail, wait,
  Subscription, SseAttempt, SseConfig, Response, Fetched, fetch_failed, responded, retryable_status,
  stream_decision, consumed, keep_session, announce, stream, respond, fetch, authenticate, entered,
  wait_for_reconnect, proceed, reconnect, attempts, unconnected, close_with, subscribe, sent,
  connected_state, slept, Refused, lift_policy,
}

-- A failure that another attempt may mend.
abbrev pub is_transient : SseFailure → Bool
is_transient connection_failed = true
is_transient decoding_failed = true
is_transient (status_failed status) = retryable_status status
is_transient _ = false

-- What a subscription under a policy of `top` attempts ends with.
pub record Finished (capacity : ℕ) (first : Option Text) (top : ℕ) (e : Option SseFailure)
    (s : Subscription) : Type 0 where
  pub windowed : Windowed capacity first s.session
  pub closed_once : closings s.emitted ≡ 1
  pub requests : length s.cursors ≤ top
  pub within : s.final_attempt ≤ top
  pub gave_up : (f : SseFailure) → e ≡ some f → is_transient f ≡ true → s.final_attempt ≡ top

abbrev transient : Decision → Bool
transient (fail e) = is_transient e
transient _ = false

module _ (capacity : ℕ) (first : Option Text) where
  -- Before the end is announced: at most `n` requests were sent.
  record Going (n attempt : ℕ) (s : Subscription) : Type 0 where
    pub windowed : Windowed capacity first s.session
    pub open_yet : closings s.emitted ≡ 0
    pub requests : length s.cursors ≤ n
    pub at : s.final_attempt ≡ attempt

  record Decided (n attempt : ℕ) (last : Bool) (d : Decision × Subscription) : Type 0 where
    pub going : Going n attempt d.1
    pub last_resort : transient d.0 && not last ≡ false

  decided :
      (n attempt : ℕ) (last : Bool) (d : Decision) (s : Subscription)
      → Going n attempt s
      → transient d && not last ≡ false
      → Decided n attempt last (d, s)
  decided n attempt last d s g h = record { going = g; last_resort = h }

  more : (n attempt : ℕ) (s : Subscription) → Going n attempt s → Going (suc n) attempt s
  more n attempt s g = record {
    windowed = g.windowed;
    open_yet = g.open_yet;
    requests = let r = g.requests in omega arith;
    at = g.at;
  }

  announced :
      (n attempt : ℕ) (e : LifecycleEvent) (s : Subscription)
      → is_closed e.state ≡ false
      → Going n attempt s
      → Going n attempt (announce e s)
  announced n attempt e s h g = record {
    windowed = g.windowed;
    open_yet = rw h g.open_yet;
    requests = g.requests;
    at = g.at;
  }

  stream_last :
      (a b last : Bool) (e : Option ConsumeError) (after : Option Number)
      → transient (stream_decision a b last e after) && not last ≡ false
  stream_last a b last none after = ground arith
  stream_last a b last (some buffer_limit) after = ground arith
  stream_last a b last (some (handler_failed e)) after = ground arith
  stream_last a b last (some limit_not_positive) after = ground arith
  stream_last a b last (some (read_failed e)) after = ground arith

  consumed-Decided :
      (n attempt : ℕ) (b last : Bool) (r : Result ConsumeError Consumer) (s : Subscription)
      → Going n attempt s
      → Decided n attempt last (keep_session s (consumed capacity b last s.session r))
  unfolding consumed
  consumed-Decided n attempt b last (err e) s g =
      decided n attempt last _ _
        (record { windowed = g.windowed; open_yet = g.open_yet; requests = g.requests; at = g.at })
        (stream_last false b last (some e) s.session.server_retry_ms)
  consumed-Decided n attempt b last (ok c) s g =
      decided n attempt last _ _
        (record {
          windowed = after-Windowed capacity first s.session c.messages g.windowed;
          open_yet = g.open_yet;
          requests = g.requests;
          at = g.at;
        })
        (stream_last c.aborted b last c.failure _)

  if-Decided :
      (n attempt : ℕ) (last b : Bool) (x y : Decision × Subscription)
      → Decided n attempt last x
      → Decided n attempt last y
      → Decided n attempt last (if b then x else y)
  if-Decided n attempt last true x y hx hy = hx
  if-Decided n attempt last false x y hx hy = hy

  not_closed : (attempt : ℕ) → is_closed ((connected_state attempt).state) ≡ false
  not_closed attempt = ground arith

  module _ (c : SseConfig) where
    stream-Decided :
        (n attempt : ℕ) (b last : Bool) (r : Response) (s : Subscription)
        → Going n attempt s
        → Decided n attempt last (stream c capacity attempt b last r s)
    unfolding stream
    stream-Decided n attempt b last r s g =
        consumed-Decided n attempt b last _ (announce (connected_state attempt) s)
          (announced n attempt (connected_state attempt) s (not_closed attempt) g)

    respond-Decided :
        (n attempt : ℕ) (b last : Bool) (r : Response) (s : Subscription)
        → Going n attempt s
        → Decided n attempt last (respond c capacity attempt b last r s)
    unfolding respond
    respond-Decided n attempt b last r s g =
        if-Decided n attempt last (not r.is_ok) _ _ (decided n attempt last _ s g (ground arith)) (
          if-Decided n attempt last (not r.is_sse) _ _ (decided n attempt last _ s g refl) (
            if-Decided n attempt last (not r.has_body) _ _ (decided n attempt last _ s g refl)
              (stream-Decided n attempt b last r s g)))

    fetch-Decided :
        (n attempt : ℕ) (b last : Bool) (f : Fetched) (s : Subscription)
        → Going n attempt s
        → Decided n attempt last (fetch c capacity attempt b last f s)
    unfolding fetch
    fetch-Decided n attempt b last (fetch_failed e none) s g =
        decided n attempt last _ s g (ground arith)
    fetch-Decided n attempt b last (fetch_failed e (some (may_retry, after))) s g =
        decided n attempt last _ s g (ground arith)
    fetch-Decided n attempt b last (responded r) s g = respond-Decided n attempt b last r s g

    sent-Going :
        (n attempt : ℕ) (s : Subscription)
        → Going n attempt s
        → Going (suc n) attempt (sent c capacity s)
    sent-Going n attempt s g = record {
      windowed = g.windowed;
      open_yet = g.open_yet;
      requests = let r = g.requests in omega arith;
      at = g.at;
    }

    authenticate-Decided :
        (n attempt : ℕ) (last : Bool) (a : SseAttempt) (auth : Option Failure) (s : Subscription)
        → Going n attempt s
        → Decided (suc n) attempt last (authenticate c capacity attempt last a auth s)
    unfolding authenticate
    authenticate-Decided n attempt last a (some e) s g =
        decided (suc n) attempt last _ s (more n attempt s g) (ground arith)
    authenticate-Decided n attempt last a none s g =
        if-Decided (suc n) attempt last a.aborted_after_auth _ _
          (decided (suc n) attempt last _ s (more n attempt s g) refl)
          (fetch-Decided (suc n) attempt a.aborted_after_failure last a.fetched (sent c capacity s)
            (sent-Going n attempt s g))

    -- What the loop ends with: a failure that another attempt may mend only after the last attempt.
    record Ended (top : ℕ) (r : Option SseFailure × Subscription) : Type 0 where
      pub attempt : ℕ
      pub going : Going top attempt r.1
      pub within : attempt ≤ top
      pub gave_up : (e : SseFailure) → r.0 ≡ some e → is_transient e ≡ true → attempt ≡ top

    up_to :
        (n top attempt : ℕ) (s : Subscription) → n ≤ top → Going n attempt s → Going top attempt s
    up_to n top attempt s h g = record {
      windowed = g.windowed;
      open_yet = g.open_yet;
      requests = let r = g.requests in omega arith;
      at = g.at;
    }

    quiet_at_end :
        (top n attempt : ℕ) (s : Subscription)
        → n ≤ top
        → attempt ≤ top
        → Going n attempt s
        → Ended top (none, s)
    quiet_at_end top n attempt s hn ha g = record {
      attempt = attempt;
      going = up_to n top attempt s hn g;
      within = ha;
      gave_up = λ e h t. cc;
    }

    if-Ended :
        (top : ℕ) (b : Bool) (x y : Option SseFailure × Subscription)
        → Ended top x
        → Ended top y
        → Ended top (if b then x else y)
    if-Ended top true x y hx hy = hx
    if-Ended top false x y hx hy = hy

    entered-Going :
        (n before attempt : ℕ) (s : Subscription)
        → Going n before s
        → Going n attempt (entered c capacity attempt s)
    entered-Going n before attempt s g = record {
      windowed = g.windowed;
      open_yet = g.open_yet;
      requests = g.requests;
      at = refl;
    }

    record Waited (n attempt : ℕ) (r : Option SseFailure × Subscription) : Type 0 where
      pub going : Going n attempt r.1
      pub lasting : (e : SseFailure) → r.0 ≡ some e → is_transient e ≡ false

    slept-lasting :
        (a : SseAttempt) (f : Option Failure) (e : SseFailure)
        → slept c capacity a f ≡ some e
        → is_transient e ≡ false
    slept-lasting a none e h = cc
    slept-lasting a (some f) e h = ground arith

    wait-Waited :
        (n attempt : ℕ) (a : SseAttempt) (delay : Result PolicyError Delay) (s : Subscription)
        → Going n attempt s
        → Waited n attempt (wait_for_reconnect c capacity attempt a delay s)
    unfolding wait_for_reconnect
    wait-Waited n attempt a (err p) s g = record { going = g; lasting = λ e h. ground arith }
    wait-Waited n attempt a (ok delay) s g =
        elim (Bool-cases (past_deadline c.policy.deadline_ms c.started_at a.now delay)) [
          | inl late ↦ rw late (record { going = g; lasting = λ e h. ground arith })
          | inr early ↦ rw early (record {
            going =
                announced n attempt
                  (record { state = retrying; attempt = attempt; delay_ms = some delay }) s refl g;
            lasting = slept-lasting a a.sleep_failure;
          })
        ]

    proceed-Ended :
        (top n attempt : ℕ) (w : Option SseFailure × Subscription)
        (next : Subscription → Option SseFailure × Subscription)
        → n ≤ top
        → attempt ≤ top
        → Waited n attempt w
        → ((s : Subscription) → Going n attempt s → Ended top (next s))
        → Ended top (proceed c capacity w next)
    proceed-Ended top n attempt (none, s) next hn ha w k = k s w.going
    proceed-Ended top n attempt (some e, s) next hn ha w k = record {
      attempt = attempt;
      going = up_to n top attempt s hn w.going;
      within = ha;
      gave_up = λ e' h t. let no_way = w.lasting e' h in ground arith;
    }

    reconnect-Ended :
        (top n attempt : ℕ) (a : SseAttempt) (d : Decision × Subscription)
        (next : Subscription → Option SseFailure × Subscription)
        → n ≤ top
        → attempt ≤ top
        → Decided n attempt (leb top attempt) d
        → ((s : Subscription) → Going n attempt s → Ended top (next s))
        → Ended top (reconnect c capacity attempt a d next)
    unfolding reconnect
    reconnect-Ended top n attempt a (stop, s) next hn ha d k =
        quiet_at_end top n attempt s hn ha d.going
    reconnect-Ended top n attempt a (fail e, s) next hn ha d k = record {
      attempt = attempt;
      going = up_to n top attempt s hn d.going;
      within = ha;
      gave_up = λ e' h t. ground arith;
    }
    reconnect-Ended top n attempt a (wait after, s) next hn ha d k =
        proceed-Ended top n attempt _ next hn ha (wait-Waited n attempt a _ s d.going) k

    attempts-Ended :
        (top left n attempt before : ℕ) (world : ℕ → SseAttempt) (s : Subscription)
        → top ≡ whole c.policy.max_attempts
        → attempt ≡ suc n
        → attempt + left ≡ suc top
        → before ≤ top
        → Going n before s
        → Ended top (attempts c capacity left attempt world s)
    unfolding attempts
    attempts-Ended top zero n attempt before world s e h l b g =
        quiet_at_end top n before s (omega arith) b g
    attempts-Ended top (suc left) n attempt before world s e h l b g =
        let a = world attempt in
        let g' = entered-Going n before attempt s g in
        if-Ended top a.aborted_at_head _ _
          (quiet_at_end top n attempt _ (omega arith) (omega arith) g')
          (reconnect-Ended top (suc n) attempt a _ (attempts c capacity left (suc attempt) world)
            (omega arith) (omega arith)
            (rw (← e) (
              authenticate-Decided n attempt (leb top attempt) a a.auth_failure _
                (announced n attempt (event_of connecting attempt) _ refl g')))
            (λ s' g''.
              attempts-Ended top left (suc n) (suc attempt) attempt world s' e (omega arith)
                (omega arith) (omega arith) g''))

Going_new : (capacity : ℕ) (first : Option Text) → Going capacity first 0 1 (unconnected first)
Going_new capacity first = record {
  windowed = new-Windowed capacity first;
  open_yet = refl;
  requests = omega arith;
  at = refl;
}

close-Finished :
    (capacity top : ℕ) (first : Option Text) (c : SseConfig) (r : Option SseFailure × Subscription)
    → Ended capacity first c top r
    → Finished capacity first top ((close_with r).0) ((close_with r).1)
close-Finished capacity top first c (e, s) x = record {
  windowed = x.going.windowed;
  closed_once = ap suc x.going.open_yet;
  requests = x.going.requests;
  within = rw x.going.at x.within;
  gave_up = λ f h t. x.going.at ∙ x.gave_up f h t;
}

policy_of :
    {B : Type 0} (r : Result PolicyError (Unit {0})) (k : Result Refused B) {b : B}
    → (lift_policy r >> k) ≡ ok b
    → ((u : Unit {0}) × (r ≡ ok u)) × (k ≡ ok b)
policy_of (ok u) k h = ((u, refl), h)
policy_of (err e) k h = cc

parts_of :
    {A B : Type 0} (x : A × B) {a : A} {b : B}
    → ◌≡◌ {A = Result Refused (A × B)} (ok x) (ok (a, b))
    → (x.0 ≡ a) × (x.1 ≡ b)
parts_of (x, y) h = (cc, cc)

-- Whatever happens to a subscription, when its promise settles: the end was announced exactly once;
-- it sent at most as many requests as the policy has attempts; the ids it remembers are those of the
-- messages handed on last, as many as there is room for, no message was handed on while its id was
-- remembered, and the cursor is the last id handed on; and a failed connection, a status that may
-- be retried or a stream that broke off is thrown only after the last attempt.
pub subscribe-Finished :
    (c : SseConfig) (cursor : Option Text) (world : ℕ → SseAttempt) (capacity : ℕ)
    (e : Option SseFailure) (s : Subscription)
    → validate_dedupe_capacity c.dedupe_capacity ≡ ok capacity
    → subscribe c cursor world ≡ ok (e, s)
    → Finished capacity cursor (whole c.policy.max_attempts) e s
unfolding subscribe
subscribe-Finished c cursor world capacity e s room h =
    let (valid, rest) = policy_of (validate_retry_policy c.policy) _ h in
    let (u, fine) = valid in
    let top = positive_attempts c.policy u fine in
    let ended =
      attempts-Ended capacity cursor c (whole c.policy.max_attempts) (whole c.policy.max_attempts) 0
        1 1 world (unconnected cursor) refl refl (omega arith) (omega arith)
        (Going_new capacity cursor) in
    let finished = close-Finished capacity (whole c.policy.max_attempts) cursor c _ ended in
    let same : ok (
          close_with
            (attempts c capacity (whole c.policy.max_attempts) 1 world (unconnected cursor)))
        ≡ ok (e, s) =
      rw room at rest in
    let (same_error, same_state) = parts_of _ same in rw (← same_error, ← same_state) finished
