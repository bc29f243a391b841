-- ===== src/Transport/WebSocket/Invariant/Steps.antt =====
-- Every event keeps a connection open, or ended once and for all.
use cavi_api_client.Base.{
  ℕ, suc, ◌≤◌, inl, inr, ◌⊎◌, ◌≡◌, refl, Bool, true, false, not, ◌&&◌, ◌||◌, Option, none, some,
  List, [], ◌∷◌, if◌then◌else◌, Result, ok, err, arith, Bool-cases, ◌>>◌, ◌==◌,
}
use cavi_api_client.Base.Number.{whole}
use cavi_api_client.Transport.Backoff.{PolicyError, validate_retry_policy}
use cavi_api_client.Transport.WebSocket.{
  Connection, Config, SocketError, Waiting, nothing, resolving, sleeping, is_current, exceeds_limit,
  close_socket, failure, connection_aborted, closed_error, start, remove, has_socket,
}
use cavi_api_client.Transport.Attempts.{close}
use cavi_api_client.Transport.Attempts.Retries.{positive_attempts}
use cavi_api_client.Transport.WebSocket.Events.{
  Event, on_open, on_message, deliver, decode_next, on_error, on_close, on_url, after_sleep,
  on_slept, on_abort, close_connection, subscribe, subscribe_close, send, or_same, set_state, step,
  run, unconnected, connect_socket, code_of, clean_of, is_resolving, socket_opened, frame_arrived,
  socket_failed, socket_closed, state_changed, frame_decoded, url_resolved, slept, signal_aborted,
  listener_added, listener_removed, close_listener_added, close_listener_removed, message_sent,
  connection_closed_by_caller,
}
use cavi_api_client.Transport.WebSocket.Invariant.Listeners.{Heard, registered, run-Heard}
use cavi_api_client.Transport.WebSocket.Invariant.{
  Open, Valid, guarded-Valid, finish-Valid, close_socket-Open, fail_decode-Valid,
  attach_or_fail-Valid, start-Valid, disconnect-Valid,
}

module _ {D V : Type 0} (top : ℕ) where
  on_open-Valid : (i : ℕ) (s : Connection D V) → Valid top s → Valid top (on_open i s)
  unfolding on_open
  on_open-Valid i s v =
      guarded-Valid top (not s.listening || s.terminal || not (is_current i (s.socket))) s _ v
        (λ c. ground arith) (λ o h. inl (ground arith))

  on_message-Valid :
      (c : Config D V) (i : ℕ) (d : D) (s : Connection D V)
      → Valid top s
      → Valid top (on_message c i d s)
  unfolding on_message
  on_message-Valid c i d s v =
      guarded-Valid top (not s.listening || not (is_current i (s.socket))) s _ v
        (λ ended. ground arith)
        (λ o h. elim (Bool-cases (exceeds_limit (c.size_of d) (c.max_frame_bytes))) [
          | inl long ↦ rw long (fail_decode-Valid top i s v)
          | inr fits ↦ rw fits (inl (ground arith))
        ])

  deliver-Valid :
      (i : ℕ) (m : Option V) (s : Connection D V) → Open top s → Valid top (deliver i m s)
  unfolding deliver
  deliver-Valid i none s o = fail_decode-Valid top i s (inl o)
  deliver-Valid i (some m) s o = inl (ground arith)

  taken-Open : (ds : List D) (s : Connection D V) → Open top s → Open top (record s { frames = ds })
  taken-Open ds s o = ground arith

  decode_next-Valid :
      (c : Config D V) (i : ℕ) (ds : List D) (s : Connection D V)
      → Valid top s
      → Valid top (decode_next c i ds s)
  unfolding decode_next
  decode_next-Valid c i [] s v = v
  decode_next-Valid c i (d ∷ ds) s v =
      guarded-Valid top (s.terminal || not (is_current i (s.socket))) s _ v (λ ended. ground arith)
        (λ o h. deliver-Valid i (c.decode_frame d) (record s { frames = ds }) (taken-Open ds s o))

  if-Valid :
      (go : Bool) (s later : Connection D V)
      → Valid top s
      → Valid top later
      → Valid top (if go then later else s)
  if-Valid true s later v w = w
  if-Valid false s later v w = v

  woken-Open : (s : Connection D V) → Open top s → Open top (record s { waiting = nothing })
  woken-Open s o = ground arith

  on_url-Valid : (made : Bool) (s : Connection D V) → Valid top s → Valid top (on_url made s)
  unfolding on_url
  on_url-Valid made s v =
      guarded-Valid top (not (is_resolving (s.waiting)) || s.terminal) s _ v (λ c. ground arith)
        (λ o h. attach_or_fail-Valid top made (record s { waiting = nothing }) (woken-Open s o))

  after_sleep-Valid :
      (c : Config D V) (w : Waiting) (well made : Bool) (s : Connection D V)
      → s.waiting ≡ w
      → Open top s
      → Valid top (after_sleep c w well made s)
  unfolding after_sleep
  after_sleep-Valid c nothing well made s e o = inl o
  after_sleep-Valid c resolving well made s e o = inl o
  after_sleep-Valid c (sleeping code) false made s e o =
      finish-Valid top (some (closed_error code (s.attempt))) s o
  after_sleep-Valid c (sleeping code) true made s e o =
      start-Valid top c made (record s { waiting = nothing; attempt = suc s.attempt })
        (ground arith)

  on_slept-Valid :
      (c : Config D V) (well made : Bool) (s : Connection D V)
      → Valid top s
      → Valid top (on_slept c well made s)
  unfolding on_slept
  on_slept-Valid c well made s v =
      guarded-Valid top (s.terminal) s _ v (λ ended. ended.is_terminal)
        (λ o h. after_sleep-Valid c (s.waiting) well made s refl o)

  on_abort-Valid : (s : Connection D V) → Valid top s → Valid top (on_abort s)
  unfolding on_abort
  on_abort-Valid s v =
      guarded-Valid top (s.terminal) s _ v (λ ended. ended.is_terminal)
        (λ o h.
          finish-Valid top (some (failure connection_aborted close none (s.attempt)))
            (close_socket s) (close_socket-Open top s o))

  close_connection-Valid : (s : Connection D V) → Valid top s → Valid top (close_connection s)
  unfolding close_connection
  close_connection-Valid s v =
      guarded-Valid top (s.terminal) s _ v (λ ended. ended.is_terminal)
        (λ o h. finish-Valid top none (close_socket s) (close_socket-Open top s o))

  subscribe-Valid : (l : ℕ) (s : Connection D V) → Valid top s → Valid top (subscribe l s)
  unfolding subscribe
  subscribe-Valid l s v =
      guarded-Valid top (s.terminal) s _ v (λ ended. ended.is_terminal) (λ o h. inl (ground arith))

  subscribe_close-Valid :
      (l : ℕ) (s : Connection D V) → Valid top s → Valid top (subscribe_close l s)
  unfolding subscribe_close
  subscribe_close-Valid l s (inl o) = inl (ground arith)
  subscribe_close-Valid l s (inr c) = inr (ground arith)

  set_state-Valid : (i n : ℕ) (s : Connection D V) → Valid top s → Valid top (set_state i n s)
  unfolding set_state
  set_state-Valid i n s v =
      if-Valid (is_current i (s.socket)) s (record s { ready_state = n }) v (changed v)
    where
      changed : Valid top s → Valid top (record s { ready_state = n })
      changed (inl o) = inl (ground arith)
      changed (inr c) = inr (ground arith)

  removed-Valid :
      (l : ℕ) (s : Connection D V)
      → Valid top s
      → Valid top (record s { listeners = remove l (s.listeners) })
        × Valid top (record s { close_listeners = remove l (s.close_listeners) })
  removed-Valid l s (inl o) = (inl (ground arith), inl (ground arith))
  removed-Valid l s (inr c) = (inr (ground arith), inr (ground arith))

  sent-Valid :
      (m : V) (s : Connection D V) → Valid top s → Valid top (record s { sent = m ∷ s.sent })
  sent-Valid m s (inl o) = inl (ground arith)
  sent-Valid m s (inr c) = inr (ground arith)

  refused-Valid :
      (b : Bool) (e : SocketError) (r : Result SocketError (Connection D V)) (s : Connection D V)
      → Valid top s
      → Valid top (or_same s r)
      → Valid top (or_same s (if b then err e else r))
  refused-Valid true e r s v w = v
  refused-Valid false e r s v w = w

  send-Valid :
      (aborted : Bool) (encoded : Option V) (throws : Bool) (s : Connection D V)
      → Valid top s
      → Valid top (or_same s (send aborted encoded throws s))
  unfolding send
  send-Valid aborted none throws s v =
      refused-Valid aborted _ _ s v
        (refused-Valid (s.terminal || not (has_socket (s.socket) && s.ready_state == 1)) _ _ s v v)
  send-Valid aborted (some m) throws s v = refused-Valid aborted _ _ s v (
      refused-Valid (s.terminal || not (has_socket (s.socket) && s.ready_state == 1)) _ _ s v
        (refused-Valid throws _ _ s v (sent-Valid m s v)))

  step-Valid :
      (c : Config D V) (e : Event D V) (s : Connection D V)
      → whole (c.policy.max_attempts) ≡ top
      → Valid top s
      → Valid top (step c e s)
  unfolding step on_error on_close
  step-Valid c (socket_opened i) s e v = on_open-Valid i s v
  step-Valid c (frame_arrived i d) s e v = on_message-Valid c i d s v
  step-Valid c (socket_failed i random now) s e v =
      if-Valid (s.listening && s.ready_state == 3) s _ v
        (disconnect-Valid top c i 1006 false random now s e v)
  step-Valid c (socket_closed i code clean random now) s e v =
      if-Valid (s.listening) s _ v
        (disconnect-Valid top c i (code_of code) (clean_of clean) random now s e v)
  step-Valid c (state_changed i n) s e v = set_state-Valid i n s v
  step-Valid c (frame_decoded i) s e v = decode_next-Valid c i (s.frames) s v
  step-Valid c (url_resolved made) s e v = on_url-Valid made s v
  step-Valid c (slept well made) s e v = on_slept-Valid c well made s v
  step-Valid c signal_aborted s e v = on_abort-Valid s v
  step-Valid c (listener_added l) s e v = subscribe-Valid l s v
  step-Valid c (listener_removed l) s e v = (removed-Valid l s v).0
  step-Valid c (close_listener_added l) s e v = subscribe_close-Valid l s v
  step-Valid c (close_listener_removed l) s e v = (removed-Valid l s v).1
  step-Valid c (message_sent aborted encoded throws) s e v = send-Valid aborted encoded throws s v
  step-Valid c connection_closed_by_caller s e v = close_connection-Valid s v

  run-Valid_from :
      (c : Config D V) (es : List (Event D V)) (s : Connection D V)
      → whole (c.policy.max_attempts) ≡ top
      → Valid top s
      → Valid top (run c es s)
  unfolding run
  run-Valid_from c [] s e v = v
  run-Valid_from c (x ∷ xs) s e v = run-Valid_from c xs (step c x s) e (step-Valid c x s e v)

  unconnected-Open : 1 ≤ top → Open top (unconnected {D = D} {V = V})
  unconnected-Open h = ground arith

  connected-Valid :
      (c : Config D V) (aborted made : Bool)
      → 1 ≤ top
      → Valid top (if aborted then on_abort unconnected else start c made unconnected)
  connected-Valid c true made h = on_abort-Valid unconnected (inl (unconnected-Open h))
  connected-Valid c false made h = start-Valid top c made unconnected (unconnected-Open h)

validated :
    {S : Type 0} (r : Result PolicyError (Unit {0})) (x : S) {s : S}
    → (r >> ok x) ≡ ok s
    → ((u : Unit {0}) × (r ≡ ok u)) × (x ≡ s)
validated (ok u) x h = ((u, refl), cc)
validated (err e) x h = cc

-- A connection under a valid policy, from `connect` on and whatever happens in whatever order: it is
-- open, with its promise settled only by an opened socket, no close listener told and the attempts
-- within the policy; or it has ended, with its signal aborted, no listener left, the promise
-- settled, the end emitted once and the close listeners that were told all told the same error.
-- And a close listener that was added, and not removed since, still listens and the connection has
-- not ended, or it was told.
pub run-Valid :
    {D V : Type 0} (c : Config D V) (aborted made : Bool) (events : List (Event D V)) (l : ℕ)
    (s : Connection D V)
    → connect_socket c aborted made ≡ ok s
    → Valid (whole (c.policy.max_attempts)) (run c events s)
      × ((registered l false events ≡ false) ⊎ Heard l (run c events s))
unfolding connect_socket
run-Valid c aborted made events l s h =
    let (valid, same) = validated (validate_retry_policy (c.policy)) _ h in
    let (u, fine) = valid in
    let connected =
      connected-Valid (whole (c.policy.max_attempts)) c aborted made
        (positive_attempts (c.policy) u fine) in
    let ran =
      run-Valid_from (whole (c.policy.max_attempts)) c events s refl (rw (← same) connected) in
    elim (Bool-cases (registered l false events)) [
      | inl on ↦ (ran, inr (run-Heard l c events false s (λ no_way. ground arith) on))
      | inr off ↦ (ran, inl off)
    ]
