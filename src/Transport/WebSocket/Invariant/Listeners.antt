-- ===== src/Transport/WebSocket/Invariant/Listeners.antt =====
-- The close listeners of a connection: none is lost, and the end is told to each of them.
use cavi_api_client.Base.{
  ℕ, suc, inl, inr, ◌⊎◌, ◌≡◌, refl, Bool, true, false, not, ◌&&◌, ◌||◌, Option, none, some, List,
  [], ◌∷◌, any, if◌then◌else◌, Result, ok, err, arith, Bool-cases, ◌==◌, leb,
}
use cavi_api_client.Base.Number.{Number, whole}
use cavi_api_client.Transport.Backoff.{Delay, PolicyError}
use cavi_api_client.Transport.Attempts.{past_deadline, connect, decode, close}
use cavi_api_client.Transport.WebSocket.{
  Connection, Config, SocketError, Waiting, nothing, resolving, sleeping, is_current, exceeds_limit,
  finish, close_socket, fail_decode, attach, attach_or_fail, start, start_with, reconnect_after,
  handle_close, disconnect, failure, connection_failed, closed_error, decoding_failed, remove,
  connection_aborted, has_socket, tell, add_once,
}
use cavi_api_client.Transport.WebSocket.Events.{
  Event, on_open, on_message, deliver, decode_next, on_error, on_close, on_url, after_sleep,
  on_slept, on_abort, close_connection, subscribe, subscribe_close, send, or_same, set_state, step,
  run, code_of, clean_of, is_resolving, socket_opened, frame_arrived, socket_failed, socket_closed,
  state_changed, frame_decoded, url_resolved, slept, signal_aborted, listener_added,
  listener_removed, close_listener_added, close_listener_removed, message_sent,
  connection_closed_by_caller,
}

abbrev pub listens : ℕ → List ℕ → Bool
listens l ls = any (λ m. m == l) ls

abbrev pub was_told : ℕ → List (ℕ × Option SocketError) → Bool
was_told l told = any (λ t. t.0 == l) told

-- A close listener will be told of the end, or was told.
pub record Heard {D V : Type 0} (l : ℕ) (s : Connection D V) : Type 0 where
  pub heard :
      (s.terminal ≡ false) × (listens l s.close_listeners ≡ true) ⊎ (was_told l s.told ≡ true)

-- Whether a close listener was added and not removed since.
registered_after : {D V : Type 0} → ℕ → Bool → Event D V → Bool
registered_after l b (close_listener_added m) = if m == l then true else b
registered_after l b (close_listener_removed m) = if m == l then false else b
registered_after l b _ = b

unfoldable pub registered : {D V : Type 0} → ℕ → Bool → List (Event D V) → Bool
unfolding registered_after
registered l b [] = b
registered l b (e ∷ es) = registered l (registered_after l b e) es

tell-was_told :
    (l : ℕ) (e : Option SocketError) (ls : List ℕ) (told : List (ℕ × Option SocketError))
    → was_told l told ≡ true
    → was_told l (tell ls e told) ≡ true
tell-was_told l e [] told h = h
tell-was_told l e (m ∷ ms) told h = tell-was_told l e ms ((m, e) ∷ told) (ground arith)

tell-listens :
    (l : ℕ) (e : Option SocketError) (ls : List ℕ) (told : List (ℕ × Option SocketError))
    → listens l ls ≡ true
    → was_told l (tell ls e told) ≡ true
tell-listens l e [] told h = ground arith
tell-listens l e (m ∷ ms) told h = elim (Bool-cases (m == l)) [
  | inl here ↦ tell-was_told l e ms ((m, e) ∷ told) (ground arith)
  | inr other ↦ tell-listens l e ms ((m, e) ∷ told) (ground arith)
]

add_once-listens : (l m : ℕ) (ls : List ℕ) → listens l ls ≡ true → listens l (add_once m ls) ≡ true
add_once-listens l m [] h = ground arith
add_once-listens l m (k ∷ ks) h = ground (arith, add_once-listens l m ks)

add_once-listens_self : (l : ℕ) (ls : List ℕ) → listens l (add_once l ls) ≡ true
add_once-listens_self l [] = ground arith
add_once-listens_self l (k ∷ ks) = ground (arith, add_once-listens_self l ks)

remove-listens :
    (l m : ℕ) (ls : List ℕ)
    → (m == l) ≡ false
    → listens l ls ≡ true
    → listens l (remove m ls) ≡ true
remove-listens l m [] o h = h
remove-listens l m (k ∷ ks) o h = ground (arith, remove-listens l m ks o)

module _ {D V : Type 0} (l : ℕ) where
  if-Heard :
      (stay : Bool) (s later : Connection D V)
      → Heard l s
      → Heard l later
      → Heard l (if stay then s else later)
  if-Heard true s later h k = h
  if-Heard false s later h k = k

  finish-told :
      (e : Option SocketError) (s : Connection D V)
      → Heard l s
      → was_told l (tell s.close_listeners e s.told) ≡ true
  finish-told e s h = elim h.heard [
    | inl (going, listening) ↦ tell-listens l e s.close_listeners s.told listening
    | inr told ↦ tell-was_told l e s.close_listeners s.told told
  ]

  finish-Heard : (e : Option SocketError) (s : Connection D V) → Heard l s → Heard l (finish e s)
  unfolding finish
  finish-Heard e s h = if-Heard s.terminal s _ h (record { heard = inr (finish-told e s h) })

  close_socket-Heard : (s : Connection D V) → Heard l s → Heard l (close_socket s)
  unfolding close_socket
  close_socket-Heard s h = record { heard = h.heard }

  fail_decode-Heard : (i : ℕ) (s : Connection D V) → Heard l s → Heard l (fail_decode i s)
  unfolding fail_decode
  fail_decode-Heard i s h = if-Heard (s.terminal || not (is_current i s.socket)) s _ h (
      finish-Heard (some (failure decoding_failed decode none s.attempt)) (close_socket s)
        (close_socket-Heard s h))

  attach_or_fail-Heard :
      (made : Bool) (s : Connection D V) → Heard l s → Heard l (attach_or_fail made s)
  unfolding attach_or_fail attach
  attach_or_fail-Heard true s h = record { heard = h.heard }
  attach_or_fail-Heard false s h =
      finish-Heard (some (failure connection_failed connect none s.attempt)) s h

  start_with-Heard :
      (immediate made : Bool) (s : Connection D V)
      → Heard l s
      → Heard l (start_with immediate made s)
  unfolding start_with
  start_with-Heard true made s h = attach_or_fail-Heard made s h
  start_with-Heard false made s h = record { heard = h.heard }

  start-Heard :
      (c : Config D V) (made : Bool) (s : Connection D V) → Heard l s → Heard l (start c made s)
  unfolding start
  start-Heard c made s h = start_with-Heard c.immediate made _ (record { heard = h.heard })

  reconnect_after-Heard :
      (c : Config D V) (code now : ℕ) (delay : Result PolicyError Delay) (s : Connection D V)
      → Heard l s
      → Heard l (reconnect_after c code now delay s)
  unfolding reconnect_after
  reconnect_after-Heard c code now (err e) s h = h
  reconnect_after-Heard c code now (ok delay) s h =
      elim (Bool-cases (past_deadline c.policy.deadline_ms c.started_at now delay)) [
        | inl late ↦ simp late (finish-Heard (some (closed_error code s.attempt)) s h)
        | inr early ↦ simp early (record { heard = h.heard })
      ]

  handle_close-Heard :
      (c : Config D V) (code : ℕ) (clean : Bool) (random : Number) (now : ℕ) (s : Connection D V)
      → Heard l s
      → Heard l (handle_close c code clean random now s)
  unfolding handle_close
  handle_close-Heard c code clean random now s h =
      let off : Heard l (record s { listening = false }) = record { heard = h.heard } in
      if-Heard s.terminal s _ h
        (elim (Bool-cases (clean || code == 1000 || leb (whole c.policy.max_attempts) s.attempt)) [
          | inl over ↦ rw over (
              finish-Heard (some (closed_error code s.attempt)) (record s { listening = false })
                off)
          | inr again ↦
              rw again (reconnect_after-Heard c code now _ (record s { listening = false }) off)
        ])

  disconnect-Heard :
      (c : Config D V) (i code : ℕ) (clean : Bool) (random : Number) (now : ℕ) (s : Connection D V)
      → Heard l s
      → Heard l (disconnect c i code clean random now s)
  unfolding disconnect
  disconnect-Heard c i code clean random now s h =
      if-Heard (s.disconnect_handled || s.terminal || not (is_current i s.socket)) s _ h (
        handle_close-Heard c code clean random now (record s { disconnect_handled = true })
          (record { heard = h.heard }))

  on_open-Heard : (i : ℕ) (s : Connection D V) → Heard l s → Heard l (on_open i s)
  unfolding on_open
  on_open-Heard i s h =
      if-Heard (not s.listening || s.terminal || not (is_current i s.socket)) s _ h
        (record { heard = h.heard })

  on_message-Heard :
      (c : Config D V) (i : ℕ) (d : D) (s : Connection D V)
      → Heard l s
      → Heard l (on_message c i d s)
  unfolding on_message
  on_message-Heard c i d s h =
      if-Heard (not s.listening || not (is_current i s.socket)) s _ h
        (elim (Bool-cases (exceeds_limit (c.size_of d) c.max_frame_bytes)) [
          | inl long ↦ rw long (fail_decode-Heard i s h)
          | inr fits ↦ rw fits (record { heard = h.heard })
        ])

  deliver-Heard : (i : ℕ) (m : Option V) (s : Connection D V) → Heard l s → Heard l (deliver i m s)
  unfolding deliver
  deliver-Heard i none s h = fail_decode-Heard i s h
  deliver-Heard i (some m) s h = record { heard = h.heard }

  decode_next-Heard :
      (c : Config D V) (i : ℕ) (ds : List D) (s : Connection D V)
      → Heard l s
      → Heard l (decode_next c i ds s)
  unfolding decode_next
  decode_next-Heard c i [] s h = h
  decode_next-Heard c i (d ∷ ds) s h =
      if-Heard (s.terminal || not (is_current i s.socket)) s _ h
        (deliver-Heard i (c.decode_frame d) (record s { frames = ds }) (record { heard = h.heard }))

  on_url-Heard : (made : Bool) (s : Connection D V) → Heard l s → Heard l (on_url made s)
  unfolding on_url
  on_url-Heard made s h =
      if-Heard (not (is_resolving s.waiting) || s.terminal) s _ h
        (attach_or_fail-Heard made (record s { waiting = nothing }) (record { heard = h.heard }))

  after_sleep-Heard :
      (c : Config D V) (w : Waiting) (well made : Bool) (s : Connection D V)
      → Heard l s
      → Heard l (after_sleep c w well made s)
  unfolding after_sleep
  after_sleep-Heard c nothing well made s h = h
  after_sleep-Heard c resolving well made s h = h
  after_sleep-Heard c (sleeping code) false made s h =
      finish-Heard (some (closed_error code s.attempt)) s h
  after_sleep-Heard c (sleeping code) true made s h =
      start-Heard c made (record s { waiting = nothing; attempt = suc s.attempt })
        (record { heard = h.heard })

  on_slept-Heard :
      (c : Config D V) (well made : Bool) (s : Connection D V)
      → Heard l s
      → Heard l (on_slept c well made s)
  unfolding on_slept
  on_slept-Heard c well made s h =
      if-Heard s.terminal s _ h (after_sleep-Heard c s.waiting well made s h)

  on_abort-Heard : (s : Connection D V) → Heard l s → Heard l (on_abort s)
  unfolding on_abort
  on_abort-Heard s h = if-Heard s.terminal s _ h (
      finish-Heard (some (failure connection_aborted close none s.attempt)) (close_socket s)
        (close_socket-Heard s h))

  close_connection-Heard : (s : Connection D V) → Heard l s → Heard l (close_connection s)
  unfolding close_connection
  close_connection-Heard s h =
      if-Heard s.terminal s _ h (finish-Heard none (close_socket s) (close_socket-Heard s h))

  subscribe-Heard : (m : ℕ) (s : Connection D V) → Heard l s → Heard l (subscribe m s)
  unfolding subscribe
  subscribe-Heard m s h = if-Heard s.terminal s _ h (record { heard = h.heard })

  subscribe_close-Heard : (m : ℕ) (s : Connection D V) → Heard l s → Heard l (subscribe_close m s)
  unfolding subscribe_close
  subscribe_close-Heard m s h =
      if-Heard s.terminal _ _
        (record {
          heard = elim h.heard [
            | inl (going, on) ↦ inl (going, on)
            | inr told ↦ inr (ground arith)
          ];
        })
        (record {
          heard = elim h.heard [
            | inl (going, on) ↦ inl (going, add_once-listens l m s.close_listeners on)
            | inr told ↦ inr told
          ];
        })

  subscribe_close-self : (s : Connection D V) → Heard l (subscribe_close l s)
  unfolding subscribe_close
  subscribe_close-self s = elim (Bool-cases s.terminal) [
    | inl ended ↦ simp ended (record { heard = inr (ground arith) })
    | inr going ↦
        simp going (record { heard = inl (refl, add_once-listens_self l s.close_listeners) })
  ]

  unsubscribe_close-Heard :
      (m : ℕ) (s : Connection D V)
      → (m == l) ≡ false
      → Heard l s
      → Heard l (record s { close_listeners = remove m s.close_listeners })
  unsubscribe_close-Heard m s other h = record {
    heard = elim h.heard [
      | inl (going, on) ↦ inl (going, remove-listens l m s.close_listeners other on)
      | inr told ↦ inr told
    ];
  }

  set_state-Heard : (i n : ℕ) (s : Connection D V) → Heard l s → Heard l (set_state i n s)
  unfolding set_state
  set_state-Heard i n s h =
      if-Heard (is_current i s.socket) (record s { ready_state = n }) s (record { heard = h.heard })
        h

  refused-Heard :
      (b : Bool) (e : SocketError) (r : Result SocketError (Connection D V)) (s : Connection D V)
      → Heard l s
      → Heard l (or_same s r)
      → Heard l (or_same s (if b then err e else r))
  refused-Heard true e r s v w = v
  refused-Heard false e r s v w = w

  send-Heard :
      (aborted : Bool) (encoded : Option V) (throws : Bool) (s : Connection D V)
      → Heard l s
      → Heard l (or_same s (send aborted encoded throws s))
  unfolding send
  send-Heard aborted none throws s h =
      refused-Heard aborted _ _ s h
        (refused-Heard (s.terminal || not (has_socket s.socket && s.ready_state == 1)) _ _ s h h)
  send-Heard aborted (some m) throws s h = refused-Heard aborted _ _ s h (
      refused-Heard (s.terminal || not (has_socket s.socket && s.ready_state == 1)) _ _ s h
        (refused-Heard throws _ _ s h (record { heard = h.heard })))

  -- What a registration comes to: the listener is heard of whenever it is registered.
  abbrev Tracked : Bool → Connection D V → Type 0
  Tracked b s = b ≡ true → Heard l s

  step-Tracked :
      (c : Config D V) (e : Event D V) (b : Bool) (s : Connection D V)
      → Tracked b s
      → Tracked (registered_after l b e) (step c e s)
  unfolding step registered_after on_error on_close
  step-Tracked c (socket_opened i) b s t r = on_open-Heard i s (t r)
  step-Tracked c (frame_arrived i d) b s t r = on_message-Heard c i d s (t r)
  step-Tracked c (socket_failed i random now) b s t r =
      if-Heard (s.listening && s.ready_state == 3) (disconnect c i 1006 false random now s) s
        (disconnect-Heard c i 1006 false random now s (t r)) (t r)
  step-Tracked c (socket_closed i code clean random now) b s t r =
      if-Heard s.listening (disconnect c i (code_of code) (clean_of clean) random now s) s
        (disconnect-Heard c i (code_of code) (clean_of clean) random now s (t r)) (t r)
  step-Tracked c (state_changed i n) b s t r = set_state-Heard i n s (t r)
  step-Tracked c (frame_decoded i) b s t r = decode_next-Heard c i s.frames s (t r)
  step-Tracked c (url_resolved made) b s t r = on_url-Heard made s (t r)
  step-Tracked c (slept well made) b s t r = on_slept-Heard c well made s (t r)
  step-Tracked c signal_aborted b s t r = on_abort-Heard s (t r)
  step-Tracked c (listener_added m) b s t r = subscribe-Heard m s (t r)
  step-Tracked c (listener_removed m) b s t r = record { heard = (t r).heard }
  step-Tracked c (close_listener_added m) b s t r = elim (Bool-cases (m == l)) [
    | inl same ↦ let own : m ≡ l = ground arith in rw own (subscribe_close-self s)
    | inr other ↦ subscribe_close-Heard m s (t (rw other at r))
  ]
  step-Tracked c (close_listener_removed m) b s t r = elim (Bool-cases (m == l)) [
    | inl same ↦ let no_way = rw same at r in ground arith
    | inr other ↦ unsubscribe_close-Heard m s other (t (rw other at r))
  ]
  step-Tracked c (message_sent aborted encoded throws) b s t r =
      send-Heard aborted encoded throws s (t r)
  step-Tracked c connection_closed_by_caller b s t r = close_connection-Heard s (t r)

  pub run-Heard :
      (c : Config D V) (es : List (Event D V)) (b : Bool) (s : Connection D V)
      → (b ≡ true → Heard l s)
      → registered l b es ≡ true
      → Heard l (run c es s)
  unfolding run registered
  run-Heard c [] b s t r = t r
  run-Heard c (e ∷ es) b s t r =
      run-Heard c es (registered_after l b e) (step c e s) (step-Tracked c e b s t) r
