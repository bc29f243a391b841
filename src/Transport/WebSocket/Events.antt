-- ===== src/Transport/WebSocket/Events.antt =====
-- src/core/transport/websocket.ts: what the sockets, the timers, the signal and the caller do to a
-- connection, and `connect` itself.
use cavi_api_client.Base.{
  ℕ, suc, Bool, true, false, not, ◌&&◌, ◌||◌, Option, none, some, List, [], ◌∷◌, ◌++◌,
  if◌then◌else◌, Result, ok, err, ◌==◌, ◌>>◌,
}
use cavi_api_client.Base.Number.{Number}
use cavi_api_client.Transport.Backoff.{PolicyError, validate_retry_policy}
use cavi_api_client.Transport.Attempts.{close, request}
use cavi_api_client.Transport.Lifecycle.{event_of, connected, reconnected}
use cavi_api_client.Transport.WebSocket.{
  Connection, Config, SocketError, Waiting, nothing, resolving, sleeping, unsettled, resolved,
  settle_ready, exceeds_limit, add_once, remove, tell, is_current, finish, close_socket, failure,
  fail_decode, attach_or_fail, start, disconnect, closed_error, connection_aborted, send_aborted,
  not_open, encoding_failed, send_failed, has_socket,
}

pub data Event (D V : Type 0) : Type 0 where
  -- Of a socket: it opens, brings a frame, reports an error, or closes; its state changes; and the
  -- first of its queued frames has been decoded.
  socket_opened : ℕ → Event D V
  frame_arrived : ℕ → D → Event D V
  socket_failed : ℕ → (random : Number) → (now : ℕ) → Event D V
  socket_closed :
      ℕ → (code : Option ℕ) → (clean : Option Bool) → (random : Number) → (now : ℕ) → Event D V
  state_changed : ℕ → (ready_state : ℕ) → Event D V
  frame_decoded : ℕ → Event D V
  -- The URL and the protocols have been found, or not, and the factory has made a socket, or not.
  url_resolved : (made : Bool) → Event D V
  -- The sleep is over, or was rejected.
  slept : (well made : Bool) → Event D V
  signal_aborted : Event D V
  -- The calls of the caller, with the listeners by number.
  listener_added listener_removed close_listener_added close_listener_removed : ℕ → Event D V
  message_sent : (aborted : Bool) → (encoded : Option V) → (throws : Bool) → Event D V
  connection_closed_by_caller : Event D V

abbrev pub opened_state : ℕ → Bool
opened_state attempt = attempt == 1

unfoldable pub on_open : {D V : Type 0} → ℕ → Connection D V → Connection D V
on_open i s =
    if not s.listening || s.terminal || not (is_current i (s.socket)) then s else record s {
      opened = true;
      ready = settle_ready (s.ready) resolved;
      emitted =
          event_of (if s.attempt == 1 then connected else reconnected) (s.attempt) ∷ s.emitted;
    }

unfoldable pub on_message : {D V : Type 0} → Config D V → ℕ → D → Connection D V → Connection D V
unfolding exceeds_limit fail_decode
on_message c i d s =
    if not s.listening || not (is_current i (s.socket))
    then s
    else if exceeds_limit (c.size_of d) (c.max_frame_bytes)
    then fail_decode i s
    else record s { frames = s.frames ++ d ∷ [] }

-- The outcome of a decoding: the message goes to every listener.
unfoldable pub deliver : {D V : Type 0} → ℕ → Option V → Connection D V → Connection D V
unfolding fail_decode
deliver i none s = fail_decode i s
deliver i (some message) s = record s { received = tell (s.listeners) message (s.received) }

unfoldable pub decode_next :
    {D V : Type 0} → Config D V → ℕ → List D → Connection D V → Connection D V
unfolding deliver
decode_next c i [] s = s
decode_next c i (d ∷ ds) s =
    if s.terminal || not (is_current i (s.socket))
    then s
    else deliver i (c.decode_frame d) (record s { frames = ds })

-- 1006 and not clean, where the event has neither.
abbrev pub code_of : Option ℕ → ℕ
code_of none = 1006
code_of (some code) = code

abbrev pub clean_of : Option Bool → Bool
clean_of none = false
clean_of (some clean) = clean

unfoldable pub on_error :
    {D V : Type 0} → Config D V → ℕ → Number → ℕ → Connection D V → Connection D V
unfolding disconnect
on_error c i random now s =
    if s.listening && s.ready_state == 3 then disconnect c i 1006 false random now s else s

unfoldable pub on_close :
    {D V : Type 0}
    → Config D V
    → ℕ
    → Option ℕ
    → Option Bool
    → Number
    → ℕ
    → Connection D V
    → Connection D V
unfolding disconnect
on_close c i code clean random now s =
    if s.listening then disconnect c i (code_of code) (clean_of clean) random now s else s

abbrev pub is_resolving : Waiting → Bool
is_resolving resolving = true
is_resolving _ = false

-- The end of `startAsync`.
unfoldable pub on_url : {D V : Type 0} → Bool → Connection D V → Connection D V
unfolding attach_or_fail
on_url made s =
    if not (is_resolving (s.waiting)) || s.terminal
    then s
    else attach_or_fail made (record s { waiting = nothing })

-- The end of `handleClose`, after the sleep.
unfoldable pub after_sleep :
    {D V : Type 0} → Config D V → Waiting → (well made : Bool) → Connection D V → Connection D V
unfolding finish start
after_sleep c nothing well made s = s
after_sleep c resolving well made s = s
after_sleep c (sleeping code) false made s = finish (some (closed_error code (s.attempt))) s
after_sleep c (sleeping code) true made s =
    start c made (record s { waiting = nothing; attempt = suc s.attempt })

unfoldable pub on_slept :
    {D V : Type 0} → Config D V → (well made : Bool) → Connection D V → Connection D V
unfolding after_sleep
on_slept c well made s = if s.terminal then s else after_sleep c (s.waiting) well made s

unfoldable pub on_abort : {D V : Type 0} → Connection D V → Connection D V
unfolding finish close_socket
on_abort s =
    if s.terminal
    then s
    else finish (some (failure connection_aborted close none (s.attempt))) (close_socket s)

unfoldable pub close_connection : {D V : Type 0} → Connection D V → Connection D V
unfolding finish close_socket
close_connection s = if s.terminal then s else finish none (close_socket s)

unfoldable pub subscribe : {D V : Type 0} → ℕ → Connection D V → Connection D V
subscribe l s = if s.terminal then s else record s { listeners = add_once l (s.listeners) }

-- A listener that comes after the end is told at once.
unfoldable pub subscribe_close : {D V : Type 0} → ℕ → Connection D V → Connection D V
subscribe_close l s =
    if s.terminal
    then record s { told = (l, s.close_error) ∷ s.told }
    else record s { close_listeners = add_once l (s.close_listeners) }

unfoldable pub send :
    {D V : Type 0}
    → (aborted : Bool) → (encoded : Option V) → (throws : Bool) → Connection D V
    → Result SocketError (Connection D V)
send aborted encoded throws s =
    if aborted
    then err (failure send_aborted request none (s.attempt))
    else if s.terminal || not (has_socket (s.socket) && s.ready_state == 1)
    then err (failure not_open request none (s.attempt))
    else elim encoded [
      | none ↦ err (failure encoding_failed request none (s.attempt))
      | some message ↦
          if throws
          then err (failure send_failed request none (s.attempt))
          else ok (record s { sent = message ∷ s.sent })
    ]

abbrev pub or_same : {E S : Type 0} → S → Result E S → S
or_same s (ok s') = s'
or_same s (err e) = s

unfoldable pub set_state : {D V : Type 0} → ℕ → ℕ → Connection D V → Connection D V
set_state i ready_state s =
    if is_current i (s.socket) then record s { ready_state = ready_state } else s

unfoldable pub step : {D V : Type 0} → Config D V → Event D V → Connection D V → Connection D V
step c (socket_opened i) s = on_open i s
step c (frame_arrived i d) s = on_message c i d s
step c (socket_failed i random now) s = on_error c i random now s
step c (socket_closed i code clean random now) s = on_close c i code clean random now s
step c (state_changed i ready_state) s = set_state i ready_state s
step c (frame_decoded i) s = decode_next c i (s.frames) s
step c (url_resolved made) s = on_url made s
step c (slept well made) s = on_slept c well made s
step c signal_aborted s = on_abort s
step c (listener_added l) s = subscribe l s
step c (listener_removed l) s = record s { listeners = remove l (s.listeners) }
step c (close_listener_added l) s = subscribe_close l s
step c (close_listener_removed l) s = record s { close_listeners = remove l (s.close_listeners) }
step c (message_sent aborted encoded throws) s = or_same s (send aborted encoded throws s)
step c connection_closed_by_caller s = close_connection s

unfoldable pub run :
    {D V : Type 0} → Config D V → List (Event D V) → Connection D V → Connection D V
run c [] s = s
run c (e ∷ es) s = run c es (step c e s)

abbrev pub unconnected : {D V : Type 0} → Connection D V
unconnected = record {
  socket = none;
  sockets = 0;
  ready_state = 0;
  listening = false;
  disconnect_handled = false;
  frames = [];
  attempt = 1;
  opened = false;
  terminal = false;
  aborted = false;
  waiting = nothing;
  ready = unsettled;
  close_error = none;
  listeners = [];
  close_listeners = [];
  received = [];
  told = [];
  emitted = [];
  socket_closings = 0;
  sent = [];
}

-- The signal may be aborted already, and the factory may fail.
unfoldable pub connect_socket :
    {D V : Type 0} → Config D V → (aborted made : Bool) → Result PolicyError (Connection D V)
unfolding on_abort start
connect_socket c aborted made = do
  validate_retry_policy (c.policy)
  ok (if aborted then on_abort unconnected else start c made unconnected)
