-- ===== src/Transport/WebSocket.antt =====
-- src/core/transport/websocket.ts: a connection that reconnects. The sockets, the signal, the clock
-- and the caller are a sequence of events; a listener returns and does not call back. A frame that
-- is taken after its socket was given up is decoded for nothing, so only the current socket's
-- queue of frames is kept. `D` is what a frame holds, `V` a message.
pub mod Events
pub mod Invariant
pub mod Silence
pub mod Ordered
mod Tests
use cavi_api_client.Base.{
  ℕ, zero, suc, ◌+◌, Bool, true, false, not, ◌&&◌, ◌||◌, Option, none, some, List, [], ◌∷◌, ◌++◌,
  if◌then◌else◌, Result, ok, err, ltb, leb, ◌==◌,
}
use cavi_api_client.Base.Number.{Number, whole}
use cavi_api_client.Transport.Backoff.{Delay, RetryPolicy, PolicyError, compute_backoff_delay}
use cavi_api_client.Base.Number.{int}
use cavi_api_client.Transport.Attempts.{
  TransportPhase, configure, connect, request, decode, close, past_deadline,
}
use cavi_api_client.Transport.Lifecycle.{
  LifecycleEvent, event_of, connecting, connected, retrying, reconnected, closed,
}

pub data Reason : Type 0 where
  connection_closed connection_failed connection_aborted decoding_failed : Reason
  send_aborted not_open encoding_failed send_failed : Reason

-- `makeError`; none of these may be retried.
pub record SocketError : Type 0 where
  pub reason : Reason
  pub phase : TransportPhase
  pub status : Option ℕ
  pub attempt : ℕ

pub record Config (D V : Type 0) : Type 0 where
  pub policy : RetryPolicy
  pub max_frame_bytes : ℕ
  -- The byte count of a frame, none for data of an unknown type.
  pub size_of : D → Option ℕ
  -- `none` where the decoder throws.
  pub decode_frame : D → Option V
  -- The URL and the protocols are given as values, not as functions.
  pub immediate : Bool
  pub started_at : ℕ

-- What an asynchronous part of the connection is waiting for.
pub data Waiting : Type 0 where
  nothing resolving : Waiting
  sleeping : (code : ℕ) → Waiting

pub data Ready : Type 0 where
  unsettled resolved : Ready
  rejected : SocketError → Ready

-- Lists have the latest entry first, but the frames and the listeners are in their order.
pub record Connection (D V : Type 0) : Type 0 where
  pub socket : Option ℕ
  pub sockets : ℕ
  pub ready_state : ℕ
  pub listening : Bool
  pub disconnect_handled : Bool
  pub frames : List D
  pub attempt : ℕ
  pub opened : Bool
  pub terminal : Bool
  pub aborted : Bool
  pub waiting : Waiting
  pub ready : Ready
  pub close_error : Option SocketError
  pub listeners : List ℕ
  pub close_listeners : List ℕ
  pub received : List (ℕ × V)
  pub told : List (ℕ × Option SocketError)
  pub emitted : List LifecycleEvent
  pub socket_closings : ℕ
  pub sent : List V

-- `inboundFrameExceedsLimit`
unfoldable pub exceeds_limit : Option ℕ → ℕ → Bool
exceeds_limit none limit = false
exceeds_limit (some size) limit = ltb limit size

-- A promise settles once.
abbrev pub settle_ready : Ready → Ready → Ready
settle_ready unsettled how = how
settle_ready resolved how = resolved
settle_ready (rejected e) how = rejected e

abbrev pub add_once : ℕ → List ℕ → List ℕ
add_once l [] = l ∷ []
add_once l (m ∷ ms) = if m == l then m ∷ ms else m ∷ add_once l ms

abbrev pub remove : ℕ → List ℕ → List ℕ
remove l [] = []
remove l (m ∷ ms) = if m == l then remove l ms else m ∷ remove l ms

abbrev pub tell {ℓ} : {A : Type ℓ} → List ℕ → A → List (ℕ × A) → List (ℕ × A)
tell [] a told = told
tell (l ∷ ls) a told = tell ls a ((l, a) ∷ told)

abbrev pub is_current : ℕ → Option ℕ → Bool
is_current i none = false
is_current i (some j) = i == j

abbrev pub or_closed : Option SocketError → ℕ → SocketError
or_closed none attempt = record {
  reason = connection_closed;
  phase = close;
  status = none;
  attempt = attempt;
}
or_closed (some e) attempt = e

abbrev pub emit : {D V : Type 0} → LifecycleEvent → Connection D V → Connection D V
emit e s = record s { emitted = e ∷ s.emitted }

abbrev pub reject_unless : Bool → Ready → SocketError → Ready
reject_unless true ready e = ready
reject_unless false ready e = settle_ready ready (rejected e)

-- The end: listeners are taken off, the close listeners told.
unfoldable pub finish : {D V : Type 0} → Option SocketError → Connection D V → Connection D V
finish e s = if s.terminal then s else record s {
  terminal = true;
  close_error = e;
  aborted = true;
  listening = false;
  ready = reject_unless (s.opened) (s.ready) (or_closed e (s.attempt));
  emitted = event_of closed (s.attempt) ∷ s.emitted;
  close_listeners = [];
  listeners = [];
  told = tell (s.close_listeners) e (s.told);
}

abbrev pub has_socket : Option ℕ → Bool
has_socket none = false
has_socket (some i) = true

-- The socket is closed unless it is closing already.
abbrev pub count_closing : Option ℕ → ℕ → ℕ → ℕ
count_closing socket state n = if has_socket socket && ltb state 2 then suc n else n

unfoldable pub close_socket : {D V : Type 0} → Connection D V → Connection D V
close_socket s = record s {
  listening = false;
  socket_closings = count_closing (s.socket) (s.ready_state) (s.socket_closings);
}

abbrev pub failure : Reason → TransportPhase → Option ℕ → ℕ → SocketError
failure reason phase status attempt = record {
  reason = reason;
  phase = phase;
  status = status;
  attempt = attempt;
}

unfoldable pub fail_decode : {D V : Type 0} → ℕ → Connection D V → Connection D V
unfolding finish close_socket
fail_decode i s =
    if s.terminal || not (is_current i (s.socket))
    then s
    else finish (some (failure decoding_failed decode none (s.attempt))) (close_socket s)

-- A new socket, with its listeners, its queue and its flag of a handled disconnection.
unfoldable pub attach : {D V : Type 0} → Connection D V → Connection D V
attach s = record s {
  socket = some (s.sockets);
  sockets = suc (s.sockets);
  ready_state = 0;
  listening = true;
  disconnect_handled = false;
  frames = [];
}

unfoldable pub attach_or_fail : {D V : Type 0} → (made : Bool) → Connection D V → Connection D V
unfolding attach finish
attach_or_fail true s = attach s
attach_or_fail false s = finish (some (failure connection_failed connect none (s.attempt))) s

unfoldable pub start_with :
    {D V : Type 0} → (immediate made : Bool) → Connection D V → Connection D V
unfolding attach_or_fail
start_with true made s = attach_or_fail made s
start_with false made s = record s { waiting = resolving }

unfoldable pub start : {D V : Type 0} → Config D V → (made : Bool) → Connection D V → Connection D V
unfolding start_with
start c made s = start_with (c.immediate) made (emit (event_of connecting (s.attempt)) s)

abbrev pub closed_error : ℕ → ℕ → SocketError
closed_error code attempt = failure connection_closed close (some code) attempt

-- The delay before a reconnection, once it may be tried; an error of the policy is thrown and lost.
unfoldable pub reconnect_after :
    {D V : Type 0}
    → Config D V
    → (code now : ℕ) → Result PolicyError Delay
    → Connection D V
    → Connection D V
unfolding finish past_deadline
reconnect_after c code now (err e) s = s
reconnect_after c code now (ok delay) s =
    if past_deadline (c.policy.deadline_ms) (c.started_at) now delay
    then finish (some (closed_error code (s.attempt))) s
    else record s {
      waiting = sleeping code;
      emitted = record { state = retrying; attempt = s.attempt; delay_ms = some delay } ∷ s.emitted;
    }

unfoldable pub handle_close :
    {D V : Type 0}
    → Config D V
    → (code : ℕ) → (clean : Bool) → (random : Number) → (now : ℕ) → Connection D V
    → Connection D V
unfolding finish reconnect_after
handle_close c code clean random now s =
    if s.terminal
    then s
    else let off = record s { listening = false } in
      if clean || code == 1000 || leb (whole (c.policy.max_attempts)) (s.attempt)
      then finish (some (closed_error code (s.attempt))) off
      else reconnect_after c code now
          (compute_backoff_delay (c.policy) (int (s.attempt)) random none) off

unfoldable pub disconnect :
    {D V : Type 0}
    → Config D V
    → ℕ
    → (code : ℕ) → (clean : Bool) → (random : Number) → (now : ℕ) → Connection D V
    → Connection D V
unfolding handle_close
disconnect c i code clean random now s =
    if s.disconnect_handled || s.terminal || not (is_current i (s.socket))
    then s
    else handle_close c code clean random now (record s { disconnect_handled = true })
