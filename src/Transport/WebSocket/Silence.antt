-- ===== src/Transport/WebSocket/Silence.antt =====
-- A connection that has ended does nothing more.
use cavi_api_client.Base.{ℕ, ◌≡◌, true, List, [], ◌∷◌, arith}
use cavi_api_client.Transport.WebSocket.{Connection, Config, fail_decode, disconnect}
use cavi_api_client.Transport.WebSocket.Events.{
  Event, on_open, on_message, decode_next, on_error, on_close, on_url, on_slept, on_abort,
  close_connection, subscribe, subscribe_close, send, set_state, step, run, socket_opened,
  frame_arrived, socket_failed, socket_closed, state_changed, frame_decoded, url_resolved, slept,
  signal_aborted, listener_added, listener_removed, close_listener_added, close_listener_removed,
  message_sent, connection_closed_by_caller,
}

-- Nothing is received, emitted, sent, settled or tried between the two.
pub record Quiet {D V : Type 0} (s t : Connection D V) : Type 0 where
  pub ended : t.terminal ≡ true
  pub same_received : t.received ≡ s.received
  pub same_emitted : t.emitted ≡ s.emitted
  pub same_ready : t.ready ≡ s.ready
  pub same_error : t.close_error ≡ s.close_error
  pub same_attempt : t.attempt ≡ s.attempt
  pub same_sockets : t.sockets ≡ s.sockets
  pub same_closings : t.socket_closings ≡ s.socket_closings
  pub same_sent : t.sent ≡ s.sent

module _ {D V : Type 0} (c : Config D V) where
  decode-Quiet :
      (i : ℕ) (ds : List D) (s : Connection D V)
      → s.terminal ≡ true
      → Quiet s (decode_next c i ds s)
  unfolding decode_next
  decode-Quiet i [] s h = ground arith
  decode-Quiet i (d ∷ ds) s h = ground arith

  step-Quiet : (e : Event D V) (s : Connection D V) → s.terminal ≡ true → Quiet s (step c e s)
  unfolding step on_open on_message fail_decode on_error on_close disconnect on_url on_slept
      on_abort close_connection subscribe subscribe_close send set_state
  step-Quiet (socket_opened i) s h = ground arith
  step-Quiet (frame_arrived i d) s h = ground arith
  step-Quiet (socket_failed i random now) s h = ground arith
  step-Quiet (socket_closed i code clean random now) s h = ground arith
  step-Quiet (state_changed i n) s h = ground arith
  step-Quiet (frame_decoded i) s h = decode-Quiet i (s.frames) s h
  step-Quiet (url_resolved made) s h = ground arith
  step-Quiet (slept well made) s h = ground arith
  step-Quiet signal_aborted s h = ground arith
  step-Quiet (listener_added l) s h = ground arith
  step-Quiet (listener_removed l) s h = ground arith
  step-Quiet (close_listener_added l) s h = ground arith
  step-Quiet (close_listener_removed l) s h = ground arith
  step-Quiet (message_sent aborted encoded throws) s h = ground arith
  step-Quiet connection_closed_by_caller s h = ground arith

  run-Quiet_from :
      (es : List (Event D V)) (s : Connection D V) → s.terminal ≡ true → Quiet s (run c es s)
  unfolding run
  run-Quiet_from [] s h = ground arith
  run-Quiet_from (e ∷ es) s h =
      let now = step-Quiet e s h in
      let rest = run-Quiet_from es (step c e s) (now.ended) in ground arith

-- Once a connection has ended, no event has it receive, send, emit, settle, reconnect or close a
-- socket again, and it stays ended.
pub run-Quiet :
    {D V : Type 0} (c : Config D V) (events : List (Event D V)) (s : Connection D V)
    → s.terminal ≡ true
    → Quiet s (run c events s)
run-Quiet c events s h = run-Quiet_from c events s h
