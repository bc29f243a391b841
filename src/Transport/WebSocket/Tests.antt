-- ===== src/Transport/WebSocket/Tests.antt =====
-- Runs of a connection, and witnesses.
use cavi_api_client.Base.{
  ◌⊎◌, ℕ, ◌+◌, ◌≡◌, refl, true, false, none, some, List, [], ◌∷◌, ◌++◌, map, ok, if◌then◌else◌,
  ◌==◌,
}
use cavi_api_client.Base.Number.{int, num, whole}
use cavi_api_client.Transport.Backoff.{exponential, validate_retry_policy, compute_backoff_delay}
use cavi_api_client.Transport.Attempts.{past_deadline}
use cavi_api_client.Transport.Lifecycle.{
  LifecycleState, LifecycleEvent, connecting, connected, retrying, reconnected, closed,
}
use cavi_api_client.Transport.WebSocket.{
  Connection, Config, finish, attach, attach_or_fail, start_with, start, reconnect_after,
  handle_close, disconnect, exceeds_limit,
}
use cavi_api_client.Transport.WebSocket.Events.{
  Event, socket_opened, frame_arrived, frame_decoded, socket_closed, slept, listener_added,
  close_listener_added, on_open, on_message, deliver, decode_next, on_close, after_sleep, on_slept,
  subscribe, subscribe_close, step, run, connect_socket, unconnected,
}
use cavi_api_client.Transport.WebSocket.Invariant.Listeners.{Heard, registered}
use cavi_api_client.Transport.WebSocket.Invariant.{Valid}
use cavi_api_client.Transport.WebSocket.Invariant.Steps.{run-Valid}
use cavi_api_client.Transport.WebSocket.Silence.{Quiet, run-Quiet}
use cavi_api_client.Transport.WebSocket.Ordered.{
  run-messages, arrives, decoded, messages, events, arrived, Traffic,
}

-- Frames are numbers, of which 9 cannot be decoded.
abbrev config : Config ℕ ℕ
config = record {
  policy = record {
    max_attempts = int 2;
    base_delay_ms = int 100;
    max_delay_ms = int 1000;
    jitter_ratio = none;
    deadline_ms = none;
  };
  max_frame_bytes = 100;
  size_of = λ d. some d;
  decode_frame = λ d. if d == 9 then none else some (d + 1);
  immediate = true;
  started_at = 0;
}

-- The socket is lost once, the second one too.
abbrev losses : List (Event ℕ ℕ)
losses =
    listener_added 5
    ∷ close_listener_added 7
    ∷ socket_opened 0
    ∷ frame_arrived 0 1
    ∷ frame_decoded 0
    ∷ socket_closed 0 (some 1006) none (num 0) 10
    ∷ slept true true
    ∷ socket_opened 1
    ∷ socket_closed 1 none none (num 0) 20
    ∷ []

abbrev connecting_now : Connection ℕ ℕ
unfolding start
connecting_now = start config true unconnected

connect_socket-test : connect_socket config false true ≡ ok connecting_now
unfolding connect_socket validate_retry_policy start
connect_socket-test = refl

abbrev attempts : List LifecycleEvent → List (LifecycleState × ℕ)
attempts [] = []
attempts (e ∷ es) = (e.state, e.attempt) ∷ attempts es

losses-test :
    attempts ((run config losses connecting_now).emitted)
    ≡ (closed, 2)
      ∷ (reconnected, 2)
      ∷ (connecting, 2)
      ∷ (retrying, 1)
      ∷ (connected, 1)
      ∷ (connecting, 1)
      ∷ []
unfolding run step start start_with attach_or_fail attach subscribe subscribe_close on_open
    on_message exceeds_limit decode_next deliver on_close disconnect handle_close reconnect_after
    past_deadline exponential compute_backoff_delay validate_retry_policy on_slept after_sleep
    finish
losses-test = refl

received-test : (run config losses connecting_now).received ≡ (5, 2) ∷ []
unfolding run step start start_with attach_or_fail attach subscribe subscribe_close on_open
    on_message exceeds_limit decode_next deliver on_close disconnect handle_close reconnect_after
    past_deadline exponential compute_backoff_delay validate_retry_policy on_slept after_sleep
    finish
received-test = refl

run-Valid_example :
    Valid (whole (int 2)) (run config losses connecting_now)
    × ((registered 7 false losses ≡ false) ⊎ Heard 7 (run config losses connecting_now))
run-Valid_example = run-Valid config false true losses 7 connecting_now connect_socket-test

abbrev done : Connection ℕ ℕ
done = record (unconnected {D = ℕ} {V = ℕ}) { terminal = true }

run-Quiet_example : Quiet done (run config losses done)
run-Quiet_example = run-Quiet config losses done refl

abbrev live : Connection ℕ ℕ
live = record (unconnected {D = ℕ} {V = ℕ}) {
  socket = some 0;
  listening = true;
  listeners = 5 ∷ [];
  frames = 3 ∷ [];
}

abbrev traffic : List (Traffic ℕ)
traffic = arrives 1 ∷ decoded ∷ arrives 2 ∷ decoded ∷ []

run-messages_example :
    map some (messages ((run config (events 0 traffic) live).received))
      ++ map (config.decode_frame) ((run config (events 0 traffic) live).frames)
    ≡ (map some (messages (live.received)) ++ map (config.decode_frame) (live.frames))
      ++ map (config.decode_frame) (arrived traffic)
unfolding arrived exceeds_limit
run-messages_example =
    run-messages config 0 5 traffic live
      (record { going = refl; heard = refl; current = refl; one_listener = refl })
      ((refl, refl), tt) ((refl, refl), ((refl, refl), tt))
