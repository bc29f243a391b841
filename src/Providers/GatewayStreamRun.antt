-- ===== src/Providers/GatewayStreamRun.antt =====
-- src/providers/gateway-stream-run.ts: a run that is started through the gateway and streamed. What
-- the provider, the signal and the subscription do is a list; a handler that the caller leaves out
-- does nothing, and one that is there returns and does not call back; the provider is constructed
-- without an error.
pub mod Settling
mod Tests
use cavi_api_client.Base.{
  ℕ, zero, suc, String, Bool, true, false, ◌||◌, Option, none, some, List, [], ◌∷◌, if◌then◌else◌,
  Result, ok, err,
}
use cavi_api_client.Runtime.RunStream.{
  EventName, run_completed, run_failed, run_cancelled, RunStreamEvent, name_of, StreamError,
  is_non_terminal_stream_error,
}

-- `TERMINAL_EVENTS`
unfoldable pub is_terminal : EventName → Bool
is_terminal run_completed = true
is_terminal run_failed = true
is_terminal run_cancelled = true
is_terminal _ = false

-- How the promise settles; `transport_unavailable` is the error that stands in for a missing one.
pub data Settlement : Type 0 where
  resolved transport_unavailable : Settlement
  rejected : StreamError → Settlement

-- A call of one of the caller's handlers.
pub data Call : Type 0 where
  on_event : RunStreamEvent → Call
  on_error : Option StreamError → Call
  on_complete : Call

-- The latest call and settlement come first. `subscription` is whether it is there to be disposed.
pub record Stream : Type 0 where
  pub settled : Bool
  pub complete_fired : Bool
  pub subscription : Bool
  pub disposals : ℕ
  pub calls : List Call
  pub settlements : List Settlement

abbrev pub open_stream : Stream
open_stream = record {
  settled = false;
  complete_fired = false;
  subscription = false;
  disposals = 0;
  calls = [];
  settlements = [];
}

unfoldable pub fire_complete : Stream → Stream
fire_complete s =
    if s.settled || s.complete_fired
    then s
    else record s { complete_fired = true; calls = on_complete ∷ s.calls }

abbrev pub count_if : Bool → ℕ → ℕ
count_if true n = suc n
count_if false n = n

unfoldable pub finish : Settlement → Stream → Stream
finish how s = if s.settled then s else record s {
  settled = true;
  disposals = count_if (s.subscription) (s.disposals);
  settlements = how ∷ s.settlements;
}

-- What the listeners hear: of the provider an event, an error (`none` for null and undefined) or the
-- completion; the signal's abort; and of the subscription that it is there or that it was refused
-- (`none` for undefined).
pub data Heard : Type 0 where
  event : RunStreamEvent → Heard
  error : Option StreamError → Heard
  completed aborted subscribed : Heard
  subscribe_failed : Option StreamError → Heard

abbrev pub end_if : Bool → Stream → Stream
unfolding finish fire_complete
end_if true s = finish resolved (fire_complete s)
end_if false s = s

unfoldable pub hear_event : RunStreamEvent → Stream → Stream
unfolding end_if is_terminal
hear_event e s =
    if s.settled
    then s
    else end_if (is_terminal (name_of (e.payload))) (record s { calls = on_event e ∷ s.calls })

-- An error without the mark of a frame's error settles.
abbrev pub error_settles : Option StreamError → Stream → Stream
unfolding finish
error_settles none s = finish transport_unavailable s
error_settles (some e) s = if is_non_terminal_stream_error e then s else finish (rejected e) s

unfoldable pub hear_error : Option StreamError → Stream → Stream
unfolding error_settles
hear_error e s =
    if s.settled then s else error_settles e (record s { calls = on_error e ∷ s.calls })

abbrev pub settlement_of : Option StreamError → Settlement
settlement_of none = resolved
settlement_of (some e) = rejected e

unfoldable pub hear : Heard → Stream → Stream
unfolding hear_event hear_error finish fire_complete
hear (event e) s = hear_event e s
hear (error e) s = hear_error e s
hear completed s = finish resolved (fire_complete s)
hear aborted s = finish resolved s
hear subscribed s = record s { subscription = true; disposals = count_if (s.settled) (s.disposals) }
hear (subscribe_failed e) s = finish (settlement_of e) s

unfoldable pub hear_all : List Heard → Stream → Stream
unfolding hear
hear_all [] s = s
hear_all (h ∷ hs) s = hear_all hs (hear h s)

-- How far a call of the bridge gets: it returns at once, is refused by the validation or by the
-- start of the run, or streams a run, whose id it has told.
pub data Bridged : Type 0 where
  aborted_before : Bridged
  refused start_failed : StreamError → Bridged
  streams : (run_id : String) → Stream → Bridged

unfoldable pub gateway_stream_run :
    (aborted : Bool)
    → (validate : Option StreamError) → (start_run : Result StreamError String) → List Heard
    → Bridged
unfolding hear_all
gateway_stream_run true validate start_run heard = aborted_before
gateway_stream_run false (some e) start_run heard = refused e
gateway_stream_run false none (err e) heard = start_failed e
gateway_stream_run false none (ok run_id) heard = streams run_id (hear_all heard open_stream)
