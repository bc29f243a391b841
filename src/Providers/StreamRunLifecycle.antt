-- ===== src/Providers/StreamRunLifecycle.antt =====
-- src/providers/stream-run-lifecycle.ts: the tracked bridge, which composes the signal of each call
-- from a controller of its own and the caller's signal, and aborts all live calls on disposal. Calls,
-- their settling, the aborts of the callers' signals and the disposal come in any order.
mod Tracking
mod Tests
use cavi_api_client.Base.{
  ℕ, Bool, true, false, not, ◌&&◌, ◌||◌, ◌==◌, if◌then◌else◌, List, [], ◌∷◌, ◌++◌, map, any,
  get_elem?, set, Option, none, some,
}

-- One call. `aborted` is of its own controller's signal, `composed` of the composed one where there is
-- a caller's signal; the next two say whether a listener is on the two signals that it is made from,
-- and `live` whether the controller is in the live set.
pub record Call : Type 0 where
  pub caller : Option ℕ
  pub aborted : Bool
  pub composed : Bool
  pub on_internal : Bool
  pub on_caller : Bool
  pub live : Bool
  pub settled : Bool

-- `fired` are the callers' signals that were aborted.
pub record Tracker : Type 0 where
  pub disposed : Bool
  pub fired : List ℕ
  pub calls : List Call

unfoldable pub has_fired : List ℕ → Option ℕ → Bool
has_fired fired none = false
has_fired fired (some s) = any (λ f. f == s) fired

-- What the bridge reads of the signal that it is given.
unfoldable pub signal_aborted : Option ℕ → Call → Bool
signal_aborted none c = c.aborted
signal_aborted (some s) c = c.composed

-- `composeTrackedSignal`, on a call whose controller is made.
unfoldable pub compose_tracked_signal : (caller_aborted : Bool) → Option ℕ → Call → Call
compose_tracked_signal caller_aborted none c = c
compose_tracked_signal caller_aborted (some s) c =
    if c.aborted || caller_aborted
    then record c { composed = true }
    else record c { on_internal = true; on_caller = true }

-- A call up to the bridge's own call.
unfoldable pub start : Option ℕ → Tracker → Call
start caller t = compose_tracked_signal (has_fired t.fired caller) caller (record {
  caller = caller;
  aborted = t.disposed;
  composed = false;
  on_internal = false;
  on_caller = false;
  live = not t.disposed;
  settled = false;
})

-- `controller.abort()`, which a listener that is called once hands on.
unfoldable pub abort : Call → Call
abort c =
    if c.aborted
    then c
    else record c { aborted = true; composed = c.composed || c.on_internal; on_internal = false }

-- The abort of a caller's signal, as one call hears it.
unfoldable pub hear : ℕ → Option ℕ → Call → Call
hear s none c = c
hear s (some own) c =
    if s == own && c.on_caller then record c { composed = true; on_caller = false } else c

-- The `finally` block.
unfoldable pub settle : Call → Call
settle c = record c { on_internal = false; on_caller = false; live = false; settled = true }

-- One round of the loop of `disposeAll`, with what `live.clear()` does to the call.
unfoldable pub dispose : Call → Call
dispose c = if c.live then record (abort c) { live = false } else c

unfoldable pub settle_at : ℕ → Option Call → List Call → List Call
settle_at i none calls = calls
settle_at i (some c) calls = set calls i (settle c)

pub data Event : Type 0 where
  called : (caller : Option ℕ) → Event
  settled : (call : ℕ) → Event
  caller_aborted : (signal : ℕ) → Event
  disposed_all : Event

unfoldable pub step : Tracker → Event → Tracker
step t (called caller) = record t { calls = t.calls ++ start caller t ∷ [] }
step t (settled i) = record t { calls = settle_at i (get_elem? t.calls i) t.calls }
step t (caller_aborted s) = record t {
  fired = s ∷ t.fired;
  calls = map (λ c. hear s c.caller c) t.calls;
}
step t disposed_all = record t { disposed = true; calls = map dispose t.calls }

unfoldable pub run : Tracker → List Event → Tracker
run t [] = t
run t (e ∷ es) = run (step t e) es

abbrev pub tracked : Tracker
tracked = record { disposed = false; fired = []; calls = [] }
