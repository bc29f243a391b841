-- ===== src/Transport/Lifecycle.antt =====
-- src/core/transport/types.ts and lifecycle.ts: the lifecycle events of a connection. An observer
-- never changes what the transport does, so what is emitted is a list, the latest event first.
use cavi_api_client.Base.{ℕ, Bool, true, false, Option, none, List, [], ◌∷◌, suc}
use cavi_api_client.Transport.Backoff.{Delay}

pub data LifecycleState : Type 0 where
  connecting connected retrying reconnected closed : LifecycleState

-- The kind and the operation of an event are those of its transport.
pub record LifecycleEvent : Type 0 where
  pub state : LifecycleState
  pub attempt : ℕ
  pub delay_ms : Option Delay

abbrev pub event_of : LifecycleState → ℕ → LifecycleEvent
event_of state attempt = record { state = state; attempt = attempt; delay_ms = none }

abbrev pub is_closed : LifecycleState → Bool
is_closed closed = true
is_closed _ = false

abbrev pub count_if : Bool → ℕ → ℕ
count_if true n = suc n
count_if false n = n

-- How often the end of the connection was emitted.
abbrev pub closings : List LifecycleEvent → ℕ
closings [] = 0
closings (e ∷ es) = count_if (is_closed (e.state)) (closings es)
