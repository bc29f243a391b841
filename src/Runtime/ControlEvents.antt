-- ===== src/Runtime/ControlEvents.antt =====
-- src/core/runtime/control-plane/events.ts: the events of a control plane, and the inspection of a
-- sequence of them. A value that the source leaves unknown is an argument of the types.
use cavi_api_client.Base.{ℕ, suc, String, Bool, true, false, Option, List, [], ◌∷◌, ◌==◌}
use cavi_api_client.Runtime.Run.{RuntimeUsage}

-- An error of unknown type: nothing, an `Error`, another object with its `message` where that is a
-- string and its `String` form, or a primitive's `String` form.
pub data Unknown : Type 0 where
  absent : Unknown
  error_instance : (message : String) → Unknown
  other_object : (message : Option String) (as_string : String) → Unknown
  primitive : (as_string : String) → Unknown

-- What the events of each name carry. Of an approval request the `choices` are read, where they are
-- an array: of a member the text, where it is a string.
pub data Change (A : Type 0) : Type 0 where
  operation_started : Change A
  operation_updated : (update : A) → Change A
  message_delta reasoning_delta : (delta : String) → Change A
  tool_started : (tool_call_id tool_name : String) → Change A
  tool_progress : (tool_call_id : String) (progress : A) → Change A
  tool_completed : (tool_call_id : String) (result : Option A) → Change A
  approval_requested : (approval_id : String) (choices : Option (List (Option String))) → Change A
  approval_resolved : (approval_id : String) (approved : Bool) → Change A
  usage_updated : (usage : RuntimeUsage) → Change A
  stream_reconnected : (cursor : Option String) → Change A
  stream_gap : (reason : String) → Change A
  operation_completed : Change A
  operation_failed : (error : Unknown) → Change A
  operation_cancelled : Change A
  operation_interrupted : (reason : Option String) → Change A

pub record ControlEvent (A : Type 0) : Type 0 where
  pub operation_id : String
  pub metadata : A
  pub change : Change A

-- `TERMINAL_EVENT_NAMES`
unfoldable pub ends_operation : {A : Type 0} → Change A → Bool
ends_operation operation_completed = true
ends_operation (operation_failed _) = true
ends_operation operation_cancelled = true
ends_operation (operation_interrupted _) = true
ends_operation _ = false

unfoldable pub is_gap : {A : Type 0} → Change A → Bool
is_gap (stream_gap _) = true
is_gap _ = false

pub record Inspection : Type 0 where
  pub valid : Bool
  pub terminal_count : ℕ
  pub gaps : ℕ

abbrev pub count_if : Bool → ℕ → ℕ
count_if true n = suc n
count_if false n = n

unfoldable pub terminals : {A : Type 0} → List (ControlEvent A) → ℕ
unfolding ends_operation
terminals [] = 0
terminals (e ∷ es) = count_if (ends_operation (e.change)) (terminals es)

unfoldable pub gap_count : {A : Type 0} → List (ControlEvent A) → ℕ
unfolding is_gap
gap_count [] = 0
gap_count (e ∷ es) = count_if (is_gap (e.change)) (gap_count es)

unfoldable pub inspect_runtime_event_sequence : {A : Type 0} → List (ControlEvent A) → Inspection
inspect_runtime_event_sequence events = record {
  valid = terminals events == 1;
  terminal_count = terminals events;
  gaps = gap_count events;
}
