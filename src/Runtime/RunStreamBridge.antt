-- ===== src/Runtime/RunStreamBridge.antt =====
-- src/core/runtime/control-plane/run-stream-bridge.ts: control-plane events as run-stream events.
-- `JSON.stringify` and `String` of a tool's result are arguments; a
-- caller's handler returns and does not call back.
pub mod Completion
pub mod Memory
mod Tests
use cavi_api_client.Base.{
  ℕ, zero, suc, String, Bool, true, false, Option, none, some, List, [], ◌∷◌, ◌++◌, if◌then◌else◌,
  str_eq, get_or_else, Result, ok, err,
}
use cavi_api_client.Runtime.Run.{RuntimeUsage}
use cavi_api_client.Runtime.RunStream.{
  EventName, ToolCall, ApprovalChoice, once, session, always, deny, Payload, RunStreamEvent,
  name_of, StreamError, mark_non_terminal_stream_error,
}
use cavi_api_client.Runtime.RunStream
use cavi_api_client.Runtime.ControlEvents.{Unknown, Change, ControlEvent}
use cavi_api_client.Runtime.ControlEvents

-- `APPROVAL_CHOICES`
unfoldable pub read_choice : Option String → Option ApprovalChoice
read_choice none = none
read_choice (some text) =
    if str_eq text "once"
    then some once
    else if str_eq text "session"
    then some session
    else if str_eq text "always"
    then some always
    else if str_eq text "deny"
    then some deny
    else none

abbrev pub full_approval_choices : List ApprovalChoice
full_approval_choices = once ∷ session ∷ always ∷ deny ∷ []

abbrev pub keep {ℓ} : {A : Type ℓ} → Option A → List A → List A
keep none rest = rest
keep (some x) rest = x ∷ rest

unfoldable pub valid_choices : List (Option String) → List ApprovalChoice
unfolding read_choice
valid_choices [] = []
valid_choices (c ∷ cs) = keep (read_choice c) (valid_choices cs)

abbrev pub full_if_empty : List ApprovalChoice → List ApprovalChoice
full_if_empty [] = full_approval_choices
full_if_empty (c ∷ cs) = c ∷ cs

unfoldable pub approval_choices : Option (List (Option String)) → List ApprovalChoice
unfolding valid_choices
approval_choices none = full_approval_choices
approval_choices (some choices) = full_if_empty (valid_choices choices)

-- `TERMINAL_RUN_STREAM_EVENTS`
unfoldable pub is_terminal : EventName → Bool
is_terminal RunStream.run_completed = true
is_terminal RunStream.run_failed = true
is_terminal RunStream.run_cancelled = true
is_terminal _ = false

unfoldable pub error_message : Unknown → String
error_message ControlEvents.absent = "run failed"
error_message (ControlEvents.error_instance message) = message
error_message (ControlEvents.other_object (some message) as_string) = message
error_message (ControlEvents.other_object none as_string) = as_string
error_message (ControlEvents.primitive as_string) = as_string

-- The names of the tools by call, the last one set first.
unfoldable pub get : String → List (String × String) → Option String
get key [] = none
get key ((k, v) ∷ rest) = if str_eq k key then some v else get key rest

pub record Translator : Type 0 where
  pub tool_names : List (String × String)
  pub last_usage : Option RuntimeUsage

abbrev pub fresh : Translator
fresh = record { tool_names = []; last_usage = none }

unfoldable pub remember : {A : Type 0} → Translator → Change A → Translator
remember t (ControlEvents.usage_updated usage) = record t { last_usage = some usage }
remember t (ControlEvents.tool_started call name) = record t {
  tool_names = (call, name) ∷ t.tool_names;
}
remember t _ = t

abbrev pub for_run : String → Option Payload → Option RunStreamEvent
for_run run none = none
for_run run (some p) = some (record { run_id = run; payload = p; at = none })

module _ {A : Type 0} (stringify : A → Result String (Option String)) (to_string : A → String) where
  unfoldable pub stringify_tool_result : A → String
  stringify_tool_result result = elim (stringify result) [
    | ok (some text) ↦ text
    | ok none ↦ to_string result
    | err _ ↦ to_string result
  ]

  abbrev pub output_of : Option A → Option String
  output_of none = none
  output_of (some result) = some (stringify_tool_result result)

  abbrev pub tool_call : String → String → RunStream.ToolStatus → Option String → ToolCall
  tool_call call name state output = record {
    id = call;
    name = name;
    status = state;
    event = none;
    input = none;
    output = output;
    error = none;
    duration_ms = none;
    at = none;
  }

  unfoldable pub payload_of : Translator → Change A → Option Payload
  unfolding error_message get approval_choices
  payload_of t (ControlEvents.message_delta d) = some (RunStream.delta d)
  payload_of t ControlEvents.operation_completed =
      some (RunStream.completion none (t.last_usage) none)
  payload_of t (ControlEvents.operation_failed e) = some (RunStream.failure (error_message e) none)
  payload_of t ControlEvents.operation_cancelled = some (RunStream.cancellation none)
  payload_of t (ControlEvents.operation_interrupted reason) = some (RunStream.cancellation reason)
  payload_of t (ControlEvents.tool_started call name) =
      some (RunStream.tool_started (tool_call call name RunStream.running none))
  payload_of t (ControlEvents.tool_completed call result) = some (
      RunStream.tool_completed (
        tool_call call (get_or_else (get call (t.tool_names)) "tool") RunStream.completed
          (output_of result)))
  payload_of t (ControlEvents.approval_requested _ choices) =
      some (RunStream.approval (approval_choices choices))
  payload_of t _ = none

  -- One call of the translator.
  unfoldable pub translate : Translator → ControlEvent A → Translator × Option RunStreamEvent
  unfolding remember payload_of
  translate t e = (remember t (e.change), for_run (e.operation_id) (payload_of t (e.change)))

pub record Handlers : Type 0 where
  pub on_error : Bool
  pub on_complete : Bool

pub record Bridge : Type 0 where
  pub translator : Translator
  pub completed : Bool

abbrev pub subscribed : Bridge
subscribed = record { translator = fresh; completed = false }

-- A frame of the control plane's subscription, and a call of one of the caller's handlers.
pub data Frame (A : Type 0) : Type 0 where
  event_frame : ControlEvent A → Frame A
  error_frame : StreamError → Frame A

pub data Delivery : Type 0 where
  event : RunStreamEvent → Delivery
  error : StreamError → Delivery
  complete : Delivery

abbrev pub completing : Bool → List Delivery
completing true = complete ∷ []
completing false = []

-- The rest of `onEvent`, given whether the event that the translator mapped to is terminal.
abbrev pub hand_on : Handlers → RunStreamEvent → Bool → Translator → Bridge × List Delivery
hand_on h e true t =
    (record { translator = t; completed = true }, event e ∷ completing (h.on_complete))
hand_on h e false t = (record { translator = t; completed = false }, event e ∷ [])

unfoldable pub forward : Handlers → Translator × Option RunStreamEvent → Bridge × List Delivery
unfolding is_terminal
forward h (t, none) = (record { translator = t; completed = false }, [])
forward h (t, some e) = hand_on h e (is_terminal (name_of (e.payload))) t

abbrev pub forward_error : Bool → StreamError → List Delivery
forward_error true e = error (mark_non_terminal_stream_error e) ∷ []
forward_error false e = []

module _ {A : Type 0} (stringify : A → Result String (Option String)) (to_string : A → String)
    (h : Handlers) where
  unfoldable pub on_event : Bool → Translator → ControlEvent A → Bridge × List Delivery
  unfolding translate forward
  on_event true t e = (record { translator = t; completed = true }, [])
  on_event false t e = forward h (translate stringify to_string t e)

  unfoldable pub on_frame : Bridge → Frame A → Bridge × List Delivery
  unfolding on_event
  on_frame b (event_frame e) = on_event (b.completed) (b.translator) e
  on_frame b (error_frame e) = (b, forward_error (h.on_error) e)

  -- All that the handlers are called with.
  unfoldable pub deliveries : Bridge → List (Frame A) → List Delivery
  unfolding on_frame
  deliveries b [] = []
  deliveries b (f ∷ fs) = let (after, calls) = on_frame b f in calls ++ deliveries after fs
