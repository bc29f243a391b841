-- ===== src/Runtime/RunStreamBridge/Tests.antt =====
-- Runs of the bridge, and witnesses.
use cavi_api_client.Base.{◌≡◌, refl, String, true, Option, none, some, List, [], ◌∷◌, Result, ok}
use cavi_api_client.Runtime.Run.{RuntimeUsage}
use cavi_api_client.Runtime.RunStream
use cavi_api_client.Runtime.ControlEvents.{Change, ControlEvent, inspect_runtime_event_sequence}
use cavi_api_client.Runtime.ControlEvents
use cavi_api_client.Runtime.RunStreamBridge.{
  fresh, remember, payload_of, approval_choices, valid_choices, read_choice, tool_call, output_of,
  Handlers, subscribed, Frame, event_frame, error_frame, deliveries,
}
use cavi_api_client.Runtime.RunStreamBridge.Completion.{
  deliveries-events, deliveries-completions, events_of, completions, control_events, translate_all,
  through_terminal, at_most_one,
}
use cavi_api_client.Runtime.RunStreamBridge.Memory.{payload_of-tool_completed, remember_all}

abbrev stringify : String → Result String (Option String)
stringify text = ok (some text)

abbrev as_string : String → String
as_string text = text

abbrev listening : Handlers
listening = record { on_error = true; on_complete = true }

abbrev of_run : Change String → Frame String
of_run change = event_frame (record { operation_id = "run"; metadata = ""; change = change })

-- An event after the end, and an error between.
abbrev frames : List (Frame String)
frames =
    of_run (ControlEvents.message_delta "a")
    ∷ error_frame (RunStream.primitive "bad frame")
    ∷ of_run ControlEvents.operation_completed
    ∷ of_run (ControlEvents.message_delta "b")
    ∷ of_run ControlEvents.operation_cancelled
    ∷ []

abbrev spent : RuntimeUsage
spent = record {
  input_tokens = some 3;
  output_tokens = some 5;
  total_tokens = none;
  cache_read_tokens = none;
  cache_write_tokens = none;
  raw = [];
}

approval_choices-test :
    approval_choices (some (some "deny" ∷ none ∷ some "never" ∷ some "once" ∷ []))
    ≡ RunStream.deny ∷ RunStream.once ∷ []
unfolding approval_choices valid_choices read_choice
approval_choices-test = refl

no_choices-test :
    approval_choices (some (some "never" ∷ []))
    ≡ RunStream.once ∷ RunStream.session ∷ RunStream.always ∷ RunStream.deny ∷ []
unfolding approval_choices valid_choices read_choice
no_choices-test = refl

deliveries-events_example :
    events_of (deliveries stringify as_string listening subscribed frames)
    ≡ through_terminal (translate_all stringify as_string fresh (control_events frames))
deliveries-events_example = deliveries-events stringify as_string listening frames

deliveries-completions_example :
    completions (deliveries stringify as_string listening subscribed frames)
    ≡ at_most_one ((inspect_runtime_event_sequence (control_events frames)).terminal_count)
deliveries-completions_example = deliveries-completions stringify as_string listening frames refl

payload_of-tool_completed_example :
    payload_of stringify as_string
      (remember_all {A = String}
        (remember {A = String} fresh (ControlEvents.tool_started "1" "search"))
        (ControlEvents.message_delta "a" ∷ []))
      (ControlEvents.tool_completed "1" (some "found"))
    ≡ some (
        RunStream.tool_completed (
          tool_call stringify as_string "1" "search" RunStream.completed
            (output_of stringify as_string (some "found"))))
payload_of-tool_completed_example =
    payload_of-tool_completed stringify as_string fresh "1" "search"
      (ControlEvents.message_delta "a" ∷ []) (some "found") (refl, tt)
