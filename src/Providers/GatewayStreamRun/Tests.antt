-- ===== src/Providers/GatewayStreamRun/Tests.antt =====
-- Runs of a streamed run, and witnesses.
use cavi_api_client.Base.{◌⊎◌, ◌≡◌, refl, true, false, none, some, List, [], ◌∷◌, ◌++◌, ok}
use cavi_api_client.Runtime.RunStream.{RunStreamEvent, delta, completion, object, primitive}
use cavi_api_client.Providers.GatewayStreamRun.{
  Heard, event, error, completed, aborted, subscribed, open_stream, hear_all, hear, hear_event,
  hear_error, finish, fire_complete, is_terminal, on_event, on_error, on_complete,
  gateway_stream_run, aborted_before, resolved,
}
use cavi_api_client.Providers.GatewayStreamRun.Settling.{
  Open, Closed, hear_all-Settles, hear_all-settled, hear_all-Silent, any_ends,
}

abbrev text : RunStreamEvent
text = record { run_id = "1"; payload = delta "a"; at = none }

abbrev ending : RunStreamEvent
ending = record { run_id = "1"; payload = completion none none none; at = none }

-- A frame's error, the end, and an error and a completion after it.
abbrev heard : List Heard
heard =
    event text
    ∷ error (some (object false true "frame"))
    ∷ event ending
    ∷ subscribed
    ∷ error (some (primitive "late"))
    ∷ completed
    ∷ []

hear_all-test : hear_all heard open_stream ≡ record {
  settled = true;
  complete_fired = true;
  subscription = true;
  disposals = 1;
  calls =
      on_complete
      ∷ on_event ending
      ∷ on_error (some (object false true "frame"))
      ∷ on_event text
      ∷ [];
  settlements = resolved ∷ [];
}
unfolding hear_all hear hear_event hear_error finish fire_complete is_terminal
hear_all-test = refl

already_aborted-test : gateway_stream_run true none (ok "1") heard ≡ aborted_before
unfolding gateway_stream_run
already_aborted-test = refl

hear_all-Settles_example : Open (hear_all heard open_stream) ⊎ Closed (hear_all heard open_stream)
hear_all-Settles_example = hear_all-Settles heard

hear_all-settled_example : (hear_all heard open_stream).settled ≡ any_ends heard
hear_all-settled_example = hear_all-settled heard

hear_all-Silent_example :
    ((hear_all ((aborted ∷ []) ++ heard) open_stream).calls
      ≡ (hear_all (aborted ∷ []) open_stream).calls)
    × ((hear_all ((aborted ∷ []) ++ heard) open_stream).settlements
        ≡ (hear_all (aborted ∷ []) open_stream).settlements)
unfolding hear_all hear finish
hear_all-Silent_example = hear_all-Silent (aborted ∷ []) heard refl
