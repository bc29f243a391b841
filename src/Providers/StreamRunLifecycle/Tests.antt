-- ===== src/Providers/StreamRunLifecycle/Tests.antt =====
-- Two calls of a tracked bridge, and one that comes after the disposal.
use cavi_api_client.Base.{
  ◌≡◌, refl, ◌⊎◌, true, false, ◌||◌, List, [], ◌∷◌, none, some, get_elem?, map,
}
use cavi_api_client.Providers.StreamRunLifecycle.{
  Call, Event, called, settled, caller_aborted, disposed_all, compose_tracked_signal, start, abort,
  hear, settle, dispose, settle_at, has_fired, signal_aborted, step, run, tracked,
}
use cavi_api_client.Providers.StreamRunLifecycle.Tracking.{run-IsTracked}

abbrev events : List Event
events =
    called (some 7)
    ∷ called (some 8)
    ∷ settled 0
    ∷ caller_aborted 8
    ∷ disposed_all
    ∷ called none
    ∷ []

-- The call that the caller aborted, after the disposal.
abbrev second : Call
second = record {
  caller = some 8;
  aborted = true;
  composed = true;
  on_internal = false;
  on_caller = false;
  live = false;
  settled = false;
}

second-test : get_elem? (run tracked events).calls 1 ≡ some second
unfolding run step start compose_tracked_signal abort hear settle dispose settle_at has_fired
second-test = refl

late-test :
    map (λ c. signal_aborted c.caller c) (run tracked events).calls ≡ false ∷ true ∷ true ∷ []
unfolding run step start compose_tracked_signal abort hear settle dispose settle_at has_fired
    signal_aborted
late-test = refl

run-IsTracked_example :
    (second.settled ≡ false)
      × (signal_aborted (some 8) second
          ≡ ((run tracked events).disposed || has_fired (run tracked events).fired (some 8)))
    ⊎ (second.settled ≡ true)
      × (second.on_internal ≡ false)
      × (second.on_caller ≡ false)
      × (dispose second ≡ second)
run-IsTracked_example = run-IsTracked events 1 second second-test
