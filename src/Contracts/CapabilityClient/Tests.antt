-- ===== src/Contracts/CapabilityClient/Tests.antt =====
-- Runs of a client and of streaming calls, and witnesses.
use mathlib.Core.List.{head?, get_last?}
use cavi_api_client.Base.{
  ℕ, String, ◌≤◌, ◌≡◌, ◌≢◌, ◌↔◌, ◌⊎◌, refl, Bool, true, false, Option, none, some, List, [], ◌∷◌,
  Result, ok, err, All,
}
use cavi_api_client.Base.Text.{codes, is_blank}
use cavi_api_client.Errors.{
  error, Failure, read_string, get_error_code, get_error_type, get_error_status, is_auth_error,
}
use cavi_api_client.Runtime.RunStream.{RunStreamEvent, delta, completion}
use cavi_api_client.Contracts.Envelope.{ContractGap, request_aborted}
use cavi_api_client.Contracts.CapabilityResult.{live, gap, classify_capability_failure}
use cavi_api_client.Contracts.CapabilitySource
use cavi_api_client.Contracts.CapabilitySource.{
  ResolvedCapabilities, CapabilityKey, CapabilitySupport, merge_capability_support,
  resolved_supports,
}
use cavi_api_client.Contracts.CapabilityClient.{classified, gap_for, invoke}
use cavi_api_client.Contracts.CapabilityClient.Memo.{join, settle, forget}
use cavi_api_client.Contracts.CapabilityClient.Resolution.{ensure, refresh, attempt_settles}
use cavi_api_client.Contracts.CapabilityClient.Calls.{
  control_plane, Call, Options, ClientEvent, called, refreshed, resolver_settled, factory_settled,
  resumed, method_settled, resume, method_settles, start, factory_settles, step, run, create,
}
use cavi_api_client.Contracts.CapabilityClient.Calls.Gating.{Declared, run-Declared}
use cavi_api_client.Contracts.CapabilityClient.Calls.Waiting.{pending, Kept}
use cavi_api_client.Contracts.CapabilityClient.Calls.Factories.{run-Shared}
use cavi_api_client.Contracts.CapabilityClient.StreamRun.{
  completed, RunStreamOutcome, StreamCall, on_run_id, on_event, on_error, unobserved, observe_all,
  is_named_abort, cancelled_run, requests, stream_run, stream_gated, gate, settle as settle_stream,
}
use cavi_api_client.Contracts.CapabilityClient.StreamRun.Observed.{
  ids_of, terminals, faults, outcome_of, details_of, observed, observe_all_lem,
}
use cavi_api_client.Contracts.CapabilityClient.StreamRun.Settled.{
  Rethrown, Aborted, declared, stream_run-live_iff, stream_run-cancels, stream_run-throws,
}

abbrev fault : (name code : String) → Failure
fault name code = record {
  class = error;
  name = some name;
  type = none;
  code = some code;
  status = none;
  message = codes "no";
  rendered = codes "{}";
  as_string = codes "Error: no";
}

abbrev down : Failure
down = fault "Error" "backend_unavailable"

abbrev denied : Failure
denied = fault "Error" "auth_required"

abbrev everything : CapabilitySupport
everything key = some true

abbrev nowhere : CapabilityKey → List String
nowhere key = []

abbrev options : Options Bool
options = record {
  fallback = everything;
  available_on = nowhere;
  has_resolver = false;
  wired = λ k. true;
  has = λ t call. t;
  implements = λ call. true;
}

abbrev list_models : Call
list_models = record {
  key = CapabilitySource.models;
  text = "client.models.list()";
  property = "list";
}

-- Two calls share a factory that fails; the third makes another, and its method returns.
abbrev retried : List (ClientEvent Bool Bool ℕ)
retried =
    called list_models
    ∷ called list_models
    ∷ resumed 0
    ∷ resumed 1
    ∷ factory_settled control_plane 0 (err down)
    ∷ resumed 0
    ∷ called list_models
    ∷ resumed 2
    ∷ resumed 1
    ∷ factory_settled control_plane 1 (ok true)
    ∷ resumed 2
    ∷ method_settled 2 (ok 7)
    ∷ []

retried-test :
    ((run options retried create).invoked ≡ CapabilitySource.models ∷ [])
    × (((run options retried create).memos control_plane).promises
        ≡ some (err down) ∷ some (ok true) ∷ [])
    × (((run options retried create).memos control_plane).current ≡ some 1)
unfolding run step start resume method_settles factory_settles ensure gap_for resolved_supports
    merge_capability_support join settle forget invoke classified classify_capability_failure
    read_string is_blank get_error_code get_error_type get_error_status is_auth_error
retried-test = (refl, refl, refl)

run-Shared_example :
    (pending (((run options retried create).memos control_plane).promises) ≤ 1)
    × Kept
        ((run options retried create).memos control_plane)
        ((run options retried create).calls)
        control_plane
        (((run options retried create).memos control_plane).current)
run-Shared_example = run-Shared options retried control_plane

run-Declared_example :
    All
      (Declared everything (run options retried create).resolution.found)
      (run options retried create).invoked
run-Declared_example = run-Declared options retried

-- The first attempt fails after a refresh has succeeded, and drops what the refresh brought.
abbrev late : List (ClientEvent Bool Bool ℕ)
late =
    called list_models
    ∷ refreshed
    ∷ resolver_settled 1 (ok (record { supports = everything; manifest = some true }))
    ∷ resolver_settled 0 (err down)
    ∷ []

late-test :
    ((run (record options { has_resolver = true }) late create).resolution.resolved ≡ none)
    × ((run (record options { has_resolver = true }) late create).resolution.attempt.current
        ≡ some 1)
unfolding run step start ensure refresh attempt_settles join settle read_string is_blank
    get_error_code get_error_type get_error_status is_auth_error
late-test = (refl, refl)

abbrev done : RunStreamEvent
done = record { run_id = "r2"; payload = completion none none none; at = none }

abbrev some_text : RunStreamEvent
some_text = record { run_id = ""; payload = delta "hi"; at = none }

-- The bridge tells the id; a malformed frame and a terminal error come before the terminal event.
abbrev finished : List StreamCall
finished =
    on_run_id "r1"
    ∷ on_event some_text
    ∷ on_error true down
    ∷ on_error false down
    ∷ on_event done
    ∷ []

abbrev cut_off : List StreamCall
cut_off = on_run_id "r1" ∷ on_event some_text ∷ on_error false denied ∷ []

abbrev quiet : Result Failure (Unit {0})
quiet = ok tt

observe_all_lem_example : observe_all finished unobserved ≡ observed finished
observe_all_lem_example = observe_all_lem finished

observed-test :
    ((observed finished).run_id ≡ some "r1")
    × ((observed finished).outcome ≡ some completed)
    × ((observed finished).last_error ≡ some down)
observed-test = (refl, refl, refl)

abbrev finished_outcome : RunStreamOutcome
finished_outcome = record { run_id = some "r1"; outcome = some completed; error_details = none }

abbrev no_resolver : Option (Result Failure (ResolvedCapabilities (Unit {0})))
no_resolver = none

stream_run-live_iff_example :
    (((stream_run everything nowhere no_resolver none true true false finished quiet).0).answer
      ≡ ok (live finished_outcome))
    ↔ ((gate no_resolver ≡ ok tt)
        × (declared everything nowhere no_resolver none true true false finished quiet ≡ true)
        × (true ≡ true)
        × (quiet ≡ ok tt)
        × (false ≡ false)
        × ((outcome_of (get_last? (terminals finished)) ≢ none)
            ⊎ (get_last? (faults finished) ≡ none))
        × (finished_outcome ≡ record {
          run_id = head? (ids_of finished);
          outcome = outcome_of (get_last? (terminals finished));
          error_details = details_of (get_last? (terminals finished));
        }))
stream_run-live_iff_example =
    stream_run-live_iff everything nowhere no_resolver none true true false finished quiet
      finished_outcome

all_declared : resolved_supports everything none CapabilitySource.streaming ≡ true
unfolding resolved_supports
all_declared = refl

-- The caller aborts after the id is known.
stream_run-cancels_example :
    (Aborted true quiet (observed cut_off)
      × ((g : ContractGap) × (((stream_run everything nowhere no_resolver none true true true
                cut_off quiet).0
              ).answer
            ≡ ok (gap g))
          × (g.reason ≡ request_aborted)
          × (((stream_run everything nowhere no_resolver none true true true cut_off quiet).0
                ).cancel_requests
              ≡ requests (cancelled_run true (head? (ids_of cut_off))))))
    ⊎ ((¬ Aborted true quiet (observed cut_off))
        × (((stream_run everything nowhere no_resolver none true true true cut_off quiet).0
              ).cancel_requests
            ≡ []))
stream_run-cancels_example =
    stream_run-cancels everything nowhere no_resolver none true true true cut_off quiet refl
      all_declared refl

cut_off_throws :
    ((stream_run everything nowhere no_resolver none true true false cut_off quiet).0).answer
    ≡ err denied
unfolding stream_run stream_gated settle_stream gap_for resolved_supports observe_all classified
    classify_capability_failure read_string is_blank get_error_code get_error_type get_error_status
    is_auth_error
cut_off_throws = refl

-- The stream tells an authentication error and ends.
stream_run-throws_example :
    ((no_resolver ≡ some (err denied)) × (is_auth_error denied ≡ true))
    ⊎ ((gate no_resolver ≡ ok tt)
        × ((quiet ≡ err denied)
            ⊎ ((quiet ≡ ok tt)
                × (outcome_of (get_last? (terminals cut_off)) ≡ none)
                × (get_last? (faults cut_off) ≡ some denied)))
        × (false ≡ false)
        × (is_named_abort denied ≡ false)
        × Rethrown denied)
stream_run-throws_example =
    stream_run-throws everything nowhere no_resolver none true true false cut_off quiet denied
      cut_off_throws

abbrev rejecting : Option (Result Failure (ResolvedCapabilities (Unit {0})))
rejecting = some (err denied)

-- The resolver rejects with an authentication error.
rejected_resolver-test :
    ((stream_run everything nowhere rejecting none true true false finished quiet).0).answer
    ≡ err denied
unfolding stream_run read_string is_blank get_error_code get_error_type get_error_status
    is_auth_error
rejected_resolver-test = refl
