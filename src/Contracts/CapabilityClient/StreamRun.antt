-- ===== src/Contracts/CapabilityClient/StreamRun.antt =====
-- src/contracts/capability-client.ts, `streamRun`: what is observed of a stream, and what the call
-- returns when the stream has ended.
pub mod Observed
pub mod Settled
use cavi_api_client.Base.{
  String, Bool, true, false, not, ◌&&◌, ◌||◌, Option, none, some, List, [], ◌∷◌, ◌++◌, is_some,
  if◌then◌else◌, Result, ok, err,
}
use cavi_api_client.Base.Text.{codes, is_empty}
use cavi_api_client.Errors.{Failure, is_text}
use cavi_api_client.Runtime.Run.{RunErrorDetails}
use cavi_api_client.Runtime.RunStream.{RunStreamEvent, Payload, completion, failure, cancellation}
use cavi_api_client.Contracts.Envelope.{
  ContractGap, fallback_gap, aborted, request_aborted, SupportDetail, unimplemented,
}
use cavi_api_client.Contracts.CapabilityResult.{CapabilityResult, live, gap}
use cavi_api_client.Contracts.CapabilitySource
use cavi_api_client.Contracts.CapabilitySource.{
  CapabilityKey, CapabilitySupport, ResolvedCapabilities,
}
use cavi_api_client.Contracts.CapabilityClient.Resolution.{handled}
use cavi_api_client.Contracts.CapabilityClient.{area_of, classified, gap_for, unserved_gap}

pub data Outcome : Type 0 where
  completed failed cancelled : Outcome

pub record RunStreamOutcome : Type 0 where
  pub run_id : Option String
  pub outcome : Option Outcome
  pub error_details : Option RunErrorDetails

-- What the stream does to the call: it tells the run's id, an event or an error. The flag is
-- `isNonTerminalStreamError`.
pub data StreamCall : Type 0 where
  on_run_id : String → StreamCall
  on_event : RunStreamEvent → StreamCall
  on_error : (non_terminal : Bool) → Failure → StreamCall

-- `last_error` is `none` while `sawError` is false; `forwarded` is what the caller's handlers got.
pub record Observation : Type 0 where
  pub run_id : Option String
  pub outcome : Option Outcome
  pub error_details : Option RunErrorDetails
  pub last_error : Option Failure
  pub forwarded : List StreamCall

abbrev pub unobserved : Observation
unobserved = record {
  run_id = none;
  outcome = none;
  error_details = none;
  last_error = none;
  forwarded = [];
}

-- `if (runId === null && id) runId = id`
abbrev pub first_id : Option String → String → Option String
first_id (some known) id = some known
first_id none id = if is_empty (codes id) then none else some id

-- A terminal event sets the outcome and the details; another leaves them.
abbrev pub note_payload : Payload → Observation → Observation
note_payload (completion _ _ _) o = record o { outcome = some completed; error_details = none }
note_payload (failure _ details) o = record o { outcome = some failed; error_details = details }
note_payload (cancellation _) o = record o { outcome = some cancelled; error_details = none }
note_payload _ o = o

abbrev pub forward : StreamCall → Observation → Observation
forward c o = record o { forwarded = o.forwarded ++ c ∷ [] }

-- The wrapped handlers.
unfoldable pub observe : StreamCall → Observation → Observation
observe (on_run_id id) o = record o { run_id = first_id o.run_id id }
observe (on_event e) o =
    forward (on_event e) (note_payload e.payload (record o { run_id = first_id o.run_id e.run_id }))
observe (on_error true e) o = forward (on_error true e) o
observe (on_error false e) o = forward (on_error false e) (record o { last_error = some e })

unfoldable pub observe_all : List StreamCall → Observation → Observation
unfolding observe
observe_all [] o = o
observe_all (c ∷ cs) o = observe_all cs (observe c o)

-- `isAbortError` of the client: the name alone.
abbrev pub is_named_abort : Failure → Bool
is_named_abort e = is_text e.name "AbortError"

-- What the call returns or throws, and the runs whose cancellation it requests.
pub record StreamEnd : Type 0 where
  pub answer : Result Failure (CapabilityResult RunStreamOutcome)
  pub cancel_requests : List String

abbrev pub call : String
call = "client.streamRun()"

-- The cancellation's own result is ignored.
abbrev pub cancelled_run : (has_cancel : Bool) → Option String → Option String
cancelled_run true (some id) = some id
cancelled_run _ _ = none

abbrev pub requests : Option String → List String
requests none = []
requests (some id) = id ∷ []

unfoldable pub aborted_gap : (has_cancel : Bool) → Observation → StreamEnd
unfolding fallback_gap area_of
aborted_gap has_cancel o =
    let run = cancelled_run has_cancel o.run_id in
    record {
      answer = ok (
          gap (
            fallback_gap (area_of CapabilitySource.streaming) call (aborted call run)
              request_aborted none));
      cancel_requests = requests run;
    }

abbrev pub failed_with : Failure → StreamEnd
failed_with e = record {
  answer = classified CapabilitySource.streaming call e;
  cancel_requests = [];
}

abbrev pub succeeded : Observation → StreamEnd
succeeded o = record {
  answer =
      ok
        (live (record { run_id = o.run_id; outcome = o.outcome; error_details = o.error_details }));
  cancel_requests = [];
}

abbrev pub torn_down : (has_cancel : Bool) → Observation → Option Failure → StreamEnd
torn_down has_cancel o none = succeeded o
torn_down has_cancel o (some e) =
    if is_named_abort e then aborted_gap has_cancel o else failed_with e

-- From `await stream(…)` on; `signal_aborted` is read after it.
unfoldable pub settle :
    (has_cancel signal_aborted : Bool)
    → (ending : Result Failure (Unit {0})) → Observation
    → StreamEnd
unfolding aborted_gap classified
settle has_cancel signal_aborted (err e) o =
    if signal_aborted || is_named_abort e then aborted_gap has_cancel o else failed_with e
settle has_cancel signal_aborted (ok _) o =
    if signal_aborted
    then aborted_gap has_cancel o
    else if is_some o.outcome
    then succeeded o
    else torn_down has_cancel o o.last_error

-- `await ensureResolved()`: what the attempt that the call waits for brought, `none` without a
-- resolver.
abbrev pub gate :
    {M : Type 0} → Option (Result Failure (ResolvedCapabilities M)) → Result Failure (Unit {0})
gate none = ok tt
gate (some r) = handled r

module _ (fallback : CapabilitySupport) (available_on : CapabilityKey → List String) where
  -- From the gate on, with the capabilities that are resolved then. `wired` says whether the runtime
  -- client or the bridge streams.
  unfoldable pub stream_gated :
      (resolved : Option CapabilitySupport)
      → (wired has_cancel signal_aborted : Bool) → (calls : List StreamCall)
      → (ending : Result Failure (Unit {0})) → StreamEnd × List StreamCall
  stream_gated resolved wired has_cancel signal_aborted calls ending =
      elim (gap_for fallback available_on resolved CapabilitySource.streaming call) [
        | some g ↦ (record { answer = ok (gap g); cancel_requests = [] }, [])
        | none ↦ elim wired [
          | false ↦ (
            record {
              answer = ok (
                  gap (
                    unserved_gap fallback available_on CapabilitySource.streaming call
                      (unimplemented call)));
              cancel_requests = [];
            },
            [],
          )
          | true ↦
              let o = observe_all calls unobserved in
              (settle has_cancel signal_aborted ending o, o.forwarded)
        ]
      ]

  -- The whole call: `asked` is what the resolver answered, `calls` what the stream does, and
  -- `ending` how it ends. A rejected resolution is thrown.
  unfoldable pub stream_run :
      {M : Type 0}
      → (asked : Option (Result Failure (ResolvedCapabilities M)))
      → (resolved : Option CapabilitySupport) → (wired has_cancel signal_aborted : Bool)
      → (calls : List StreamCall) → (ending : Result Failure (Unit {0}))
      → StreamEnd × List StreamCall
  unfolding stream_gated
  stream_run asked resolved wired has_cancel signal_aborted calls ending = elim (gate asked) [
    | err e ↦ (record { answer = err e; cancel_requests = [] }, [])
    | ok _ ↦ stream_gated resolved wired has_cancel signal_aborted calls ending
  ]
