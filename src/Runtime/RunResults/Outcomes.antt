-- ===== src/Runtime/RunResults/Outcomes.antt =====
-- Which runs and streams pass the checks of run-results.ts, and with which code the others fail.
use cavi_api_client.Base.{String, none, some, ok, err, ◌≡◌, ◌≢◌, ◌↔◌, ◌⊎◌, arith}
use cavi_api_client.Runtime.Run.{completed, failed, cancelled, RunStatus}
use cavi_api_client.Runtime.RunResults.{
  RunError, run_failed, run_cancelled, run_incomplete, run_output_missing, outcome_error_code,
  require_run_text, StreamResult, require_stream_text,
}

-- The text of a run, as the contract words it.
abbrev pub HasText : RunStatus → String → Type 0
HasText run text = (run.output ≡ some text) ⊎ ((run.output ≡ none) × (run.response ≡ some text))

-- `requireRunText` returns a text exactly when the run is completed and has that text, the output
-- before the legacy response.
pub require_run_text-eq-ok_iff :
    (run : RunStatus) (text : String)
    → (require_run_text run ≡ ok text) ↔ ((run.status ≡ completed) × HasText run text)
unfolding require_run_text
require_run_text-eq-ok_iff run text = ground arith

-- What a rejected text request says: the run comes back as the cause, and the code tells a failed
-- run, a cancelled run, any other unfinished run and a completed run without text apart.
pub require_run_text_rejects :
    (run : RunStatus) (e : RunError RunStatus)
    → require_run_text run ≡ err e
    → (e.cause ≡ run)
      × (((run.status ≡ failed) × (e.code ≡ run_failed))
          ⊎ ((run.status ≡ cancelled) × (e.code ≡ run_cancelled))
          ⊎ ((run.status ≡ completed)
              × (run.output ≡ none)
              × (run.response ≡ none)
              × (e.code ≡ run_output_missing))
          ⊎ ((run.status ≢ failed)
              × (run.status ≢ cancelled)
              × (run.status ≢ completed)
              × (e.code ≡ run_incomplete)))
unfolding require_run_text outcome_error_code
require_run_text_rejects run e h = grind arith

-- `requireStreamText` returns a text exactly when the outcome is completed and that text was
-- collected.
pub require_stream_text-eq-ok_iff :
    (stream : StreamResult) (text : String)
    → (require_stream_text stream ≡ ok text)
      ↔ ((stream.outcome ≡ some completed) × (stream.output ≡ some text))
unfolding require_stream_text
require_stream_text-eq-ok_iff stream text = ground arith
