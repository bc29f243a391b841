-- ===== src/Runtime/RunResults.antt =====
-- src/core/runtime/run-results.ts: the checks that an application puts on a run or a stream.
pub mod Outcomes
mod Tests
use cavi_api_client.Base.{String, Option, none, some, or_else, Result, ok, err, ◌>>=◌}
use cavi_api_client.Runtime.Run.{RunState, completed, failed, cancelled, RunErrorDetails, RunStatus}

pub data RunErrorCode : Type 0 where
  run_failed run_cancelled run_incomplete run_output_missing : RunErrorCode

-- The error keeps the rejected object as its cause.
pub record RunError (A : Type 0) : Type 0 where
  pub code : RunErrorCode
  pub cause : A

unfoldable pub outcome_error_code : Option RunState → RunErrorCode
outcome_error_code (some failed) = run_failed
outcome_error_code (some cancelled) = run_cancelled
outcome_error_code _ = run_incomplete

-- `if (outcome !== "completed") throw …; return value`
completion_check : {A : Type 0} → Option RunState → A → Result (RunError A) A
completion_check (some completed) a = ok a
completion_check outcome a = err (record { code = outcome_error_code outcome; cause = a })

unfoldable pub require_completed_run : RunStatus → Result (RunError RunStatus) RunStatus
unfolding completion_check
require_completed_run run = completion_check (some run.status) run

text_or_missing : {A : Type 0} → Option String → A → Result (RunError A) String
text_or_missing (some text) a = ok text
text_or_missing none a = err (record { code = run_output_missing; cause = a })

unfoldable pub require_run_text : RunStatus → Result (RunError RunStatus) String
unfolding text_or_missing require_completed_run
require_run_text run = do
  narrowed ← require_completed_run run
  text_or_missing (or_else narrowed.output narrowed.response) run

pub record StreamResult : Type 0 where
  pub run_id : Option String
  pub outcome : Option RunState
  pub output : Option String

unfoldable pub require_completed_stream : StreamResult → Result (RunError StreamResult) StreamResult
unfolding completion_check
require_completed_stream stream = completion_check stream.outcome stream

unfoldable pub require_stream_text : StreamResult → Result (RunError StreamResult) String
unfolding text_or_missing require_completed_stream
require_stream_text stream = do
  narrowed ← require_completed_stream stream
  text_or_missing narrowed.output stream
