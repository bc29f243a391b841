-- ===== src/Runtime/RunResults/Tests.antt =====
-- Runs that pass and fail the checks.
use cavi_api_client.Base.{none, some, ok, err, ◌≡◌, refl}
use cavi_api_client.Runtime.Run.{RunState, completed, stopping, RunStatus}
use cavi_api_client.Runtime.RunResults.{
  run_incomplete, require_run_text, outcome_error_code, StreamResult,
}

abbrev run_in : RunState → RunStatus
run_in state = record {
  run_id = "run-1";
  status = state;
  model = none;
  output = none;
  response = some "hello";
  error = none;
  error_details = none;
  usage = none;
  tokens = none;
}

abbrev answered : StreamResult
answered = record { run_id = some "run-1"; outcome = some completed; output = some "" }

legacy_response : require_run_text (run_in completed) ≡ ok "hello"
unfolding require_run_text
legacy_response = refl

still_stopping :
    require_run_text (run_in stopping)
    ≡ err (record { code = run_incomplete; cause = run_in stopping })
unfolding require_run_text outcome_error_code
still_stopping = refl
