-- ===== src/Contracts/RunWait/Tests.antt =====
-- A run that completes at its second retrieval.
use cavi_api_client.Base.{ℕ, zero, suc, none, some, ◌≡◌, refl, false, ok, err, arith, inl, inr}
use cavi_api_client.Base.Number.{num}
use cavi_api_client.Runtime.Run.{RunState, running, completed, RunStatus}
use cavi_api_client.Contracts.Envelope.{ContractGap, backend_unavailable, routes_missing}
use cavi_api_client.Contracts.RunWait.{
  Turn, RunWaitResult, observed, gapped, terminal, gap, invalid_options, RunWaitOptions,
  valid_options, wait_for_run, wait_loop, head_check, turn_end, observed_stop_reason,
}
use cavi_api_client.Contracts.RunWait.Waiting.{Ends, wait_for_run-Ends, wait_for_run-Reaches}

abbrev run_in : RunState → RunStatus
run_in state = record {
  run_id = "run-1";
  status = state;
  model = none;
  output = none;
  response = none;
  error = none;
  error_details = none;
  usage = none;
  tokens = none;
}

abbrev turns : ℕ → Turn
turns zero = record { at_head = none; after_pause = none; retrieval = observed (run_in running) }
turns (suc n) = record {
  at_head = none;
  after_pause = none;
  retrieval = observed (run_in completed);
}

abbrev defaults : RunWaitOptions
defaults = record { max_polls = none; poll_interval_ms = none; max_wait_ms = none }

fractional_interval :
    wait_for_run
      (run_in running)
      (record defaults { poll_interval_ms = some (num 1500) })
      false
      turns
    ≡ err invalid_options
unfolding wait_for_run valid_options
fractional_interval = refl

two_polls :
    wait_for_run (run_in running) defaults false turns
    ≡ ok (record { reason = terminal; run = run_in completed; polls = 2 })
two_polls =
    wait_for_run-Reaches (run_in running) (run_in completed) defaults turns 1
      (unfold valid_options in refl) (omega arith) (omega arith) (inr (inl refl))
      (refl, refl, (run_in running, refl, inr (inl refl)), (refl, refl, refl, inl refl, refl))

wait_for_run-Reaches_example :
    wait_for_run (run_in running) defaults false turns
    ≡ ok (record { reason = terminal; run = run_in completed; polls = 2 })
wait_for_run-Reaches_example =
    wait_for_run-Reaches (run_in running) (run_in completed) defaults turns 1
      (unfold valid_options in refl) (omega arith) (omega arith) (inr (inl refl))
      (refl, refl, (run_in running, refl, inr (inl refl)), (refl, refl, refl, inl refl, refl))

wait_for_run-Ends_example :
    Ends 60 (run_in running) turns (record { reason = terminal; run = run_in completed; polls = 2 })
wait_for_run-Ends_example =
    wait_for_run-Ends (run_in running) defaults false turns
      (record { reason = terminal; run = run_in completed; polls = 2 }) two_polls

abbrev missing : ContractGap
missing = record {
  area = "capability:runs";
  expected_contract = "client.getRun()";
  note = routes_missing;
  reason = backend_unavailable;
  http_status = none;
}

abbrev gap_turns : ℕ → Turn
gap_turns n = record { at_head = none; after_pause = none; retrieval = gapped missing }

abbrev stopped_at_gap : RunWaitResult
stopped_at_gap = record { reason = gap missing; run = run_in running; polls = 1 }

at_the_gap : wait_for_run (run_in running) defaults false gap_turns ≡ ok stopped_at_gap
unfolding wait_for_run valid_options wait_loop head_check turn_end observed_stop_reason
at_the_gap = refl
