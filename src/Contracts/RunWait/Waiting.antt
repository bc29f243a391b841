-- ===== src/Contracts/RunWait/Waiting.antt =====
-- How a wait ends: within its polls, with the last run that was observed, for a reason that holds.
use cavi_api_client.Base.{ℕ, zero, suc, ◌+◌, ◌≤◌, ◌≡◌, ◌⊎◌, none, Bool, true, false, ok, arith, ◌<◌}
use cavi_api_client.Base.Number.{whole}
use cavi_api_client.Runtime.Run.{
  completed, failed, cancelled, started, running, stopping, RunStatus,
}
use cavi_api_client.Contracts.RunWait.{
  terminal, poll_limit, RunWaitResult, Turn, observed, observed_stop_reason, head_check, turn_end,
  wait_loop, RunWaitOptions, or_default, valid_options, wait_for_run,
}

-- The run that the caller knows after a number of retrievals: the last one that was observed.
abbrev pub known : RunStatus → (ℕ → Turn) → ℕ → RunStatus
known initial turns zero = initial
known initial turns (suc k) = elim (turns k).retrieval [
  | observed run ↦ run
  | _ ↦ known initial turns k
]

abbrev pub IsTerminal : RunStatus → Type 0
IsTerminal run = (run.status ≡ completed) ⊎ (run.status ≡ failed) ⊎ (run.status ≡ cancelled)

abbrev pub IsPollable : RunStatus → Type 0
IsPollable run = (run.status ≡ started) ⊎ (run.status ≡ running) ⊎ (run.status ≡ stopping)

-- How a stopped wait of at most `most` polls may end.
pub record Ends (most : ℕ) (initial : RunStatus) (turns : ℕ → Turn) (r : RunWaitResult)
    : Type 0 where
  pub within : r.polls ≤ most
  pub latest : r.run ≡ known initial turns r.polls
  pub at_terminal : r.reason ≡ terminal → IsTerminal r.run
  pub at_limit : r.reason ≡ poll_limit → (r.polls ≡ most) × IsPollable r.run

wait_loop-Ends :
    (left : ℕ) (initial : RunStatus) (turns : ℕ → Turn) (polls : ℕ) (r : RunWaitResult)
    → wait_loop left turns (known initial turns polls) polls ≡ ok r
    → Ends (polls + left) initial turns r
unfolding wait_loop head_check observed_stop_reason turn_end
wait_loop-Ends zero initial turns polls r h = ground arith
wait_loop-Ends (suc left) initial turns polls r h =
    ground (arith, wait_loop-Ends left initial turns (suc polls) r)

-- Whatever the signals and the retrievals do, a wait that returns made at most the polls that the
-- options allow, returns the last run that it observed, says `terminal` only of a completed,
-- failed or cancelled run, and `poll-limit` only of a pollable run after all its polls.
pub wait_for_run-Ends :
    (run : RunStatus) (o : RunWaitOptions) (before : Bool) (turns : ℕ → Turn) (r : RunWaitResult)
    → wait_for_run run o before turns ≡ ok r
    → Ends (whole (or_default o.max_polls 60)) run turns r
unfolding wait_for_run observed_stop_reason
wait_for_run-Ends run o before turns r h =
    ground (arith, wait_loop-Ends (whole (or_default o.max_polls 60)) run turns 0 r)

-- Uninterrupted turns from number `polls` on: `k` of them observe pollable runs, and the next one
-- the given terminal run.
abbrev pub Reaches : ℕ → (ℕ → Turn) → ℕ → RunStatus → Type 0
Reaches zero turns polls last =
    ((turns polls).at_head ≡ none)
    × ((turns polls).after_pause ≡ none)
    × ((turns polls).retrieval ≡ observed last)
    × IsTerminal last
    × ((turns (suc polls)).at_head ≡ none)
Reaches (suc k) turns polls last =
    ((turns polls).at_head ≡ none)
    × ((turns polls).after_pause ≡ none)
    × ((next : RunStatus) × ((turns polls).retrieval ≡ observed next) × IsPollable next)
    × Reaches k turns (suc polls) last

wait_loop-Reaches :
    (k left : ℕ) (turns : ℕ → Turn) (run : RunStatus) (polls : ℕ) (last : RunStatus)
    → k < left
    → IsPollable run
    → Reaches k turns polls last
    → wait_loop left turns run polls
      ≡ ok (record { reason = terminal; run = last; polls = suc (polls + k) })
unfolding wait_loop head_check observed_stop_reason turn_end
wait_loop-Reaches k zero turns run polls last h p q = absurd (omega arith)
wait_loop-Reaches zero (suc zero) turns run polls last h p q = ground arith
wait_loop-Reaches zero (suc (suc left)) turns run polls last h p q = ground arith
wait_loop-Reaches (suc k) (suc left) turns run polls last h p q =
    let (next, seen, more) = q.2 in
    ground (arith, wait_loop-Reaches k left turns next (suc polls) last (omega arith) more q.3)

-- A wait with valid options and a time budget ends with the terminal run that the client observes,
-- after as many polls as that took, when it has more polls than pollable runs come before it and
-- nothing interrupts it.
pub wait_for_run-Reaches :
    (run last : RunStatus) (o : RunWaitOptions) (turns : ℕ → Turn) (k : ℕ)
    → valid_options o ≡ true
    → 0 < whole (or_default o.max_wait_ms 60000)
    → k < whole (or_default o.max_polls 60)
    → IsPollable run
    → Reaches k turns 0 last
    → wait_for_run run o false turns ≡ ok (record { reason = terminal; run = last; polls = suc k })
unfolding wait_for_run observed_stop_reason
wait_for_run-Reaches run last o turns k v w l p q =
    ground (arith, wait_loop-Reaches k (whole (or_default o.max_polls 60)) turns run 0 last l p q)
