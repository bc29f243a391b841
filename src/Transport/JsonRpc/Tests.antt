-- ===== src/Transport/JsonRpc/Tests.antt =====
-- Two requests, one of which is answered before the channel closes.
use cavi_api_client.Base.{ℕ, none, some, ◌≡◌, refl, false, true, List, [], ◌∷◌, if◌then◌else◌, ltb}
use cavi_api_client.Transport.JsonRpc.{
  RequestId, number, named, valid, Message, Event, requested, received, channel_closed,
  sending_failed, is_settled, Transport, create, run, step, on_message, finish, take_out, resolved,
  rejected, closed_before_completion,
}
use cavi_api_client.Transport.JsonRpc.Accounts.{
  Accounted, all_in_time, in_time, run-Accounted, run-close_settles, count_settled,
}
use cavi_api_client.Transport.JsonRpc.Responses.{answer, on_message_answers}

abbrev asks : RequestId → Event ℕ
asks id = requested (record { aborted = false; id = valid id; send_throws = false })

abbrev answers : RequestId → Message ℕ
answers id = record {
  is_rpc = true;
  method = none;
  params = 0;
  id = valid id;
  result = some 42;
  error = none;
}

abbrev two_requests : List (Event ℕ)
two_requests = asks (number 1) ∷ asks (named "b") ∷ []

abbrev waiting : Transport ℕ
waiting = record {
  pending = (number 1, 0) ∷ (named "b", 1) ∷ [];
  issued = 2;
  settled = [];
  closed = false;
  listeners = 0;
  delivered = [];
  reports = [];
}

both_pending : run two_requests create ≡ waiting
unfolding run step create take_out
both_pending = refl

closing :
    (run (received (answers (number 1)) ∷ channel_closed ∷ []) waiting).settled
    ≡ (1, rejected closed_before_completion) ∷ (0, resolved 42) ∷ []
unfolding run step take_out
closing = refl

-- The send of the first request fails after its answer, when the second one has its id: the second
-- one is pending no more, and never settled.
late_failure :
    run
      (asks (number 1)
        ∷ received (answers (number 1))
        ∷ asks (number 1)
        ∷ sending_failed (number 1) 0
        ∷ channel_closed
        ∷ [])
      create
    ≡ record waiting { pending = []; settled = (0, resolved 42) ∷ []; closed = true }
unfolding run step create take_out is_settled
late_failure = refl

run-Accounted_example : Accounted (run two_requests (create {V = ℕ}))
unfolding all_in_time in_time run step create take_out
run-Accounted_example = run-Accounted two_requests refl

run-close_settles_example :
    ((finish (run two_requests create)).pending ≡ [])
    × (count_settled 1 (finish (run two_requests create)).settled
        ≡ (if ltb 1 (run two_requests (create {V = ℕ})).issued then 1 else 0))
unfolding all_in_time in_time run step create take_out
run-close_settles_example =
    run-close_settles two_requests 1 refl (unfold run step create take_out in refl)

on_message_answers_example :
    ((on_message (answers (named "b")) waiting).pending ≡ (number 1, 0) ∷ [])
    × ((on_message (answers (named "b")) waiting).settled ≡ (1, answer (some 42) none) ∷ [])
    × ((on_message (answers (named "b")) waiting).issued ≡ 2)
on_message_answers_example =
    on_message_answers (answers (named "b")) (named "b") waiting 1 ((number 1, 0) ∷ []) refl
      (refl, refl, refl) (unfold take_out in refl)
