-- ===== src/Transport/JsonRpc/Accounts.antt =====
-- Every request that was issued is pending or settled, once.
use cavi_api_client.Base.{
  ℕ, suc, ◌+◌, ◌≤◌, ◌&&◌, ◌≡◌, Bool, true, false, Option, none, some, List, [], ◌∷◌, ◌++◌, Result,
  err, arith, ltb, ◌==◌, if◌then◌else◌, Option-cases, inl, inr, Bool-cases, is_some,
}
use cavi_api_client.Transport.JsonRpc.{
  RequestId, Settlement, Transport, create, take_out, settle, is_settled, fail_if, fail_send,
  reject_all, finish, on_message, request, RequestError, issue, enter, respond, report, on_response,
  or_same, settlement_of, IdField, absent, invalid, valid, rejected, closed_before_completion,
  malformed_response, request_aborted, send_failed, requested, received, signal_aborted,
  sending_failed, channel_closed, listener_added, listener_removed, Event, step, run, Message, Call,
}

abbrev pub count_pending : ℕ → List (RequestId × ℕ) → ℕ
count_pending t [] = 0
count_pending t ((i, u) ∷ rest) = let n = count_pending t rest in if u == t then suc n else n

abbrev pub count_settled : {V : Type 0} → ℕ → List (ℕ × Settlement V) → ℕ
count_settled t [] = 0
count_settled t ((u, how) ∷ rest) = let n = count_settled t rest in if u == t then suc n else n

-- Each ticket that was given out is pending or settled, and only once; no other ticket is either.
abbrev pub Accounted : {V : Type 0} → Transport V → Type 0
Accounted s =
    (t : ℕ)
    → count_pending t s.pending + count_settled t s.settled ≡ (if ltb t s.issued then 1 else 0)

count-take_out :
    (id : RequestId) (pending rest : List (RequestId × ℕ)) (u t : ℕ)
    → take_out id pending ≡ some (u, rest)
    → count_pending t pending
      ≡ (if u == t then suc (count_pending t rest) else count_pending t rest)
unfolding take_out
count-take_out id [] rest u t h = cc
count-take_out id ((i, v) ∷ pending) rest u t h = elim (Option-cases (take_out id pending)) [
  | inl e ↦ ground arith
  | inr ((w, left), e) ↦ ground (arith, count-take_out id pending left w t e)
]

settle-Accounted :
    {V : Type 0} (id : RequestId) (how : Settlement V) (s : Transport V)
    → Accounted s
    → Accounted (settle id how s)
unfolding settle
settle-Accounted id how s a t = elim (Option-cases (take_out id s.pending)) [
  | inl e ↦ rw e (a t)
  | inr ((u, rest), e) ↦ rw e (ground (arith, a t, count-take_out id s.pending rest u t e))
]

count-reject_all :
    {V : Type 0} (pending : List (RequestId × ℕ)) (settled : List (ℕ × Settlement V)) (t : ℕ)
    → count_settled t (reject_all pending settled)
      ≡ count_pending t pending + count_settled t settled
unfolding reject_all
count-reject_all [] settled t = omega arith
count-reject_all ((i, u) ∷ pending) settled t =
    ground (arith, count-reject_all pending ((u, rejected closed_before_completion) ∷ settled) t)

finish-Accounted : {V : Type 0} (s : Transport V) → Accounted s → Accounted (finish s)
unfolding finish
finish-Accounted s a t = ground (arith, a t, count-reject_all s.pending s.settled t)

respond-Accounted :
    {V : Type 0} (id : RequestId) (found : Option (ℕ × List (RequestId × ℕ)))
    (how : Option (Settlement V)) (s : Transport V)
    → Accounted s
    → Accounted (respond id found how s)
unfolding respond report
respond-Accounted id none how s a = a
respond-Accounted id (some found) (some how) s a = settle-Accounted id how s a
respond-Accounted id (some found) none s a = settle-Accounted id (rejected malformed_response) s a

on_response-Accounted :
    {V : Type 0} (m : Message V) (id : IdField) (s : Transport V)
    → Accounted s
    → Accounted (on_response m id s)
unfolding on_response
on_response-Accounted m absent s a = a
on_response-Accounted m invalid s a = a
on_response-Accounted m (valid id) s a =
    respond-Accounted id (take_out id s.pending) (settlement_of m.result m.error) s a

on_message-Accounted :
    {V : Type 0} (m : Message V) (s : Transport V) → Accounted s → Accounted (on_message m s)
unfolding on_message
on_message-Accounted m s a t = ground (arith, a t, on_response-Accounted m m.id s a t)

count-append :
    (id : RequestId) (u t : ℕ) (pending : List (RequestId × ℕ))
    → count_pending t (pending ++ (id, u) ∷ [])
      ≡ count_pending t pending + (if u == t then 1 else 0)
count-append id u t [] = ground arith
count-append id u t ((i, v) ∷ pending) = ground (arith, count-append id u t pending)

issue-Accounted :
    {V : Type 0} (id : RequestId) (s : Transport V) → Accounted s → Accounted (issue id s)
unfolding issue
issue-Accounted id s a t = ground (arith, a t, count-append id s.issued t s.pending)

enter-Accounted :
    {V : Type 0} (throws : Bool) (id : IdField) (s : Transport V)
    → Accounted s
    → Accounted (or_same s (enter throws id s))
unfolding enter
enter-Accounted throws absent s a = a
enter-Accounted throws invalid s a = a
enter-Accounted true (valid id) s a = elim (Bool-cases (is_some (take_out id s.pending))) [
  | inl e ↦ rw e a
  | inr e ↦ rw e (settle-Accounted id (rejected send_failed) (issue id s) (issue-Accounted id s a))
]
enter-Accounted false (valid id) s a = elim (Bool-cases (is_some (take_out id s.pending))) [
  | inl e ↦ rw e a
  | inr e ↦ rw e (issue-Accounted id s a)
]

guarded-Accounted :
    {V : Type 0} (b : Bool) (x : RequestError) (r : Result RequestError (Transport V))
    (s : Transport V)
    → Accounted s
    → Accounted (or_same s r)
    → Accounted (or_same s (if b then err x else r))
guarded-Accounted true x r s a k = a
guarded-Accounted false x r s a k = k

request-Accounted :
    {V : Type 0} (c : Call) (s : Transport V) → Accounted s → Accounted (or_same s (request c s))
unfolding request
request-Accounted c s a =
    guarded-Accounted s.closed _ _ s a
      (guarded-Accounted c.aborted _ _ s a (enter-Accounted c.send_throws c.id s a))

abbrev pub own_ticket : Option (ℕ × List (RequestId × ℕ)) → ℕ → Bool
own_ticket none ticket = true
own_ticket (some (t, rest)) ticket = t == ticket

-- A send fails late where its id is pending for another request by then.
unfoldable pub in_time : {V : Type 0} → Event V → Transport V → Bool
in_time (sending_failed id ticket) s = own_ticket (take_out id s.pending) ticket
in_time _ s = true

unfoldable pub all_in_time : {V : Type 0} → List (Event V) → Transport V → Bool
unfolding in_time
all_in_time [] s = true
all_in_time (e ∷ es) s = in_time e s && all_in_time es (step e s)

is_settled-count :
    {V : Type 0} (t : ℕ) (settled : List (ℕ × Settlement V))
    → is_settled t settled ≡ true
    → 1 ≤ count_settled t settled
unfolding is_settled
is_settled-count t [] h = ground arith
is_settled-count t ((u, how) ∷ rest) h = elim (Bool-cases (is_settled t rest)) [
  | inl e ↦ ground (arith, is_settled-count t rest e)
  | inr e ↦ ground arith
]

-- In time, the request that leaves `pending` is the one whose promise is rejected.
fail-Accounted :
    {V : Type 0} (id : RequestId) (ticket : ℕ) (s : Transport V)
    → in_time (sending_failed id ticket) s ≡ true
    → Accounted s
    → Accounted (fail_send id ticket s)
unfolding fail_send fail_if in_time
fail-Accounted id ticket s timely a t = elim (Option-cases (take_out id s.pending)) [
  | inl e ↦ rw e (a t)
  | inr ((u, rest), e) ↦
      let same : own_ticket (some (u, rest)) ticket ≡ true = rw e at timely in
      let mine = count-take_out id s.pending rest u ticket e in
      elim (Bool-cases (is_settled ticket s.settled)) [
        | inl late ↦ ground (arith, mine, a ticket, is_settled-count ticket s.settled late)
        | inr first ↦ rw (e, first) (ground (arith, a t, count-take_out id s.pending rest u t e))
      ]
]

step-Accounted :
    {V : Type 0} (e : Event V) (s : Transport V)
    → in_time e s ≡ true
    → Accounted s
    → Accounted (step e s)
unfolding step
step-Accounted (requested c) s h a = request-Accounted c s a
step-Accounted (received m) s h a = on_message-Accounted m s a
step-Accounted (signal_aborted id) s h a = settle-Accounted id (rejected request_aborted) s a
step-Accounted (sending_failed id ticket) s h a = fail-Accounted id ticket s h a
step-Accounted channel_closed s h a = finish-Accounted s a
step-Accounted listener_added s h a = a
step-Accounted listener_removed s h a = a

create-Accounted : (V : Type 0) → Accounted (create {V = V})
unfolding create
create-Accounted V t = ground arith

run-Accounted_from :
    {V : Type 0} (es : List (Event V)) (s : Transport V)
    → all_in_time es s ≡ true
    → Accounted s
    → Accounted (run es s)
unfolding run all_in_time
run-Accounted_from [] s h a = a
run-Accounted_from (e ∷ es) s h a =
    run-Accounted_from es (step e s) (ground arith) (step-Accounted e s (ground arith) a)

-- From a new transport on, whatever calls, messages, aborts, failed sends and closings come in
-- whatever order, as long as no send fails after another request took its id: every issued request
-- is either pending or has been settled exactly once, and nothing else is pending or settled.
pub run-Accounted :
    {V : Type 0} (es : List (Event V)) → all_in_time es create ≡ true → Accounted (run es create)
run-Accounted {V} es h = run-Accounted_from es create h (create-Accounted V)

-- Closing an open channel leaves no request behind, as long as no send failed after another request
-- took its id: each issued one is then settled exactly once.
pub run-close_settles :
    {V : Type 0} (es : List (Event V)) (t : ℕ)
    → all_in_time es create ≡ true
    → (run es create).closed ≡ false
    → ((finish (run es create)).pending ≡ [])
      × (count_settled t (finish (run es create)).settled
          ≡ (if ltb t (run es create).issued then 1 else 0))
unfolding finish
run-close_settles es t h open_yet = ground (
  arith,
  run-Accounted es h t,
  count-reject_all (run es create).pending (run es create).settled t,
)
