-- ===== src/Contracts/CapabilityClient/Calls/Factories.antt =====
-- A backend's factory: one at a time, kept by the memo only while it serves or calls wait for it.
use cavi_api_client.Base.{
  ℕ, ◌≤◌, ◌≡◌, ◌≢◌, ◌⊎◌, refl, inl, inr, Bool, true, false, ◌&&◌, Option, none, some, List, [], ◌∷◌,
  any, get_elem?, ◌==◌, Result, ok, err, arith, Bool-cases, Option-cases, if◌then◌else◌,
}
use cavi_api_client.Errors.{Failure}
use cavi_api_client.Contracts.Envelope.{ContractGap}
use cavi_api_client.Contracts.CapabilityClient.Memo.{join, result_of}
use cavi_api_client.Contracts.CapabilityClient.Memo.Single.{
  IsSingle, join-IsSingle, settle-IsSingle, forget-IsSingle,
}
use cavi_api_client.Contracts.CapabilityClient.Resolution.{Resolution, awaited}
use cavi_api_client.Contracts.CapabilityClient.Calls.{
  Slot, same_slot, Route, runtime, backend, route_of, Call, Stage, gating, resolving, invoking,
  returned, Entry, Options, Client, ClientEvent, called, refreshed, resolver_settled,
  factory_settled, resumed, method_settled, put, start_method, wait_for_backend, proceed, at_gate,
  pass_gate, enter_backend, continue, resume, end_method, method_settles, start, start_route,
  factory_settles, step, run, create,
}
use cavi_api_client.Contracts.CapabilityClient.Calls.Waiting.{
  any-append, any-set, any-set_new, eq_of_same_slot, waits, join-current, forget-current,
  forget-promises, settle-current, settle-ok, Elsewhere, pending, pending-le, Kept, came_or_not,
}

module _ {M T V : Type 0} (o : Options T) where
  -- Of every backend: one promise at most is pending, the memo's; and the memo's promise has
  -- brought the backend, or a call waits for it.
  record IsShared (c : Client M T V) : Type 0 where
    single : (k : Slot) → IsSingle (c.memos k)
    waited :
        (k : Slot) (p : ℕ)
        → (c.memos k).current ≡ some p
        → ((t : T) → result_of p (c.memos k) ≢ some (ok t))
        → any (λ e. waits k p (e.stage)) c.calls ≡ true

  -- A call that waits for no backend, or for one that has come, goes on.
  put-IsShared :
      (i : ℕ) (e : Entry V) (s : Stage V) (c : Client M T V)
      → get_elem? c.calls i ≡ some e
      → ((k : Slot) (p : ℕ)
          → (waits k p e.stage ≡ false) ⊎ ((t : T) × (result_of p (c.memos k) ≡ some (ok t))))
      → IsShared c
      → IsShared (put o i e s c)
  put-IsShared i e s c at free v = record {
    single = v.single;
    waited = λ k p h n. elim (free k p) [
      | inl f ↦
          any-set (λ x. waits k p (x.stage)) c.calls i e (record e { stage = s }) at f
            (v.waited k p h n)
      | inr (t, r) ↦ absurd (n t r)
    ];
  }

  -- What has been invoked does not matter.
  start_method-IsShared :
      (i : ℕ) (e : Entry V) (c : Client M T V)
      → IsShared (put o i e invoking c)
      → IsShared (start_method o i e c)
  start_method-IsShared i e c v = record { single = v.single; waited = v.waited }

  if-IsShared :
      (b : Bool) (c c' : Client M T V) → IsShared c → IsShared c' → IsShared (if b then c else c')
  if-IsShared true c c' v v' = v
  if-IsShared false c c' v v' = v'

  wait_for_backend-IsShared :
      (i : ℕ) (e : Entry V) (k : Slot) (c : Client M T V)
      → get_elem? c.calls i ≡ some e
      → Elsewhere e
      → IsShared c
      → IsShared (wait_for_backend o i e k c)
  wait_for_backend-IsShared i e k c at free v = record {
    single = λ j. elim (Bool-cases (same_slot j k)) [
      | inl h ↦ rw h (join-IsSingle (c.memos k) (v.single k))
      | inr h ↦ rw h (v.single j)
    ];
    waited = λ j p h n. elim (Bool-cases (same_slot j k)) [
      | inl same ↦
          let h' = rw same at h in
          let now : (join (c.memos k)).0 ≡ p = ground (arith, join-current (c.memos k)) in
          any-set_new (λ x. waits j p (x.stage)) c.calls i e
            (record e { stage = resolving k ((join (c.memos k)).0) }) at (ground arith)
      | inr other ↦
          any-set (λ x. waits j p (x.stage)) c.calls i e _ at (free j p)
            (v.waited j p (rw other at h) (λ t. rw other at (n t)))
    ];
  }

  entered-IsShared :
      (i : ℕ) (e : Entry V) (k : Slot) (p : ℕ) (r : Option (Result Failure T)) (c : Client M T V)
      → get_elem? c.calls i ≡ some e
      → e.stage ≡ resolving k p
      → result_of p (c.memos k) ≡ r
      → IsShared c
      → IsShared (enter_backend o i e k p r c)
  entered-IsShared i e k p none c at here q v = v
  entered-IsShared i e k p (some (err f)) c at here q v = record {
    single = λ j. elim (Bool-cases (same_slot j k)) [
      | inl h ↦ rw h (forget-IsSingle (c.memos k) p (err f) q (v.single k))
      | inr h ↦ rw h (v.single j)
    ];
    waited = λ j q' h n. elim (Bool-cases (same_slot j k)) [
      | inl same ↦
          let h' = rw same at h in
          let (kept, newer) = forget-current (c.memos k) p q' h' in
          let jk = eq_of_same_slot j k same in
          rw jk (
            any-set (λ x. waits k q' (x.stage)) c.calls i e _ at (rw here (ground arith))
              (v.waited k q' kept (λ t r. n t (rw same (rw (forget-promises (c.memos k) p) r)))))
      | inr other ↦
          any-set (λ x. waits j q' (x.stage)) c.calls i e _ at (rw here (ground arith))
            (v.waited j q' (rw other at h) (λ t. rw other at (n t)))
    ];
  }
  entered-IsShared i e k p (some (ok t)) c at here q v =
      if-IsShared (o.has t e.call) _ _
        (start_method-IsShared i e c (put-IsShared i e _ c at came v))
        (put-IsShared i e _ c at came v)
    where
      came :
          (j : Slot) (p' : ℕ)
          → (waits j p' e.stage ≡ false) ⊎ ((t' : T) × (result_of p' (c.memos j) ≡ some (ok t')))
      came j p' = elim (Bool-cases (same_slot k j && p == p')) [
        | inl h ↦
            let jk = eq_of_same_slot k j (ground arith) in
            let pp : p ≡ p' = ground arith in inr (t, rw (← jk, ← pp) q)
        | inr h ↦ inl (rw here h)
      ]

  moved-IsShared :
      (i : ℕ) (e : Entry V) (s : Stage V) (c : Client M T V)
      → get_elem? c.calls i ≡ some e
      → Elsewhere e
      → IsShared c
      → IsShared (put o i e s c)
  moved-IsShared i e s c at free v = put-IsShared i e s c at (λ k p. inl (free k p)) v

  proceed-IsShared :
      (i : ℕ) (e : Entry V) (r : Route) (c : Client M T V)
      → get_elem? c.calls i ≡ some e
      → Elsewhere e
      → IsShared c
      → IsShared (proceed o i e r c)
  proceed-IsShared i e runtime c at free v =
      if-IsShared (o.implements e.call) _ _
        (start_method-IsShared i e c (moved-IsShared i e _ c at free v))
        (moved-IsShared i e _ c at free v)
  proceed-IsShared i e (backend k) c at free v =
      if-IsShared (o.wired k) _ _ (wait_for_backend-IsShared i e k c at free v)
        (moved-IsShared i e _ c at free v)

  at_gate-IsShared :
      (i : ℕ) (e : Entry V) (g : Option ContractGap) (c : Client M T V)
      → get_elem? c.calls i ≡ some e
      → Elsewhere e
      → IsShared c
      → IsShared (at_gate o i e g c)
  at_gate-IsShared i e (some g) c at free v = moved-IsShared i e _ c at free v
  at_gate-IsShared i e none c at free v = proceed-IsShared i e e.route c at free v

  pass_gate-IsShared :
      (i : ℕ) (e : Entry V) (a : Option (Result Failure (Unit {0}))) (c : Client M T V)
      → get_elem? c.calls i ≡ some e
      → Elsewhere e
      → IsShared c
      → IsShared (pass_gate o i e a c)
  pass_gate-IsShared i e none c at free v = v
  pass_gate-IsShared i e (some (err f)) c at free v = moved-IsShared i e _ c at free v
  pass_gate-IsShared i e (some (ok _)) c at free v = at_gate-IsShared i e _ c at free v

  continue-IsShared :
      (i : ℕ) (e : Entry V) (s : Stage V) (c : Client M T V)
      → get_elem? c.calls i ≡ some e
      → e.stage ≡ s
      → IsShared c
      → IsShared (continue o i e s c)
  continue-IsShared i e (gating a) c at here v =
      pass_gate-IsShared i e (awaited a c.resolution) c at (λ k p. rw here refl) v
  continue-IsShared i e (resolving k p) c at here v = entered-IsShared i e k p _ c at here refl v
  continue-IsShared i e invoking c at here v = v
  continue-IsShared i e (returned r) c at here v = v

  end_method-IsShared :
      (i : ℕ) (r : Result Failure V) (e : Entry V) (s : Stage V) (c : Client M T V)
      → get_elem? c.calls i ≡ some e
      → e.stage ≡ s
      → IsShared c
      → IsShared (end_method o i r e s c)
  end_method-IsShared i r e (gating a) c at here v = v
  end_method-IsShared i r e (resolving k p) c at here v = v
  end_method-IsShared i r e invoking c at here v = moved-IsShared i e _ c at (λ k p. rw here refl) v
  end_method-IsShared i r e (returned _) c at here v = v

  start_route-IsShared :
      (call : Call) (r : Option Route) (c : Client M T V)
      → IsShared c
      → IsShared (start_route o call r c)
  start_route-IsShared call none c v = v
  start_route-IsShared call (some route) c v = record {
    single = v.single;
    waited = λ k p h n. any-append (λ x. waits k p (x.stage)) c.calls _ (v.waited k p h n);
  }

  -- The resolution does not matter.
  resolution-IsShared :
      (s : Resolution M) (c : Client M T V) → IsShared c → IsShared (record c { resolution = s })
  resolution-IsShared s c v = record { single = v.single; waited = v.waited }

  factory_settles-IsShared :
      (k : Slot) (p : ℕ) (r : Result Failure T) (c : Client M T V)
      → IsShared c
      → IsShared (factory_settles o k p r c)
  unfolding factory_settles
  factory_settles-IsShared k p r c v = record {
    single = λ j. elim (Bool-cases (same_slot j k)) [
      | inl h ↦ rw h (settle-IsSingle (c.memos k) p r (v.single k))
      | inr h ↦ rw h (v.single j)
    ];
    waited = λ j q h n. elim (Bool-cases (same_slot j k)) [
      | inl same ↦
          let h' = rw same at h in
          let jk = eq_of_same_slot j k same in
          rw jk (
            v.waited k q (settle-current (c.memos k) p q r h')
              (λ t e. n t (rw same (settle-ok (c.memos k) p q r t e))))
      | inr other ↦ v.waited j q (rw other at h) (λ t. rw other at (n t))
    ];
  }

  step-IsShared : (e : ClientEvent M T V) (c : Client M T V) → IsShared c → IsShared (step o e c)
  unfolding step resume method_settles start
  step-IsShared (called call) c v = start_route-IsShared call (route_of call.key) c v
  step-IsShared refreshed c v = resolution-IsShared _ c v
  step-IsShared (resolver_settled p r) c v = resolution-IsShared _ c v
  step-IsShared (factory_settled k p r) c v = factory_settles-IsShared k p r c v
  step-IsShared (resumed i) c v = elim (Option-cases (get_elem? c.calls i)) [
    | inl e ↦ rw (step, resume, e) v
    | inr (x, e) ↦ rw (step, resume, e) (continue-IsShared i x x.stage c e refl v)
  ]
  step-IsShared (method_settled i r) c v = elim (Option-cases (get_elem? c.calls i)) [
    | inl e ↦ rw (step, method_settles, e) v
    | inr (x, e) ↦ rw (step, method_settles, e) (end_method-IsShared i r x x.stage c e refl v)
  ]

  run-IsShared :
      (es : List (ClientEvent M T V)) (c : Client M T V) → IsShared c → IsShared (run o es c)
  unfolding run
  run-IsShared [] c v = v
  run-IsShared (e ∷ es) c v = run-IsShared es (step o e c) (step-IsShared e c v)

  create-IsShared : IsShared create
  create-IsShared = record {
    single = λ k. record { one_pending = λ p e. ground arith; made = λ p e. ground arith };
    waited = λ k p h n. ground arith;
  }

  Kept-current :
      (c : Client M T V)
      → IsShared c
      → (k : Slot) (now : Option ℕ) → (c.memos k).current ≡ now
      → Kept (c.memos k) c.calls k now
  Kept-current c v k none h = tt
  Kept-current c v k (some p) h = elim (came_or_not (result_of p (c.memos k))) [
    | inl came ↦ inl came
    | inr n ↦ inr (v.waited k p h n)
  ]

  -- In every state that a client runs into, in whatever order its calls and settlements come, and of
  -- every backend: at most one of its factory's promises is pending; and if the memo keeps a promise,
  -- that has brought the backend, or some call still waits for it. So a failed factory is made anew
  -- by the first call after those that waited for it.
  pub run-Shared :
      (es : List (ClientEvent M T V)) (k : Slot)
      → (pending (((run o es create).memos k).promises) ≤ 1)
        × Kept
            ((run o es create).memos k)
            ((run o es create).calls)
            k
            (((run o es create).memos k).current)
  run-Shared es k =
      let c = run o es create in
      let v = run-IsShared es create create-IsShared in
      (
        pending-le (c.memos k).promises (λ p q hp hq.
            let a = (v.single k).one_pending p hp in
            let b = (v.single k).one_pending q hq in ground arith),
        Kept-current c v k (c.memos k).current refl,
      )
