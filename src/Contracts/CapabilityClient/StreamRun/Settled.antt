-- ===== src/Contracts/CapabilityClient/StreamRun/Settled.antt =====
-- What a streaming call returns and throws, and when it requests a cancellation.
use mathlib.Core.List.{head?, get_last?}
use cavi_api_client.Base.{
  String, ◌≡◌, ◌≢◌, ◌↔◌, ◌⊎◌, refl, inl, inr, Bool, true, false, Option, none, some, List, [],
  Result, ok, err, Bool-cases, Option-cases, Result-cases, arith,
}
use cavi_api_client.Errors.{Failure, is_auth_error, gateway_rpc}
use cavi_api_client.Contracts.Envelope.{
  ContractGap, unimplemented, request_aborted, unknown, classify_fallback_error,
}
use cavi_api_client.Contracts.CapabilityResult.{live, gap}
use cavi_api_client.Contracts.CapabilityResult.Carveouts.{
  IsAuthCode, classify_capability_failure_rethrows,
}
use cavi_api_client.Contracts.CapabilitySource
use cavi_api_client.Contracts.CapabilitySource.{
  CapabilityKey, CapabilitySupport, ResolvedCapabilities, resolved_supports,
}
use cavi_api_client.Contracts.CapabilityClient.{area_of, classified, gap_for, unserved_gap}
use cavi_api_client.Contracts.CapabilityClient.StreamRun.{
  RunStreamOutcome, StreamCall, Observation, is_named_abort, StreamEnd, call, cancelled_run,
  requests, aborted_gap, settle, stream_run, stream_gated, gate,
}
use cavi_api_client.Contracts.CapabilityClient.StreamRun.Observed.{
  ids_of, terminals, faults, outcome_of, details_of, handed_on, observed, observe_all_lem,
}

-- A failure that `classifyCapabilityFailure` throws again.
abbrev pub Rethrown : Failure → Type 0
Rethrown e =
    (is_auth_error e ≡ true)
    ⊎ ((e.class ≡ gateway_rpc) × IsAuthCode e.code)
    ⊎ ((classify_fallback_error e).reason ≡ unknown)

classified-ne-live :
    (key : CapabilityKey) (c : String) (e : Failure) (o : RunStreamOutcome)
    → classified key c e ≢ ok (live o)
unfolding classified
classified-ne-live key c e o h = ground arith

classified-Rethrown :
    {V : Type 0} (key : CapabilityKey) (c : String) (e t : Failure)
    → classified {V = V} key c e ≡ err t
    → (t ≡ e) × Rethrown e
unfolding classified
classified-Rethrown key c e t h =
    let r = classify_capability_failure_rethrows (area_of key) c e t in ground arith

-- An aborted call: the caller's signal, an abort that the stream threw, or one that it told last,
-- where no terminal event came.
abbrev pub Aborted : (signal_aborted : Bool) → Result Failure (Unit {0}) → Observation → Type 0
Aborted signal_aborted ending o =
    (signal_aborted ≡ true)
    ⊎ ((e : Failure) × (ending ≡ err e) × (is_named_abort e ≡ true))
    ⊎ ((e : Failure) × (ending ≡ ok tt)
        × (o.outcome ≡ none)
        × (o.last_error ≡ some e)
        × (is_named_abort e ≡ true))

Aborted-decided :
    (signal_aborted : Bool) (ending : Result Failure (Unit {0})) (o : Observation)
    → Aborted signal_aborted ending o ⊎ (¬ Aborted signal_aborted ending o)
Aborted-decided true ending o = inl (inl refl)
Aborted-decided false (err e) o = elim (Bool-cases (is_named_abort e)) [
  | inl h ↦ inl (inr (inl (e, refl, h)))
  | inr h ↦ inr (λ a. ground arith)
]
Aborted-decided false (ok u) o = elim (Option-cases o.outcome) [
  | inl q ↦ elim (Option-cases o.last_error) [
    | inl n ↦ inr (λ a. ground arith)
    | inr (e, n) ↦ elim (Bool-cases (is_named_abort e)) [
      | inl h ↦ inl (inr (inr (e, refl, q, n, h)))
      | inr h ↦ inr (λ a. ground arith)
    ]
  ]
  | inr (out, q) ↦ inr (λ a. ground arith)
]

module _ (has_cancel signal_aborted : Bool) (o : Observation) where
  settle-live_iff :
      (ending : Result Failure (Unit {0})) (r : RunStreamOutcome)
      → ((settle has_cancel signal_aborted ending o).answer ≡ ok (live r)) ↔ (
          (ending ≡ ok tt)
          × (signal_aborted ≡ false)
          × ((o.outcome ≢ none) ⊎ (o.last_error ≡ none))
          × (r
              ≡ record { run_id = o.run_id; outcome = o.outcome; error_details = o.error_details }))
  unfolding settle aborted_gap
  settle-live_iff (err e) r =
      let n = classified-ne-live CapabilitySource.streaming call e r in (ground arith, ground arith)
  settle-live_iff (ok u) r = elim (Option-cases o.last_error) [
    | inl q ↦ (ground arith, ground arith)
    | inr (e, q) ↦
        let n = classified-ne-live CapabilitySource.streaming call e r in
        (ground arith, ground arith)
  ]

  settle-Aborted :
      (ending : Result Failure (Unit {0}))
      → Aborted signal_aborted ending o
      → settle has_cancel signal_aborted ending o ≡ aborted_gap has_cancel o
  unfolding settle
  settle-Aborted ending a = ground arith

  settle-not_Aborted :
      (ending : Result Failure (Unit {0}))
      → ¬ Aborted signal_aborted ending o
      → (settle has_cancel signal_aborted ending o).cancel_requests ≡ []
  unfolding settle
  settle-not_Aborted (err e) a = ground arith
  settle-not_Aborted (ok u) a = elim (Option-cases o.last_error) [
    | inl q ↦ ground arith
    | inr (e, q) ↦ ground arith
  ]

  settle-throws :
      (ending : Result Failure (Unit {0})) (t : Failure)
      → (settle has_cancel signal_aborted ending o).answer ≡ err t
      → ((ending ≡ err t) ⊎ ((ending ≡ ok tt) × (o.outcome ≡ none) × (o.last_error ≡ some t)))
        × (signal_aborted ≡ false)
        × (is_named_abort t ≡ false)
        × Rethrown t
  unfolding settle aborted_gap
  settle-throws (err e) t h =
      let r = classified-Rethrown {V = RunStreamOutcome} CapabilitySource.streaming call e t in
      ground arith
  settle-throws (ok u) t h = elim (Option-cases o.last_error) [
    | inl q ↦ ground arith
    | inr (e, q) ↦
        let r = classified-Rethrown {V = RunStreamOutcome} CapabilitySource.streaming call e t in
        ground arith
  ]

-- What a resolution throws is the authentication error of the resolver.
gate-throws :
    {M : Type 0} (asked : Option (Result Failure (ResolvedCapabilities M))) (t : Failure)
    → gate asked ≡ err t
    → (asked ≡ some (err t)) × (is_auth_error t ≡ true)
gate-throws none t h = ground arith
gate-throws (some (ok r)) t h = ground arith
gate-throws (some (err e)) t h = elim (Bool-cases (is_auth_error e)) [
  | inl auth ↦ let same : e ≡ t = ground arith in rw (← same) (refl, auth)
  | inr other ↦ ground arith
]

module _ {M : Type 0} (fallback : CapabilitySupport) (available_on : CapabilityKey → List String)
    (asked : Option (Result Failure (ResolvedCapabilities M))) (resolved : Option CapabilitySupport)
    (wired has_cancel signal_aborted : Bool) (calls : List StreamCall)
    (ending : Result Failure (Unit {0})) where
  abbrev pub declared : Bool
  declared = resolved_supports fallback resolved CapabilitySource.streaming

  abbrev pub ended : StreamEnd × List StreamCall
  ended =
      stream_run fallback available_on asked resolved wired has_cancel signal_aborted calls ending

  served :
      gate asked ≡ ok tt
      → declared ≡ true
      → wired ≡ true
      → ended ≡ (settle has_cancel signal_aborted ending (observed calls), handed_on calls)
  unfolding stream_run stream_gated gap_for
  served g d w = rw (stream_run, g, stream_gated, gap_for, d, w, observe_all_lem calls) refl

  passes-declared :
      gap_for fallback available_on resolved CapabilitySource.streaming call ≡ none
      → declared ≡ true
  unfolding gap_for
  passes-declared e = ground arith

  -- A call that is not declared or not wired returns a gap and cancels nothing.
  unserved_lem :
      gate asked ≡ ok tt
      → (declared ≡ false) ⊎ (wired ≡ false)
      → (g : ContractGap) × ((ended).0 ≡ record { answer = ok (gap g); cancel_requests = [] })
  unfolding stream_run stream_gated
  unserved_lem go h =
      elim (Option-cases (gap_for fallback available_on resolved CapabilitySource.streaming call)) [
        | inl e ↦
            let d = passes-declared e in
            let w : wired ≡ false = ground arith in
            (
              unserved_gap fallback available_on CapabilitySource.streaming call
                  (unimplemented call),
              rw (stream_run, go, stream_gated, e, w) refl,
            )
        | inr (g, e) ↦ (g, rw (stream_run, go, stream_gated, e) refl)
      ]

  refused_lem :
      (e : Failure)
      → gate asked ≡ err e
      → (ended).0 ≡ record { answer = err e; cancel_requests = [] }
  unfolding stream_run
  refused_lem e h = rw (stream_run, h) refl

  -- The resolution is rejected, or the call is served and ends as its observation says, or it is not
  -- and returns a gap.
  served_or_not :
      ((e : Failure) × (gate asked ≡ err e)
        × ((ended).0 ≡ record { answer = err e; cancel_requests = [] }))
      ⊎ ((gate asked ≡ ok tt)
          × (declared ≡ true)
          × (wired ≡ true)
          × (ended ≡ (settle has_cancel signal_aborted ending (observed calls), handed_on calls)))
      ⊎ (((declared ≡ false) ⊎ (wired ≡ false))
          × ((g : ContractGap) × ((ended).0
                ≡ record { answer = ok (gap g); cancel_requests = [] })))
  served_or_not = elim (Result-cases (gate asked)) [
    | inr (e, h) ↦ inl (e, h, refused_lem e h)
    | inl (_, go) ↦ elim (Bool-cases declared) [
      | inl d ↦ elim (Bool-cases wired) [
        | inl w ↦ inr (inl (go, d, w, served go d w))
        | inr w ↦ inr (inr (inr w, unserved_lem go (inr w)))
      ]
      | inr d ↦ inr (inr (inl d, unserved_lem go (inl d)))
    ]
  ]

  -- A streaming call returns a live outcome exactly when its resolution was not rejected, streaming
  -- is declared and wired, the stream ended without throwing, the caller did not abort, and a
  -- terminal event came or no error that ends a stream; the outcome has the first id told, and the
  -- last terminal event with its details.
  pub stream_run-live_iff :
      (r : RunStreamOutcome)
      → (((ended).0).answer ≡ ok (live r)) ↔ (
          (gate asked ≡ ok tt)
          × (declared ≡ true)
          × (wired ≡ true)
          × (ending ≡ ok tt)
          × (signal_aborted ≡ false)
          × ((outcome_of (get_last? (terminals calls)) ≢ none) ⊎ (get_last? (faults calls) ≡ none))
          × (r ≡ record {
            run_id = head? (ids_of calls);
            outcome = outcome_of (get_last? (terminals calls));
            error_details = details_of (get_last? (terminals calls));
          }))
  stream_run-live_iff r = elim served_or_not [
    | inl (e, refused, q) ↦ rw q ((λ h. ground arith, λ h. ground arith))
    | inr (inl (go, d, w, e)) ↦
        let (to, from) = settle-live_iff has_cancel signal_aborted (observed calls) ending r in
        rw e ((λ h. let k = to h in (go, d, w, k.0, k.1, k.2, k.3), λ h. from (h.3, h.4, h.5, h.6)))
    | inr (inr (no_way, (g, e))) ↦ rw e ((λ h. ground arith, λ h. ground arith))
  ]

  -- A declared and wired call whose resolution was not rejected is aborted, by the caller's signal, or by an abort that the stream
  -- threw or that it told last without a terminal event, and then it returns a gap for the abort and
  -- requests the cancellation of the first run that the stream told, if any and if the runtime
  -- cancels runs; or it is not aborted, and requests no cancellation.
  pub stream_run-cancels :
      gate asked ≡ ok tt
      → declared ≡ true
      → wired ≡ true
      → (Aborted signal_aborted ending (observed calls)
          × ((g : ContractGap) × (((ended).0).answer ≡ ok (gap g))
              × (g.reason ≡ request_aborted)
              × (((ended).0).cancel_requests
                  ≡ requests (cancelled_run has_cancel (head? (ids_of calls))))))
        ⊎ ((¬ Aborted signal_aborted ending (observed calls)) × (((ended).0).cancel_requests ≡ []))
  unfolding aborted_gap
  stream_run-cancels go d w =
      rw (served go d w) (elim (Aborted-decided signal_aborted ending (observed calls)) [
        | inl a ↦ inl (
          a,
          rw (settle-Aborted has_cancel signal_aborted (observed calls) ending a)
              ((_, refl, refl, refl)),
        )
        | inr n ↦ inr (n, settle-not_Aborted has_cancel signal_aborted (observed calls) ending n)
      ])

  -- What a streaming call throws is the authentication error with which the resolver rejected; or
  -- the resolution was not rejected, and it is what the stream threw, or the last error that the
  -- stream told where no terminal event came; then it is no abort, the caller did not abort, and it
  -- is an authentication error, a gateway RPC error with an authentication code, or unclassified.
  pub stream_run-throws :
      (t : Failure)
      → ((ended).0).answer ≡ err t
      → ((asked ≡ some (err t)) × (is_auth_error t ≡ true))
        ⊎ ((gate asked ≡ ok tt)
            × ((ending ≡ err t)
                ⊎ ((ending ≡ ok tt)
                    × (outcome_of (get_last? (terminals calls)) ≡ none)
                    × (get_last? (faults calls) ≡ some t)))
            × (signal_aborted ≡ false)
            × (is_named_abort t ≡ false)
            × Rethrown t)
  stream_run-throws t h = elim served_or_not [
    | inl (e, refused, q) ↦
        let h' = rw q at h in
        let same : e ≡ t = ground arith in inl (gate-throws asked t (rw (← same) refused))
    | inr (inl (go, d, w, e)) ↦
        let (source, calm, no_abort, kind) =
          settle-throws has_cancel signal_aborted (observed calls) ending t (rw e at h) in
        inr (go, source, calm, no_abort, kind)
    | inr (inr (no_way, (g, e))) ↦ let h' = rw e at h in ground arith
  ]
