-- ===== src/Contracts/CapabilityClient/Calls/Gating.antt =====
-- No call reaches a method for a capability that is not declared.
use cavi_api_client.Base.{
  ℕ, String, ◌≡◌, ◌⊎◌, refl, inl, inr, Bool, true, false, Option, none, some, List, [], ◌∷◌, ◌++◌,
  get_elem?, Result, ok, err, arith, All, All-append, All-set, All-get_elem?, Bool-cases,
  Option-cases, if◌then◌else◌,
}
use cavi_api_client.Errors.{Failure, is_auth_error}
use cavi_api_client.Contracts.Envelope.{ContractGap}
use cavi_api_client.Contracts.CapabilitySource.{
  CapabilityKey, CapabilitySupport, ResolvedCapabilities, resolved_supports,
}
use cavi_api_client.Contracts.CapabilityClient.{gap_for}
use cavi_api_client.Contracts.CapabilityClient.Memo.{Memo, settle, result_of}
use cavi_api_client.Contracts.CapabilityClient.Resolution.{
  Resolution, supports_of, ensure, refresh, attempt_settles, noted, settles, awaited, handled,
}
use cavi_api_client.Contracts.CapabilityClient.Calls.{
  Slot, Route, runtime, backend, route_of, Call, Stage, gating, resolving, invoking, returned,
  Entry, Options, Client, ClientEvent, called, refreshed, resolver_settled, factory_settled,
  resumed, method_settled, put, start_method, proceed, at_gate, pass_gate, enter_backend, continue,
  resume, end_method, method_settles, start, start_route, factory_settles, step, run, create,
}

-- The resolver has returned this declaration.
abbrev pub Known : {M : Type 0} → CapabilitySupport → List (ResolvedCapabilities M) → Type 0
Known s [] = ⊥
Known s (r ∷ rs) = (s ≡ r.supports) ⊎ Known s rs

Known-append :
    {M : Type 0} (s : CapabilitySupport) (xs ys : List (ResolvedCapabilities M))
    → Known s xs
    → Known s (xs ++ ys)
Known-append s [] ys h = absurd h
Known-append s (x ∷ xs) ys (inl e) = inl e
Known-append s (x ∷ xs) ys (inr h) = inr (Known-append s xs ys h)

Known-last :
    {M : Type 0} (r : ResolvedCapabilities M) (xs : List (ResolvedCapabilities M))
    → Known r.supports (xs ++ r ∷ [])
Known-last r [] = inl refl
Known-last r (x ∷ xs) = inr (Known-last r xs)

-- A capability that the fallback declares, or the fallback under what the resolver once returned.
abbrev pub Declared :
    {M : Type 0}
    → (fallback : CapabilitySupport) → List (ResolvedCapabilities M)
    → CapabilityKey
    → Type 0
Declared fallback found key =
    (resolved_supports fallback none key ≡ true)
    ⊎ ((s : CapabilitySupport) × Known s found × (resolved_supports fallback (some s) key ≡ true))

Declared-append :
    {M : Type 0} (fallback : CapabilitySupport) (xs ys : List (ResolvedCapabilities M))
    (key : CapabilityKey)
    → Declared fallback xs key
    → Declared fallback (xs ++ ys) key
Declared-append fallback xs ys key (inl h) = inl h
Declared-append fallback xs ys key (inr (s, k, h)) = inr (s, Known-append s xs ys k, h)

All-Declared-append :
    {M : Type 0} (fallback : CapabilitySupport) (xs ys : List (ResolvedCapabilities M))
    (keys : List CapabilityKey)
    → All (Declared fallback xs) keys
    → All (Declared fallback (xs ++ ys)) keys
All-Declared-append fallback xs ys [] h = tt
All-Declared-append fallback xs ys (k ∷ ks) h =
    (Declared-append fallback xs ys k (h.0), All-Declared-append fallback xs ys ks (h.1))

gap_for-none :
    (fallback : CapabilitySupport) (available_on : CapabilityKey → List String)
    (resolved : Option CapabilitySupport) (key : CapabilityKey) (text : String)
    → gap_for fallback available_on resolved key text ≡ none
    → resolved_supports fallback resolved key ≡ true
unfolding gap_for
gap_for-none fallback available_on resolved key text e = ground arith

-- A call that waits for its backend has passed the gate.
abbrev pub Admitted :
    {M V : Type 0}
    → CapabilitySupport
    → List (ResolvedCapabilities M)
    → CapabilityKey
    → Stage V
    → Type 0
Admitted fallback found key (resolving k p) = Declared fallback found key
Admitted fallback found key _ = Unit

Admitted-append :
    {M V : Type 0} (fallback : CapabilitySupport) (xs ys : List (ResolvedCapabilities M))
    (key : CapabilityKey) (s : Stage V)
    → Admitted fallback xs key s
    → Admitted fallback (xs ++ ys) key s
Admitted-append fallback xs ys key (gating a) h = tt
Admitted-append fallback xs ys key (resolving k p) h = Declared-append fallback xs ys key h
Admitted-append fallback xs ys key invoking h = tt
Admitted-append fallback xs ys key (returned r) h = tt

abbrev EntryAdmitted :
    {M V : Type 0} → CapabilitySupport → List (ResolvedCapabilities M) → Entry V → Type 0
EntryAdmitted fallback found e = Admitted fallback found e.call.key e.stage

All-Admitted-append :
    {M V : Type 0} (fallback : CapabilitySupport) (xs ys : List (ResolvedCapabilities M))
    (es : List (Entry V))
    → All (EntryAdmitted fallback xs) es
    → All (EntryAdmitted fallback (xs ++ ys)) es
All-Admitted-append fallback xs ys [] h = tt
All-Admitted-append fallback xs ys (e ∷ es) h = (
  Admitted-append fallback xs ys e.call.key e.stage (h.0),
  All-Admitted-append fallback xs ys es (h.1),
)

ensure-kept :
    {M : Type 0} (b : Bool) (s : Resolution M)
    → (((ensure b s).1).found ≡ s.found) × (((ensure b s).1).resolved ≡ s.resolved)
unfolding ensure
ensure-kept false s = (refl, refl)
ensure-kept true s = (refl, refl)

module _ {M T V : Type 0} (o : Options T) where
  record IsGated (c : Client M T V) : Type 0 where
    known :
        (r : ResolvedCapabilities M)
        → c.resolution.resolved ≡ some r
        → Known r.supports c.resolution.found
    declared : All (Declared o.fallback c.resolution.found) c.invoked
    admitted : All (EntryAdmitted o.fallback c.resolution.found) c.calls

  put-IsGated :
      (i : ℕ) (e : Entry V) (s : Stage V) (c : Client M T V)
      → Admitted o.fallback c.resolution.found e.call.key s
      → IsGated c
      → IsGated (put o i e s c)
  put-IsGated i e s c a v = record {
    known = v.known;
    declared = v.declared;
    admitted =
        All-set (EntryAdmitted o.fallback c.resolution.found) c.calls i (record e { stage = s })
          v.admitted a;
  }

  start_method-IsGated :
      (i : ℕ) (e : Entry V) (c : Client M T V)
      → Declared o.fallback c.resolution.found e.call.key
      → IsGated c
      → IsGated (start_method o i e c)
  start_method-IsGated i e c d v =
      put-IsGated i e invoking (record c { invoked = c.invoked ++ e.call.key ∷ [] }) tt
        (record {
          known = v.known;
          declared =
              All-append (Declared o.fallback c.resolution.found) c.invoked (e.call.key ∷ [])
                v.declared ((d, tt));
          admitted = v.admitted;
        })

  if-IsGated :
      (b : Bool) (c c' : Client M T V) → IsGated c → IsGated c' → IsGated (if b then c else c')
  if-IsGated true c c' v v' = v
  if-IsGated false c c' v v' = v'

  -- What the memos hold does not matter.
  memos-IsGated :
      (memos : Slot → Memo T) (c : Client M T V) → IsGated c → IsGated (record c { memos = memos })
  memos-IsGated memos c v = record { known = v.known; declared = v.declared; admitted = v.admitted }

  proceed-IsGated :
      (i : ℕ) (e : Entry V) (r : Route) (c : Client M T V)
      → Declared o.fallback c.resolution.found e.call.key
      → IsGated c
      → IsGated (proceed o i e r c)
  proceed-IsGated i e runtime c d v =
      if-IsGated (o.implements e.call) _ _ (start_method-IsGated i e c d v)
        (put-IsGated i e _ c tt v)
  proceed-IsGated i e (backend k) c d v =
      if-IsGated (o.wired k) _ _ (put-IsGated i e _ _ d (memos-IsGated _ c v))
        (put-IsGated i e _ c tt v)

  at_gate-IsGated :
      (i : ℕ) (e : Entry V) (g : Option ContractGap) (c : Client M T V)
      → gap_for o.fallback o.available_on
          (supports_of (c.resolution.resolved))
          e.call.key
          e.call.text
        ≡ g
      → IsGated c
      → IsGated (at_gate o i e g c)
  at_gate-IsGated i e (some g) c h v = put-IsGated i e _ c tt v
  at_gate-IsGated i e none c h v =
      proceed-IsGated i e e.route c
        (declared_by c.resolution.resolved refl (gap_for-none _ _ _ _ _ h)) v
    where
      declared_by :
          (r : Option (ResolvedCapabilities M))
          → c.resolution.resolved ≡ r
          → resolved_supports o.fallback (supports_of (c.resolution.resolved)) e.call.key ≡ true
          → Declared o.fallback c.resolution.found e.call.key
      declared_by none q h' = inl (rw q at h')
      declared_by (some r) q h' = inr (r.supports, v.known r q, rw q at h')

  pass_gate-IsGated :
      (i : ℕ) (e : Entry V) (a : Option (Result Failure (Unit {0}))) (c : Client M T V)
      → IsGated c
      → IsGated (pass_gate o i e a c)
  pass_gate-IsGated i e none c v = v
  pass_gate-IsGated i e (some (err f)) c v = put-IsGated i e _ c tt v
  pass_gate-IsGated i e (some (ok _)) c v = at_gate-IsGated i e _ c refl v

  enter_backend-IsGated :
      (i : ℕ) (e : Entry V) (k : Slot) (p : ℕ) (r : Option (Result Failure T)) (c : Client M T V)
      → Declared o.fallback c.resolution.found e.call.key
      → IsGated c
      → IsGated (enter_backend o i e k p r c)
  enter_backend-IsGated i e k p none c d v = v
  enter_backend-IsGated i e k p (some (err f)) c d v = put-IsGated i e _ _ tt (memos-IsGated _ c v)
  enter_backend-IsGated i e k p (some (ok t)) c d v =
      if-IsGated (o.has t e.call) _ _ (start_method-IsGated i e c d v) (put-IsGated i e _ c tt v)

  continue-IsGated :
      (i : ℕ) (e : Entry V) (s : Stage V) (c : Client M T V)
      → Admitted o.fallback c.resolution.found e.call.key s
      → IsGated c
      → IsGated (continue o i e s c)
  continue-IsGated i e (gating a) c d v = pass_gate-IsGated i e (awaited a c.resolution) c v
  continue-IsGated i e (resolving k p) c d v =
      enter_backend-IsGated i e k p (result_of p (c.memos k)) c d v
  continue-IsGated i e invoking c d v = v
  continue-IsGated i e (returned r) c d v = v

  end_method-IsGated :
      (i : ℕ) (r : Result Failure V) (e : Entry V) (s : Stage V) (c : Client M T V)
      → IsGated c
      → IsGated (end_method o i r e s c)
  end_method-IsGated i r e (gating a) c v = v
  end_method-IsGated i r e (resolving k p) c v = v
  end_method-IsGated i r e invoking c v = put-IsGated i e _ c tt v
  end_method-IsGated i r e (returned _) c v = v

  -- A resolution that has found nothing new.
  same_found-IsGated :
      (s : Resolution M) (c : Client M T V)
      → s.found ≡ c.resolution.found
      → ((r : ResolvedCapabilities M) → s.resolved ≡ some r → c.resolution.resolved ≡ some r)
      → IsGated c
      → IsGated (record c { resolution = s })
  same_found-IsGated s c f q v = record {
    known = λ r e. rw f (v.known r (q r e));
    declared = rw f v.declared;
    admitted = rw f v.admitted;
  }

  found_more-IsGated :
      (r : ResolvedCapabilities M) (a : Memo (Unit {0})) (c : Client M T V)
      → IsGated c
      → IsGated (record c {
        resolution = record {
          resolved = some r;
          attempt = a;
          found = c.resolution.found ++ r ∷ [];
        };
      })
  found_more-IsGated r a c v = record {
    known =
        λ r' e. let same : r ≡ r' = ground arith in rw (← same) (Known-last r c.resolution.found);
    declared = All-Declared-append o.fallback c.resolution.found (r ∷ []) c.invoked v.declared;
    admitted = All-Admitted-append o.fallback c.resolution.found (r ∷ []) c.calls v.admitted;
  }

  noted-IsGated :
      (r : Result Failure (ResolvedCapabilities M)) (a : Memo (Unit {0})) (c : Client M T V)
      → IsGated c
      → IsGated (record c { resolution = noted r (record (c.resolution) { attempt = a }) })
  noted-IsGated (ok r) a c v = found_more-IsGated r a c v
  noted-IsGated (err e) a c v = elim (Bool-cases (is_auth_error e)) [
    | inl h ↦ rw h (same_found-IsGated _ c refl (λ r q. q) v)
    | inr h ↦ rw h (same_found-IsGated _ c refl (λ r q. ground arith) v)
  ]

  settles-IsGated :
      (now : Option (Option (Result Failure (Unit {0})))) (p : ℕ)
      (r : Result Failure (ResolvedCapabilities M)) (c : Client M T V)
      → IsGated c
      → IsGated (record c { resolution = settles now p r c.resolution })
  settles-IsGated (some none) p r c v =
      noted-IsGated r (settle p (handled r) c.resolution.attempt) c v
  settles-IsGated none p r c v = v
  settles-IsGated (some (some _)) p r c v = v

  start_route-IsGated :
      (call : Call) (r : Option Route) (c : Client M T V)
      → IsGated c
      → IsGated (start_route o call r c)
  start_route-IsGated call none c v = v
  start_route-IsGated call (some route) c v =
      let (f, q) = ensure-kept o.has_resolver c.resolution in
      let w =
        same_found-IsGated ((ensure o.has_resolver c.resolution).1) c f (λ r e. rw q at e) v in
      record {
        known = w.known;
        declared = w.declared;
        admitted = All-append _ c.calls _ w.admitted ((tt, tt));
      }

  refresh-IsGated :
      (c : Client M T V)
      → IsGated c
      → IsGated (record c { resolution = (refresh o.has_resolver c.resolution).1 })
  unfolding refresh
  refresh-IsGated c v =
      let (f, q) = ensure-kept o.has_resolver (record (c.resolution) {
        resolved = none;
        attempt = record (c.resolution.attempt) { current = none };
      }) in
      same_found-IsGated _ c f (λ r e. let e' = rw q at e in ground arith) v

  step-IsGated : (e : ClientEvent M T V) (c : Client M T V) → IsGated c → IsGated (step o e c)
  unfolding step resume method_settles start factory_settles attempt_settles
  step-IsGated (called call) c v = start_route-IsGated call (route_of call.key) c v
  step-IsGated refreshed c v = refresh-IsGated c v
  step-IsGated (resolver_settled p r) c v =
      settles-IsGated (get_elem? (c.resolution.attempt.promises) p) p r c v
  step-IsGated (factory_settled k p r) c v = memos-IsGated _ c v
  step-IsGated (resumed i) c v = elim (Option-cases (get_elem? c.calls i)) [
    | inl e ↦ rw (step, resume, e) v
    | inr (x, e) ↦
        rw (step, resume, e)
          (continue-IsGated i x x.stage c
            (All-get_elem? (EntryAdmitted o.fallback c.resolution.found) c.calls i x v.admitted e)
            v)
  ]
  step-IsGated (method_settled i r) c v = elim (Option-cases (get_elem? c.calls i)) [
    | inl e ↦ rw (step, method_settles, e) v
    | inr (x, e) ↦ rw (step, method_settles, e) (end_method-IsGated i r x x.stage c v)
  ]

  run-IsGated :
      (es : List (ClientEvent M T V)) (c : Client M T V) → IsGated c → IsGated (run o es c)
  unfolding run
  run-IsGated [] c v = v
  run-IsGated (e ∷ es) c v = run-IsGated es (step o e c) (step-IsGated e c v)

  -- In every state that a client runs into, whatever its resolver, factories and methods do and in
  -- whatever order calls, refreshes and settlements come: each call that has reached a method has a
  -- capability that the fallback declares, alone or under what the resolver has returned so far.
  pub run-Declared :
      (es : List (ClientEvent M T V))
      → All (Declared o.fallback (run o es create).resolution.found) (run o es create).invoked
  run-Declared es =
      (run-IsGated es create
        (record { known = λ r e. ground arith; declared = tt; admitted = tt })).declared
