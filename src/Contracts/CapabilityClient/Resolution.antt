-- ===== src/Contracts/CapabilityClient/Resolution.antt =====
-- src/contracts/capability-client.ts, `ensureResolved` and `refreshCapabilities`: the capabilities
-- that the resolver reports, shared by the calls. `M` is the team manifest.
use cavi_api_client.Base.{
  ℕ, Bool, true, false, Option, none, some, List, [], ◌∷◌, ◌++◌, get_elem?, if◌then◌else◌, Result,
  ok, err,
}
use cavi_api_client.Errors.{Failure, is_auth_error}
use cavi_api_client.Contracts.CapabilitySource.{CapabilitySupport, ResolvedCapabilities}
use cavi_api_client.Contracts.CapabilityClient.Memo.{Memo, no_promise, join, settle, result_of}

-- `found` has all that the resolver has returned so far.
pub record Resolution (M : Type 0) : Type 0 where
  pub resolved : Option (ResolvedCapabilities M)
  pub attempt : Memo (Unit {0})
  pub found : List (ResolvedCapabilities M)

abbrev pub unresolved : {M : Type 0} → Resolution M
unresolved = record { resolved = none; attempt = no_promise; found = [] }

abbrev pub supports_of : {M : Type 0} → Option (ResolvedCapabilities M) → Option CapabilitySupport
supports_of none = none
supports_of (some r) = some r.supports

-- `ensureResolved`: the attempt that the caller waits for, if there is a resolver.
unfoldable pub ensure :
    {M : Type 0} → (has_resolver : Bool) → Resolution M → Option ℕ × Resolution M
ensure false s = (none, s)
ensure true s = let (p, attempt) = join s.attempt in (some p, record s { attempt = attempt })

-- `refreshCapabilities`, up to its wait.
unfoldable pub refresh :
    {M : Type 0} → (has_resolver : Bool) → Resolution M → Option ℕ × Resolution M
unfolding ensure
refresh has_resolver s =
    ensure has_resolver
      (record s { resolved = none; attempt = record (s.attempt) { current = none } })

-- The handlers of an attempt: an authentication failure is thrown to those who wait, any other
-- leaves the fallback.
abbrev pub handled :
    {M : Type 0} → Result Failure (ResolvedCapabilities M) → Result Failure (Unit {0})
handled (ok r) = ok tt
handled (err e) = if is_auth_error e then err e else ok tt

abbrev pub noted :
    {M : Type 0} → Result Failure (ResolvedCapabilities M) → Resolution M → Resolution M
noted (ok r) s = record s { resolved = some r; found = s.found ++ r ∷ [] }
noted (err e) s = if is_auth_error e then s else record s { resolved = none }

-- The resolver of attempt `p` returns or throws; a promise that has settled stays as it is.
abbrev pub settles :
    {M : Type 0}
    → Option (Option (Result Failure (Unit {0})))
    → ℕ
    → Result Failure (ResolvedCapabilities M)
    → Resolution M
    → Resolution M
settles (some none) p r s = noted r (record s { attempt = settle p (handled r) s.attempt })
settles _ p r s = s

unfoldable pub attempt_settles :
    {M : Type 0} → ℕ → Result Failure (ResolvedCapabilities M) → Resolution M → Resolution M
attempt_settles p r s = settles (get_elem? (s.attempt.promises) p) p r s

-- What a caller that waits for an attempt finds: `none` while it is pending.
abbrev pub awaited : {M : Type 0} → Option ℕ → Resolution M → Option (Result Failure (Unit {0}))
awaited none s = some (ok tt)
awaited (some p) s = result_of p s.attempt
