-- ===== src/Contracts/CapabilityClient/Memo.antt =====
-- src/contracts/capability-client.ts, `controlPlanePromise`, `kanbanPromise`, `backendPromise` and
-- `resolveAttempt`: a promise that calls share until it has failed. Promises are numbered as they
-- are made; each is pending (`none`) or has settled.
pub mod Single
use cavi_api_client.Base.{
  ℕ, Bool, true, false, Option, none, some, List, [], ◌∷◌, ◌++◌, length, get_elem?, set, ◌==◌,
  if◌then◌else◌, Result, ok, err,
}
use cavi_api_client.Errors.{Failure}

pub record Memo (T : Type 0) : Type 0 where
  pub current : Option ℕ
  pub promises : List (Option (Result Failure T))

abbrev pub no_promise : {T : Type 0} → Memo T
no_promise = record { current = none; promises = [] }

abbrev pub join_current : {T : Type 0} → Option ℕ → Memo T → ℕ × Memo T
join_current (some p) m = (p, m)
join_current none m = (
  length m.promises,
  record { current = some (length m.promises); promises = m.promises ++ none ∷ [] },
)

-- `promise ??= factory()`, and the promise that it leaves.
unfoldable pub join : {T : Type 0} → Memo T → ℕ × Memo T
join m = join_current m.current m

abbrev pub settle_pending :
    {T : Type 0} → Option (Option (Result Failure T)) → ℕ → Result Failure T → Memo T → Memo T
settle_pending (some none) p r m = record m { promises = set m.promises p (some r) }
settle_pending _ p r m = m

-- A promise settles once.
unfoldable pub settle : {T : Type 0} → ℕ → Result Failure T → Memo T → Memo T
settle p r m = settle_pending (get_elem? m.promises p) p r m

abbrev pub is_promise : ℕ → Option ℕ → Bool
is_promise p none = false
is_promise p (some q) = p == q

-- `if (promise === pending) promise = null`
unfoldable pub forget : {T : Type 0} → ℕ → Memo T → Memo T
forget p m = if is_promise p m.current then record m { current = none } else m

-- What a promise has settled to: `none` while it is pending.
abbrev pub result_of : {T : Type 0} → ℕ → Memo T → Option (Result Failure T)
result_of p m = elim (get_elem? m.promises p) [ none ↦ none | some r ↦ r ]
