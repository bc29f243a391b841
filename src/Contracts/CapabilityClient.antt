-- ===== src/Contracts/CapabilityClient.antt =====
-- src/contracts/capability-client.ts: the facade of a provider. This module has the options and the
-- gaps of calls that are not served; Resolution, Memo and Calls have the parts that wait, StreamRun
-- the streaming call. JavaScript values that a backend takes and returns are of a type `V`.
pub mod StreamRun
pub mod Memo
pub mod Resolution
pub mod Calls
mod Tests
use cavi_api_client.Base.{
  String, Bool, true, false, Option, none, some, List, if◌then◌else◌, Result, ok, err,
}
use cavi_api_client.Errors.{Failure}
use cavi_api_client.Contracts.Envelope.{
  ContractGap, fallback_gap, capability_unsupported, SupportDetail, runtime_reports,
  static_declares, undeclared, unwired, unimplemented, unsupported, unserved,
}
use cavi_api_client.Contracts.CapabilityResult.{
  CapabilityResult, live, gap, classify_capability_failure,
}
use cavi_api_client.Contracts.CapabilitySource
use cavi_api_client.Contracts.CapabilitySource.{
  CapabilityKey, CapabilitySupport, ResolvedCapabilities, is_declared, resolved_supports,
}

-- The keys as the source spells them, and `capability:${key}`.
abbrev pub key_name : CapabilityKey → String
key_name CapabilitySource.runs = "runs"
key_name CapabilitySource.streaming = "streaming"
key_name CapabilitySource.batch = "batch"
key_name CapabilitySource.sessions = "sessions"
key_name CapabilitySource.tasks = "tasks"
key_name CapabilitySource.events = "events"
key_name CapabilitySource.models = "models"
key_name CapabilitySource.usage = "usage"
key_name CapabilitySource.auth_status = "authStatus"
key_name CapabilitySource.kanban = "kanban"
key_name CapabilitySource.teams = "teams"
key_name CapabilitySource.workspace = "workspace"
key_name CapabilitySource.operator = "operator"
key_name CapabilitySource.discourse = "discourse"
key_name CapabilitySource.media = "media"
key_name CapabilitySource.wiki = "wiki"
key_name CapabilitySource.agent_config = "agentConfig"

prefix : String → String → String
prefix String.[] t = t
prefix (String.◌∷◌ c s) t = String.◌∷◌ c (prefix s t)

unfoldable pub area_of : CapabilityKey → String
unfolding prefix
area_of key = prefix "capability:" (key_name key)

-- A failure as a gap, or thrown again.
unfoldable pub classified :
    {V : Type 0} → CapabilityKey → (call : String) → Failure → Result Failure (CapabilityResult V)
classified key call e = elim (classify_capability_failure (area_of key) call e) [
  | ok g ↦ ok (gap g)
  | err thrown ↦ err thrown
]

-- What is known of a client from its options.
module _ (fallback : CapabilitySupport) (available_on : CapabilityKey → List String) where
  unfoldable pub unsupported_gap : CapabilityKey → (call : String) → SupportDetail → ContractGap
  unfolding fallback_gap area_of
  unsupported_gap key call detail =
      fallback_gap (area_of key) call (unsupported call detail (available_on key))
        capability_unsupported none

  -- The headline "cannot serve … here".
  unfoldable pub unserved_gap : CapabilityKey → (call : String) → SupportDetail → ContractGap
  unfolding fallback_gap area_of
  unserved_gap key call detail =
      fallback_gap (area_of key) call (unserved call detail (available_on key))
        capability_unsupported none

  by_fallback : CapabilityKey → Option Bool → SupportDetail
  by_fallback key (some b) = static_declares (key_name key) b
  by_fallback key none = undeclared (key_name key)

  by_runtime : CapabilityKey → Option Bool → SupportDetail
  unfolding by_fallback
  by_runtime key (some b) = runtime_reports (key_name key) b
  by_runtime key none = by_fallback key (fallback key)

  unfoldable pub declared_detail : Option CapabilitySupport → CapabilityKey → SupportDetail
  unfolding by_fallback by_runtime
  declared_detail none key = by_fallback key (fallback key)
  declared_detail (some runtime) key = by_runtime key (runtime key)

  -- `gapFor`, once the resolution that it waits for has ended: `none` lets the call proceed.
  unfoldable pub gap_for :
      Option CapabilitySupport → CapabilityKey → (call : String) → Option ContractGap
  unfolding declared_detail unsupported_gap
  gap_for resolved key call =
      if resolved_supports fallback resolved key
      then none
      else some (unsupported_gap key call (declared_detail resolved key))

  -- `invokeOnSurface` and the end of `execute`: `method` is `none` where there is no such function,
  -- else what its call brings.
  unfoldable pub invoke :
      {V : Type 0}
      → CapabilityKey
      → (call : String) → (missing : SupportDetail) → (method : Option (Result Failure V))
      → Result Failure (CapabilityResult V)
  unfolding unserved_gap classified
  invoke key call missing none = ok (gap (unserved_gap key call missing))
  invoke key call missing (some (ok v)) = ok (live v)
  invoke key call missing (some (err e)) = classified key call e
