-- ===== src/Contracts/CapabilitySource.antt =====
-- src/contracts/capability-source.ts and src/core/runtime/capability-taxonomy.ts: the capabilities,
-- and what is declared of each. A declaration is a partial record, so a function to an option.
use cavi_api_client.Base.{Bool, false, Option, none, some, or_else}

pub data CapabilityKey : Type 0 where
  runs streaming batch : CapabilityKey
  sessions tasks events : CapabilityKey
  models usage auth_status : CapabilityKey
  kanban teams workspace operator discourse media wiki agent_config : CapabilityKey

abbrev pub CapabilitySupport : Type 0
CapabilitySupport = CapabilityKey → Option Bool

-- What the resolver returns: `M` is the team manifest.
pub record ResolvedCapabilities (M : Type 0) : Type 0 where
  pub supports : CapabilitySupport
  pub manifest : Option M

-- What the runtime declares, and the fallback where it is silent.
unfoldable pub merge_capability_support : (fallback runtime : CapabilitySupport) → CapabilitySupport
merge_capability_support fallback runtime key = or_else (runtime key) (fallback key)

-- `=== true`
abbrev pub is_declared : Option Bool → Bool
is_declared (some b) = b
is_declared none = false

unfoldable pub resolved_supports :
    (fallback : CapabilitySupport) → Option CapabilitySupport → CapabilityKey → Bool
unfolding merge_capability_support
resolved_supports fallback none key = is_declared (fallback key)
resolved_supports fallback (some runtime) key =
    is_declared (merge_capability_support fallback runtime key)
