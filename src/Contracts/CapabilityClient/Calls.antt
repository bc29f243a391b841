-- ===== src/Contracts/CapabilityClient/Calls.antt =====
-- src/contracts/capability-client.ts, `gatedControlPlane`, `gatedKanban`, `gatedDirect` and
-- `execute`: gated calls that wait for the resolver, for their backend and for its method, in
-- whatever order these come. A call goes on from the gate to the backend at once, and the directory
-- of teams that is built from the manifest is a backend whose factory settles like another.
pub mod Gating
pub mod Waiting
pub mod Factories
use cavi_api_client.Base.{
  ℕ, String, Bool, true, false, not, Option, none, some, List, [], ◌∷◌, ◌++◌, get_elem?, set, ◌==◌,
  if◌then◌else◌, Result, ok, err,
}
use cavi_api_client.Errors.{Failure}
use cavi_api_client.Contracts.Envelope.{ContractGap, unwired, unimplemented}
use cavi_api_client.Contracts.CapabilityResult.{CapabilityResult, gap}
use cavi_api_client.Contracts.CapabilitySource
use cavi_api_client.Contracts.CapabilitySource.{
  CapabilityKey, CapabilitySupport, ResolvedCapabilities,
}
use cavi_api_client.Contracts.CapabilityClient.{
  key_name, classified, unsupported_gap, unserved_gap, gap_for, invoke,
}
use cavi_api_client.Contracts.CapabilityClient.Memo.{
  Memo, no_promise, join, settle, forget, result_of,
}
use cavi_api_client.Contracts.CapabilityClient.Resolution.{
  Resolution, unresolved, supports_of, ensure, refresh, attempt_settles, awaited,
}

-- The backends that calls share.
pub data Slot : Type 0 where
  control_plane kanban teams media wiki agent_config : Slot

abbrev pub number_of : Slot → ℕ
number_of control_plane = 0
number_of kanban = 1
number_of teams = 2
number_of media = 3
number_of wiki = 4
number_of agent_config = 5

abbrev pub same_slot : Slot → Slot → Bool
same_slot a b = number_of a == number_of b

-- An execution call goes to the runtime client, any other to a backend.
pub data Route : Type 0 where
  runtime : Route
  backend : Slot → Route

-- The client has no call for the last two capabilities.
abbrev pub route_of : CapabilityKey → Option Route
route_of CapabilitySource.runs = some runtime
route_of CapabilitySource.streaming = some runtime
route_of CapabilitySource.batch = some runtime
route_of CapabilitySource.sessions = some (backend control_plane)
route_of CapabilitySource.tasks = some (backend control_plane)
route_of CapabilitySource.events = some (backend control_plane)
route_of CapabilitySource.models = some (backend control_plane)
route_of CapabilitySource.usage = some (backend control_plane)
route_of CapabilitySource.auth_status = some (backend control_plane)
route_of CapabilitySource.workspace = some (backend control_plane)
route_of CapabilitySource.kanban = some (backend kanban)
route_of CapabilitySource.teams = some (backend teams)
route_of CapabilitySource.media = some (backend media)
route_of CapabilitySource.wiki = some (backend wiki)
route_of CapabilitySource.agent_config = some (backend agent_config)
route_of CapabilitySource.operator = none
route_of CapabilitySource.discourse = none

pub record Call : Type 0 where
  pub key : CapabilityKey
  pub text : String
  pub property : String

-- What a call waits for: an attempt to resolve, a promise of its backend, the method, or nothing.
pub data Stage (V : Type 0) : Type 0 where
  gating : Option ℕ → Stage V
  resolving : Slot → (promise : ℕ) → Stage V
  invoking : Stage V
  returned : Result Failure (CapabilityResult V) → Stage V

pub record Entry (V : Type 0) : Type 0 where
  pub call : Call
  pub route : Route
  pub stage : Stage V

-- `T` is a backend; `has` and `implements` say whether a backend and the runtime client have the
-- method of a call.
pub record Options (T : Type 0) : Type 0 where
  pub fallback : CapabilitySupport
  pub available_on : CapabilityKey → List String
  pub has_resolver : Bool
  pub wired : Slot → Bool
  pub has : T → Call → Bool
  pub implements : Call → Bool

-- `invoked` has the capabilities of the calls that reached a method, in order.
pub record Client (M T V : Type 0) : Type 0 where
  pub resolution : Resolution M
  pub memos : Slot → Memo T
  pub calls : List (Entry V)
  pub invoked : List CapabilityKey

-- What happens to a client: a call is made, or the capabilities are resolved anew; an attempt of the
-- resolver, a factory or a method settles; a call goes on.
pub data ClientEvent (M T V : Type 0) : Type 0 where
  called : Call → ClientEvent M T V
  refreshed : ClientEvent M T V
  resolver_settled : ℕ → Result Failure (ResolvedCapabilities M) → ClientEvent M T V
  factory_settled : Slot → ℕ → Result Failure T → ClientEvent M T V
  resumed : ℕ → ClientEvent M T V
  method_settled : ℕ → Result Failure V → ClientEvent M T V

abbrev pub update {ℓ} : {A : Type ℓ} → (Slot → A) → Slot → A → Slot → A
update f k a j = if same_slot j k then a else f j

module _ {M T V : Type 0} (o : Options T) where
  abbrev pub put : ℕ → Entry V → Stage V → Client M T V → Client M T V
  put i e stage c = record c { calls = set c.calls i (record e { stage = stage }) }

  abbrev pub start_method : ℕ → Entry V → Client M T V → Client M T V
  start_method i e c = put i e invoking (record c { invoked = c.invoked ++ e.call.key ∷ [] })

  abbrev pub lacks_method : (missing : String) → ℕ → Entry V → Client M T V → Client M T V
  lacks_method missing i e c =
      put i e
        (returned
          (invoke o.fallback o.available_on e.call.key e.call.text (unimplemented missing) none))
        c

  abbrev pub wait_for_backend : ℕ → Entry V → Slot → Client M T V → Client M T V
  wait_for_backend i e k c =
      let (p, memo) = join (c.memos k) in
      put i e (resolving k p) (record c { memos = update c.memos k memo })

  -- A call that has passed the gate.
  abbrev pub proceed : ℕ → Entry V → Route → Client M T V → Client M T V
  proceed i e runtime c =
      if o.implements e.call then start_method i e c else lacks_method e.call.text i e c
  proceed i e (backend k) c =
      if o.wired k
      then wait_for_backend i e k c
      else put i e
          (returned (
            ok (
              gap (
                unsupported_gap o.fallback o.available_on e.call.key e.call.text
                  (unwired (key_name e.call.key))))))
          c

  abbrev pub at_gate : ℕ → Entry V → Option ContractGap → Client M T V → Client M T V
  at_gate i e (some g) c = put i e (returned (ok (gap g))) c
  at_gate i e none c = proceed i e e.route c

  abbrev pub pass_gate :
      ℕ → Entry V → Option (Result Failure (Unit {0})) → Client M T V → Client M T V
  pass_gate i e none c = c
  pass_gate i e (some (err f)) c = put i e (returned (err f)) c
  pass_gate i e (some (ok _)) c =
      at_gate i e
        (gap_for o.fallback o.available_on (supports_of (c.resolution.resolved)) e.call.key
          e.call.text)
        c

  -- A rejected factory is forgotten, so that a later call makes another.
  abbrev pub enter_backend :
      ℕ → Entry V → Slot → ℕ → Option (Result Failure T) → Client M T V → Client M T V
  enter_backend i e k p none c = c
  enter_backend i e k p (some (err f)) c =
      put i e (returned (classified e.call.key e.call.text f))
        (record c { memos = update c.memos k (forget p (c.memos k)) })
  enter_backend i e k p (some (ok t)) c =
      if o.has t e.call then start_method i e c else lacks_method e.call.property i e c

  abbrev pub continue : ℕ → Entry V → Stage V → Client M T V → Client M T V
  continue i e (gating attempt) c = pass_gate i e (awaited attempt c.resolution) c
  continue i e (resolving k p) c = enter_backend i e k p (result_of p (c.memos k)) c
  continue i e invoking c = c
  continue i e (returned r) c = c

  -- Call number `i` goes on, if what it waits for has settled.
  unfoldable pub resume : ℕ → Client M T V → Client M T V
  resume i c = elim (get_elem? c.calls i) [ none ↦ c | some e ↦ continue i e e.stage c ]

  abbrev pub end_method : ℕ → Result Failure V → Entry V → Stage V → Client M T V → Client M T V
  end_method i r e invoking c =
      put i e
        (returned (
          invoke o.fallback o.available_on e.call.key e.call.text (unimplemented e.call.property)
            (some r)))
        c
  end_method i r e _ c = c

  unfoldable pub method_settles : ℕ → Result Failure V → Client M T V → Client M T V
  method_settles i r c = elim (get_elem? c.calls i) [
    | none ↦ c
    | some e ↦ end_method i r e e.stage c
  ]

  abbrev pub start_route : Call → Option Route → Client M T V → Client M T V
  start_route call none c = c
  start_route call (some route) c =
      let (attempt, resolution) = ensure o.has_resolver c.resolution in
      record c {
        resolution = resolution;
        calls = c.calls ++ record { call = call; route = route; stage = gating attempt } ∷ [];
      }

  unfoldable pub start : Call → Client M T V → Client M T V
  start call c = start_route call (route_of call.key) c

  unfoldable pub factory_settles : Slot → ℕ → Result Failure T → Client M T V → Client M T V
  factory_settles k p r c = record c { memos = update c.memos k (settle p r (c.memos k)) }

  unfoldable pub step : ClientEvent M T V → Client M T V → Client M T V
  step (called call) c = start call c
  step refreshed c = record c { resolution = (refresh o.has_resolver c.resolution).1 }
  step (resolver_settled p r) c = record c { resolution = attempt_settles p r c.resolution }
  step (factory_settled k p r) c = factory_settles k p r c
  step (resumed i) c = resume i c
  step (method_settled i r) c = method_settles i r c

  unfoldable pub run : List (ClientEvent M T V) → Client M T V → Client M T V
  unfolding step
  run [] c = c
  run (e ∷ es) c = run es (step e c)

abbrev pub create : {M T V : Type 0} → Client M T V
create = record { resolution = unresolved; memos = λ _. no_promise; calls = []; invoked = [] }
