-- ===== src/Runtime/SynchronousRunStore.antt =====
-- src/core/runtime/synchronous-run-store.ts: the bounded cache of terminal runs. The `Map` is a
-- list of its entries in insertion order, the oldest first.
pub mod Invariant
pub mod Recency
mod Tests
use cavi_api_client.Base.{
  ℕ, String, str_eq, Bool, Option, none, some, List, [], ◌∷◌, ◌++◌, length, any, ltb, if◌then◌else◌,
}
use cavi_api_client.Runtime.Run.{RunStatus, unknown}

abbrev pub Entries : Type 0
Entries = List (String × RunStatus)

-- `entries.has(key)`
unfoldable pub has : String → Entries → Bool
has key entries = any (λ e. str_eq e.0 key) entries

-- `entries.delete(key)`
unfoldable pub delete : String → Entries → Entries
delete key [] = []
delete key (e ∷ entries) = if str_eq e.0 key then delete key entries else e ∷ delete key entries

-- A copy of the record and of its nested records: equal as a value.
snapshot : RunStatus → RunStatus
snapshot status = record {
  run_id = status.run_id;
  status = status.status;
  model = status.model;
  output = status.output;
  response = status.response;
  error = status.error;
  error_details = status.error_details;
  usage = status.usage;
  tokens = status.tokens;
}

-- `if (size > capacity) delete the first key`
unfoldable pub evict : ℕ → Entries → Entries
evict capacity [] = []
evict capacity ((oldest, s) ∷ entries) =
    if ltb capacity (length ((oldest, s) ∷ entries))
    then delete oldest ((oldest, s) ∷ entries)
    else (oldest, s) ∷ entries

unfoldable pub remember : ℕ → RunStatus → Entries → Entries
unfolding snapshot
remember capacity status entries =
    if str_eq status.run_id ""
    then entries
    else let kept = if has status.run_id entries then delete status.run_id entries else entries in
      evict capacity (kept ++ (status.run_id, snapshot status) ∷ [])

unfoldable pub find : String → Entries → Option RunStatus
find key [] = none
find key (e ∷ entries) = if str_eq e.0 key then some e.1 else find key entries

-- The method `get`.
unfoldable pub get : String → Entries → Option RunStatus
unfolding snapshot
get run_id entries = elim (find run_id entries) [ none ↦ none | some s ↦ some (snapshot s) ]

-- `unknownSynchronousRun`; the message holds the provider's kind.
unfoldable pub unknown_synchronous_run : (String → String) → String → String → RunStatus
unknown_synchronous_run explain provider_kind run_id = record {
  run_id = run_id;
  status = unknown;
  model = none;
  output = none;
  response = none;
  error = some (explain provider_kind);
  error_details = none;
  usage = none;
  tokens = none;
}
