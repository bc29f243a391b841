-- ===== src/Runtime/SynchronousRunStore/Tests.antt =====
-- A cache of two runs.
use mathlib.Core.List.{reverse}
use Prim.Native.String.{String}
use cavi_api_client.Base.{none, some, ◌≡◌, refl, List, [], ◌∷◌, take}
use cavi_api_client.Runtime.Run.{completed, RunStatus}
use cavi_api_client.Runtime.SynchronousRunStore.{
  remember, delete, has, evict, unknown_synchronous_run,
}
use cavi_api_client.Runtime.SynchronousRunStore.Recency.{remember_all, recent, remember_all_lem}

abbrev named : String → RunStatus
named id = record {
  run_id = id;
  status = completed;
  model = none;
  output = some "text";
  response = none;
  error = none;
  error_details = none;
  usage = none;
  tokens = none;
}

abbrev history : List RunStatus
history = named "c" ∷ named "a" ∷ named "b" ∷ named "a" ∷ []

oldest_goes : remember_all 2 history ≡ ("a", named "a") ∷ ("c", named "c") ∷ []
unfolding remember_all remember has delete evict
oldest_goes = refl

remember_all_lem_example : remember_all 2 history ≡ reverse (take 2 (recent history))
remember_all_lem_example = remember_all_lem 2 history

not_retained :
    (unknown_synchronous_run (λ kind. "not retained") "claude" "r").error ≡ some "not retained"
unfolding unknown_synchronous_run
not_retained = refl
