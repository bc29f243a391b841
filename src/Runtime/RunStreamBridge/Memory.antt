-- ===== src/Runtime/RunStreamBridge/Memory.antt =====
-- What the translator remembers between events: the last usage, and the names of the tools.
use cavi_api_client.Base.{
  ◌≡◌, refl, ◌∙◌, ap, String, Bool, true, false, Option, none, some, List, [], ◌∷◌, Result, str_eq,
  eq_iff, All, arith, get_or_else,
}
use cavi_api_client.Runtime.Run.{RuntimeUsage}
use cavi_api_client.Runtime.RunStream.{ApprovalChoice}
use cavi_api_client.Runtime.RunStream
use cavi_api_client.Runtime.ControlEvents.{Change}
use cavi_api_client.Runtime.ControlEvents
use cavi_api_client.Runtime.RunStreamBridge.{
  Translator, remember, payload_of, get, tool_call, output_of,
}

-- The translator's state after a sequence of changes.
pub remember_all : {A : Type 0} → Translator → List (Change A) → Translator
remember_all t [] = t
remember_all t (c ∷ cs) = remember_all (remember t c) cs

abbrev pub changes_usage : {A : Type 0} → Change A → Bool
changes_usage (ControlEvents.usage_updated _) = true
changes_usage _ = false

abbrev pub starts_call : {A : Type 0} → String → Change A → Bool
starts_call call (ControlEvents.tool_started id _) = str_eq id call
starts_call call _ = false

usage-kept :
    {A : Type 0} (t : Translator) (c : Change A)
    → changes_usage c ≡ false
    → (remember t c).last_usage ≡ t.last_usage
unfolding remember
usage-kept t ControlEvents.operation_started h = refl
usage-kept t (ControlEvents.operation_updated u) h = refl
usage-kept t (ControlEvents.message_delta d) h = refl
usage-kept t (ControlEvents.reasoning_delta d) h = refl
usage-kept t (ControlEvents.tool_started i n) h = refl
usage-kept t (ControlEvents.tool_progress i p) h = refl
usage-kept t (ControlEvents.tool_completed i r) h = refl
usage-kept t (ControlEvents.approval_requested i cs) h = refl
usage-kept t (ControlEvents.approval_resolved i b) h = refl
usage-kept t (ControlEvents.usage_updated u) h = ground arith
usage-kept t (ControlEvents.stream_reconnected cur) h = refl
usage-kept t (ControlEvents.stream_gap r) h = refl
usage-kept t ControlEvents.operation_completed h = refl
usage-kept t (ControlEvents.operation_failed e) h = refl
usage-kept t ControlEvents.operation_cancelled h = refl
usage-kept t (ControlEvents.operation_interrupted r) h = refl

usage-kept_over :
    {A : Type 0} (t : Translator) (cs : List (Change A))
    → All (λ c. changes_usage c ≡ false) cs
    → (remember_all t cs).last_usage ≡ t.last_usage
unfolding remember_all
usage-kept_over t [] h = refl
usage-kept_over t (c ∷ cs) h = usage-kept_over (remember t c) cs (h.1) ∙ usage-kept t c (h.0)

name-kept :
    {A : Type 0} (t : Translator) (call : String) (c : Change A)
    → starts_call call c ≡ false
    → get call ((remember t c).tool_names) ≡ get call (t.tool_names)
unfolding remember get
name-kept t call ControlEvents.operation_started h = refl
name-kept t call (ControlEvents.operation_updated u) h = refl
name-kept t call (ControlEvents.message_delta d) h = refl
name-kept t call (ControlEvents.reasoning_delta d) h = refl
name-kept t call (ControlEvents.tool_started i n) h = rw h
name-kept t call (ControlEvents.tool_progress i p) h = refl
name-kept t call (ControlEvents.tool_completed i r) h = refl
name-kept t call (ControlEvents.approval_requested i cs) h = refl
name-kept t call (ControlEvents.approval_resolved i b) h = refl
name-kept t call (ControlEvents.usage_updated u) h = refl
name-kept t call (ControlEvents.stream_reconnected cur) h = refl
name-kept t call (ControlEvents.stream_gap r) h = refl
name-kept t call ControlEvents.operation_completed h = refl
name-kept t call (ControlEvents.operation_failed e) h = refl
name-kept t call ControlEvents.operation_cancelled h = refl
name-kept t call (ControlEvents.operation_interrupted r) h = refl

name-kept_over :
    {A : Type 0} (t : Translator) (call : String) (cs : List (Change A))
    → All (λ c. starts_call call c ≡ false) cs
    → get call ((remember_all t cs).tool_names) ≡ get call (t.tool_names)
unfolding remember_all
name-kept_over t call [] h = refl
name-kept_over t call (c ∷ cs) h =
    name-kept_over (remember t c) call cs (h.1) ∙ name-kept t call c (h.0)

get-started :
    (A : Type 0) (t : Translator) (call name : String)
    → get call ((remember {A = A} t (ControlEvents.tool_started call name)).tool_names) ≡ some name
unfolding remember get
get-started A t call name = rw ((eq_iff call call).1 refl) refl

-- A tool that started under a name completes under it, whatever comes between, as long as no other
-- tool starts under the same call.
pub payload_of-tool_completed :
    {A : Type 0} (stringify : A → Result String (Option String)) (to_string : A → String)
    (t : Translator) (call name : String) (between : List (Change A)) (result : Option A)
    → All (λ c. starts_call call c ≡ false) between
    → payload_of stringify to_string
        (remember_all (remember {A = A} t (ControlEvents.tool_started call name)) between)
        (ControlEvents.tool_completed call result)
      ≡ some (
          RunStream.tool_completed (
            tool_call stringify to_string call name RunStream.completed
              (output_of stringify to_string result)))
unfolding payload_of
payload_of-tool_completed {A = A} stringify to_string t call name between result h =
    ap
      (λ found. some (
        RunStream.tool_completed (
          tool_call stringify to_string call (get_or_else found "tool") RunStream.completed
            (output_of stringify to_string result))))
      (name-kept_over (remember {A = A} t (ControlEvents.tool_started call name)) call between h
        ∙ get-started A t call name)

-- A completed operation carries the usage that was updated last, whatever comes between.
pub payload_of-operation_completed :
    {A : Type 0} (stringify : A → Result String (Option String)) (to_string : A → String)
    (t : Translator) (usage : RuntimeUsage) (between : List (Change A))
    → All (λ c. changes_usage c ≡ false) between
    → payload_of stringify to_string
        (remember_all (remember {A = A} t (ControlEvents.usage_updated usage)) between)
        ControlEvents.operation_completed
      ≡ some (RunStream.completion none (some usage) none)
unfolding payload_of remember
payload_of-operation_completed {A = A} stringify to_string t usage between h =
    ap (λ u. some (RunStream.completion none u none))
      (usage-kept_over (remember {A = A} t (ControlEvents.usage_updated usage)) between h)
