-- ===== src/Contracts/CapabilityClient/StreamRun/Observed.antt =====
-- What a streaming call observes, as the first and the last of what its stream did.
use mathlib.Core.List.{head?, get_last?, append_assoc, append-nil}
use cavi_api_client.Base.{
  String, ◌≡◌, refl, ◌∙◌, sym, ap, true, false, Option, none, some, List, [], ◌∷◌, ◌++◌, is_some,
  or_else, if◌then◌else◌, Bool-cases, inl, inr, arith,
}
use cavi_api_client.Base.Text.{codes, is_empty}
use cavi_api_client.Errors.{Failure}
use cavi_api_client.Runtime.Run.{RunErrorDetails}
use cavi_api_client.Runtime.RunStream.{
  RunStreamEvent, Payload, delta, completion, failure, cancellation, approval, tool_started,
  tool_completed, tool_failed,
}
use cavi_api_client.Contracts.CapabilityClient.StreamRun.{
  Outcome, completed, failed, cancelled, StreamCall, on_run_id, on_event, on_error, Observation,
  unobserved, first_id, note_payload, observe_all, forward,
}

-- The ids that the stream tells, in order.
abbrev pub tell_id : String → List String → List String
tell_id id ids = if is_empty (codes id) then ids else id ∷ ids

abbrev pub ids_of : List StreamCall → List String
ids_of [] = []
ids_of (on_run_id id ∷ cs) = tell_id id (ids_of cs)
ids_of (on_event e ∷ cs) = tell_id e.run_id (ids_of cs)
ids_of (on_error _ _ ∷ cs) = ids_of cs

-- The terminal events: how the run ended, and with what details.
abbrev pub terminal_of : Payload → List (Outcome × Option RunErrorDetails)
terminal_of (completion _ _ _) = (completed, none) ∷ []
terminal_of (failure _ details) = (failed, details) ∷ []
terminal_of (cancellation _) = (cancelled, none) ∷ []
terminal_of _ = []

abbrev pub terminals : List StreamCall → List (Outcome × Option RunErrorDetails)
terminals [] = []
terminals (on_event e ∷ cs) = terminal_of e.payload ++ terminals cs
terminals (_ ∷ cs) = terminals cs

-- The errors that end a stream.
abbrev pub faults : List StreamCall → List Failure
faults [] = []
faults (on_error false e ∷ cs) = e ∷ faults cs
faults (_ ∷ cs) = faults cs

-- The events and errors, without the ids of the bridge.
abbrev pub handed_on : List StreamCall → List StreamCall
handed_on [] = []
handed_on (on_run_id id ∷ cs) = handed_on cs
handed_on (c ∷ cs) = c ∷ handed_on cs

abbrev pub outcome_of : Option (Outcome × Option RunErrorDetails) → Option Outcome
outcome_of none = none
outcome_of (some t) = some (t.0)

abbrev pub details_of : Option (Outcome × Option RunErrorDetails) → Option RunErrorDetails
details_of none = none
details_of (some t) = t.1

abbrev pub observed : List StreamCall → Observation
observed cs = record {
  run_id = head? (ids_of cs);
  outcome = outcome_of (get_last? (terminals cs));
  error_details = details_of (get_last? (terminals cs));
  last_error = get_last? (faults cs);
  forwarded = handed_on cs;
}

get_last?-some {ℓ} : {A : Type ℓ} (x : A) (xs : List A) → is_some (get_last? (x ∷ xs)) ≡ true
get_last?-some x [] = refl
get_last?-some x (y ∷ ys) = get_last?-some y ys

or_else-some {ℓ} : {A : Type ℓ} (o d : Option A) → is_some o ≡ true → or_else o d ≡ o
or_else-some none d h = ground arith
or_else-some (some a) d h = refl

get_last?-cons {ℓ} :
    {A : Type ℓ} (x : A) (xs : List A) → get_last? (x ∷ xs) ≡ or_else (get_last? xs) (some x)
get_last?-cons x [] = refl
get_last?-cons x (y ∷ ys) = sym (or_else-some (get_last? (y ∷ ys)) (some x) (get_last?-some y ys))

or_else_assoc {ℓ} :
    {A : Type ℓ} (a b c : Option A) → or_else a (or_else b c) ≡ or_else (or_else a b) c
or_else_assoc none b c = refl
or_else_assoc (some a) b c = refl

or_else-none {ℓ} : {A : Type ℓ} (a : Option A) → or_else a none ≡ a
or_else-none none = refl
or_else-none (some a) = refl

head?-tell_id :
    (known : Option String) (id : String) (ids : List String)
    → or_else (first_id known id) (head? ids) ≡ or_else known (head? (tell_id id ids))
head?-tell_id (some k) id ids = refl
head?-tell_id none id ids = elim (Bool-cases (is_empty (codes id))) [
  | inl e ↦ rw e refl
  | inr e ↦ rw e refl
]

-- What is known of the end of a run: the last terminal event, or else what was known before.
abbrev then_end : Option (Outcome × Option RunErrorDetails) → Observation → Observation
then_end none o = o
then_end (some t) o = record o { outcome = some (t.0); error_details = t.1 }

note_payload-then_end :
    (p : Payload) (o : Observation) → note_payload p o ≡ then_end (get_last? (terminal_of p)) o
note_payload-then_end (delta _) o = refl
note_payload-then_end (completion _ _ _) o = refl
note_payload-then_end (failure _ _) o = refl
note_payload-then_end (cancellation _) o = refl
note_payload-then_end (approval _) o = refl
note_payload-then_end (tool_started _) o = refl
note_payload-then_end (tool_completed _) o = refl
note_payload-then_end (tool_failed _) o = refl

last_end-append :
    (p : Payload) (ts : List (Outcome × Option RunErrorDetails))
    → get_last? (terminal_of p ++ ts) ≡ or_else (get_last? ts) (get_last? (terminal_of p))
last_end-append (delta _) ts = sym (or_else-none (get_last? ts))
last_end-append (completion _ _ _) ts = get_last?-cons (completed, none) ts
last_end-append (failure _ details) ts = get_last?-cons (failed, details) ts
last_end-append (cancellation _) ts = get_last?-cons (cancelled, none) ts
last_end-append (approval _) ts = sym (or_else-none (get_last? ts))
last_end-append (tool_started _) ts = sym (or_else-none (get_last? ts))
last_end-append (tool_completed _) ts = sym (or_else-none (get_last? ts))
last_end-append (tool_failed _) ts = sym (or_else-none (get_last? ts))

abbrev End : Type 0
End = Option (Outcome × Option RunErrorDetails)

-- An observation goes on with an end, an id, an error and what is handed on.
abbrev go_on : End → Option String → Option Failure → List StreamCall → Observation → Observation
go_on end id fault cs o = then_end end (record o {
  run_id = or_else o.run_id id;
  last_error = or_else fault o.last_error;
  forwarded = o.forwarded ++ cs;
})

abbrev continued : List StreamCall → Observation → Observation
continued cs =
    go_on (get_last? (terminals cs)) (head? (ids_of cs)) (get_last? (faults cs)) (handed_on cs)

-- An event before the rest.
go_on-event :
    (e : RunStreamEvent) (end first : End) (id : Option String) (fault : Option Failure)
    (cs : List StreamCall) (o : Observation)
    → go_on end id fault cs
        (forward (on_event e) (then_end first (record o { run_id = first_id o.run_id e.run_id })))
      ≡ then_end (or_else end first) (record o {
        run_id = or_else (first_id o.run_id e.run_id) id;
        last_error = or_else fault o.last_error;
        forwarded = (o.forwarded ++ on_event e ∷ []) ++ cs;
      })
go_on-event e none none id fault cs o = refl
go_on-event e none (some t) id fault cs o = refl
go_on-event e (some u) none id fault cs o = refl
go_on-event e (some u) (some t) id fault cs o = refl

observe_all-continued : (cs : List StreamCall) (o : Observation) → observe_all cs o ≡ continued cs o
unfolding observe_all
observe_all-continued [] o = rw (or_else-none o.run_id, append-nil o.forwarded) refl
observe_all-continued (on_run_id id ∷ cs) o =
    observe_all-continued cs _ ∙ rw (head?-tell_id o.run_id id (ids_of cs)) refl
observe_all-continued (on_event e ∷ cs) o =
    observe_all-continued cs _
    ∙ ap (λ n. continued cs (forward (on_event e) n)) (note_payload-then_end e.payload _)
    ∙ go_on-event e (get_last? (terminals cs)) (get_last? (terminal_of e.payload))
        (head? (ids_of cs)) (get_last? (faults cs)) (handed_on cs) o
    ∙ rw
        (
          last_end-append e.payload (terminals cs),
          ← head?-tell_id o.run_id e.run_id (ids_of cs),
          append_assoc o.forwarded (on_event e ∷ []) (handed_on cs),
        )
        refl
observe_all-continued (on_error true e ∷ cs) o =
    observe_all-continued cs _
    ∙ rw (append_assoc o.forwarded (on_error true e ∷ []) (handed_on cs)) refl
observe_all-continued (on_error false e ∷ cs) o =
    observe_all-continued cs _
    ∙ rw
        (
          append_assoc o.forwarded (on_error false e ∷ []) (handed_on cs),
          get_last?-cons e (faults cs),
          or_else_assoc (get_last? (faults cs)) (some e) o.last_error,
        )
        refl

-- A streaming call observes the first id that the stream tells, the last terminal event with its
-- details, and the last error that ends a stream, and hands every event and error on in order.
pub observe_all_lem : (cs : List StreamCall) → observe_all cs unobserved ≡ observed cs
observe_all_lem cs = observe_all-continued cs unobserved ∙ from_start (get_last? (terminals cs))
  where
    from_start :
        (end : End)
        → go_on end (head? (ids_of cs)) (get_last? (faults cs)) (handed_on cs) unobserved ≡ record {
          run_id = head? (ids_of cs);
          outcome = outcome_of end;
          error_details = details_of end;
          last_error = get_last? (faults cs);
          forwarded = handed_on cs;
        }
    from_start none = rw (or_else-none (get_last? (faults cs))) refl
    from_start (some t) = rw (or_else-none (get_last? (faults cs))) refl
