-- ===== src/Runtime/RunStreamBridge/Completion.antt =====
-- What the handlers of a bridged subscription see: the translated events up to the first terminal
-- one, and one completion.
use cavi_api_client.Base.{
  ℕ, zero, suc, ◌≡◌, refl, ◌∙◌, ap, String, Bool, true, false, Option, none, some, List, [], ◌∷◌,
  ◌++◌, if◌then◌else◌, arith, Result, Bool-cases, inl, inr,
}
use cavi_api_client.Runtime.RunStream.{RunStreamEvent, name_of, StreamError}
use cavi_api_client.Runtime.ControlEvents.{
  Change, ControlEvent, ends_operation, terminals, count_if, inspect_runtime_event_sequence,
}
use cavi_api_client.Runtime.ControlEvents
use cavi_api_client.Runtime.RunStreamBridge.{
  is_terminal, Translator, fresh, translate, payload_of, remember, keep, Handlers, subscribed,
  Frame, event_frame, error_frame, Delivery, event, error, complete, forward, forward_error,
  on_event, completing, for_run, on_frame, deliveries,
}

pub events_of : List Delivery → List RunStreamEvent
events_of [] = []
events_of (event e ∷ ds) = e ∷ events_of ds
events_of (error e ∷ ds) = events_of ds
events_of (complete ∷ ds) = events_of ds

pub completions : List Delivery → ℕ
completions [] = 0
completions (event e ∷ ds) = completions ds
completions (error e ∷ ds) = completions ds
completions (complete ∷ ds) = suc (completions ds)

pub control_events : {A : Type 0} → List (Frame A) → List (ControlEvent A)
control_events [] = []
control_events (event_frame e ∷ fs) = e ∷ control_events fs
control_events (error_frame e ∷ fs) = control_events fs

-- A list of run-stream events, up to the first terminal one.
pub through_terminal : List RunStreamEvent → List RunStreamEvent
through_terminal [] = []
through_terminal (e ∷ es) =
    let rest = through_terminal es in e ∷ (if is_terminal (name_of (e.payload)) then [] else rest)

module _ {A : Type 0} (stringify : A → Result String (Option String)) (to_string : A → String) where
  -- The translator alone, over every event.
  pub translate_all : Translator → List (ControlEvent A) → List RunStreamEvent
  translate_all t [] = []
  translate_all t (e ∷ es) =
      let (after, mapped) = translate stringify to_string t e in
      keep mapped (translate_all after es)

abbrev pub at_most_one : ℕ → ℕ
at_most_one zero = 0
at_most_one (suc n) = 1

error-silent :
    (reports : Bool) (e : StreamError) (ds : List Delivery)
    → (events_of (forward_error reports e ++ ds) ≡ events_of ds)
      × (completions (forward_error reports e ++ ds) ≡ completions ds)
unfolding events_of completions
error-silent true e ds = (refl, refl)
error-silent false e ds = (refl, refl)

is_terminal_event : Option RunStreamEvent → Bool
is_terminal_event none = false
is_terminal_event (some e) = is_terminal (name_of (e.payload))

module _ {A : Type 0} (stringify : A → Result String (Option String)) (to_string : A → String)
    (h : Handlers) where
  abbrev calls : Bool → Translator → List (Frame A) → List Delivery
  calls done t fs =
      deliveries stringify to_string h (record { translator = t; completed = done }) fs

  completed-silent :
      (t : Translator) (fs : List (Frame A))
      → (events_of (calls true t fs) ≡ []) × (completions (calls true t fs) ≡ 0)
  unfolding deliveries on_frame on_event events_of completions
  completed-silent t [] = (refl, refl)
  completed-silent t (event_frame e ∷ fs) = completed-silent t fs
  completed-silent t (error_frame e ∷ fs) =
      let (no_event, no_completion) = completed-silent t fs in
      let (same, alike) = error-silent (h.on_error) e (calls true t fs) in
      (same ∙ no_event, alike ∙ no_completion)

  complete-silent :
      (told : Bool) (ds : List Delivery) → events_of (completing told ++ ds) ≡ events_of ds
  unfolding events_of
  complete-silent true ds = refl
  complete-silent false ds = refl

  forward-events :
      (t : Translator) (m : Option RunStreamEvent) (fs : List (Frame A))
      (rest : List RunStreamEvent)
      → events_of (calls false t fs) ≡ through_terminal rest
      → (let (after, now) = forward h (t, m) in
          events_of (now ++ deliveries stringify to_string h after fs)
          ≡ through_terminal (keep m rest))
  unfolding events_of through_terminal forward deliveries
  forward-events t none fs rest ih = ih
  forward-events t (some e) fs rest ih = elim (Bool-cases (is_terminal (name_of (e.payload)))) [
    | inl ends ↦ rw ends (
        ap (λ es. e ∷ es)
          (complete-silent (h.on_complete) (calls true t fs) ∙ (completed-silent t fs).0))
    | inr goes_on ↦ rw goes_on (ap (λ es. e ∷ es) ih)
  ]

  calls-events :
      (t : Translator) (fs : List (Frame A))
      → events_of (calls false t fs)
        ≡ through_terminal (translate_all stringify to_string t (control_events fs))
  unfolding deliveries on_frame on_event events_of through_terminal translate_all control_events
      translate
  calls-events t [] = refl
  calls-events t (event_frame e ∷ fs) =
      let after = remember t (e.change) in
      forward-events after (for_run (e.operation_id) (payload_of stringify to_string t (e.change)))
        fs (translate_all stringify to_string after (control_events fs)) (calls-events after fs)
  calls-events t (error_frame e ∷ fs) =
      (error-silent (h.on_error) e (calls false t fs)).0 ∙ calls-events t fs

  complete-told :
      (told : Bool) (ds : List Delivery)
      → told ≡ true
      → completions (completing told ++ ds) ≡ suc (completions ds)
  unfolding completions
  complete-told true ds h = refl
  complete-told false ds h = ground arith

  forward-completions :
      (t : Translator) (m : Option RunStreamEvent) (fs : List (Frame A)) (ended : ℕ)
      → h.on_complete ≡ true
      → completions (calls false t fs) ≡ at_most_one ended
      → (let (after, now) = forward h (t, m) in
          completions (now ++ deliveries stringify to_string h after fs)
          ≡ at_most_one (count_if (is_terminal_event m) ended))
  unfolding completions is_terminal_event forward deliveries
  forward-completions t none fs ended told ih = ih
  forward-completions t (some e) fs ended told ih =
      elim (Bool-cases (is_terminal (name_of (e.payload)))) [
        | inl ends ↦ rw ends (
            complete-told (h.on_complete) (calls true t fs) told
            ∙ ap suc ((completed-silent t fs).1))
        | inr goes_on ↦ rw goes_on ih
      ]

  terminal-ends :
      (t : Translator) (run : String) (c : Change A)
      → is_terminal_event (for_run run (payload_of stringify to_string t c)) ≡ ends_operation c
  unfolding is_terminal_event payload_of ends_operation is_terminal
  terminal-ends t run ControlEvents.operation_started = refl
  terminal-ends t run (ControlEvents.operation_updated u) = refl
  terminal-ends t run (ControlEvents.message_delta d) = refl
  terminal-ends t run (ControlEvents.reasoning_delta d) = refl
  terminal-ends t run (ControlEvents.tool_started i n) = refl
  terminal-ends t run (ControlEvents.tool_progress i p) = refl
  terminal-ends t run (ControlEvents.tool_completed i r) = refl
  terminal-ends t run (ControlEvents.approval_requested i cs) = refl
  terminal-ends t run (ControlEvents.approval_resolved i b) = refl
  terminal-ends t run (ControlEvents.usage_updated u) = refl
  terminal-ends t run (ControlEvents.stream_reconnected cur) = refl
  terminal-ends t run (ControlEvents.stream_gap r) = refl
  terminal-ends t run ControlEvents.operation_completed = refl
  terminal-ends t run (ControlEvents.operation_failed e) = refl
  terminal-ends t run ControlEvents.operation_cancelled = refl
  terminal-ends t run (ControlEvents.operation_interrupted r) = refl

  calls-completions :
      (t : Translator) (fs : List (Frame A))
      → h.on_complete ≡ true
      → completions (calls false t fs) ≡ at_most_one (terminals (control_events fs))
  unfolding deliveries on_frame on_event completions terminals control_events translate
  calls-completions t [] told = refl
  calls-completions t (event_frame e ∷ fs) told =
      let after = remember t (e.change) in
      rw (← terminal-ends t (e.operation_id) (e.change)) (
        forward-completions after
          (for_run (e.operation_id) (payload_of stringify to_string t (e.change))) fs
          (terminals (control_events fs)) told (calls-completions after fs told))
  calls-completions t (error_frame e ∷ fs) told =
      (error-silent (h.on_error) e (calls false t fs)).1 ∙ calls-completions t fs told

-- For every handlers and every sequence of frames, the run-stream events that a bridged
-- subscription hands on are those of the translator run over all the control-plane events, cut
-- after the first terminal one: no terminal event is lost, and nothing follows it.
pub deliveries-events :
    {A : Type 0} (stringify : A → Result String (Option String)) (to_string : A → String)
    (h : Handlers) (frames : List (Frame A))
    → events_of (deliveries stringify to_string h subscribed frames)
      ≡ through_terminal (translate_all stringify to_string fresh (control_events frames))
deliveries-events stringify to_string h frames = calls-events stringify to_string h fresh frames

-- For every sequence of frames, a caller that listens for the completion is told exactly once if
-- the inspection of the control-plane events counts a terminal one, and never otherwise.
pub deliveries-completions :
    {A : Type 0} (stringify : A → Result String (Option String)) (to_string : A → String)
    (h : Handlers) (frames : List (Frame A))
    → h.on_complete ≡ true
    → completions (deliveries stringify to_string h subscribed frames)
      ≡ at_most_one ((inspect_runtime_event_sequence (control_events frames)).terminal_count)
unfolding inspect_runtime_event_sequence
deliveries-completions stringify to_string h frames told =
    calls-completions stringify to_string h fresh frames told
