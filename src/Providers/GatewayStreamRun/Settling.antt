-- ===== src/Providers/GatewayStreamRun/Settling.antt =====
-- A streamed run settles once, completes once at most, and is silent once settled.
use cavi_api_client.Base.{
  ℕ, suc, ◌⊎◌, inl, inr, ◌≡◌, refl, ◌∙◌, ap, Bool, true, false, not, ◌||◌, Option, none, some, List,
  [], ◌∷◌, ◌++◌, if◌then◌else◌, arith,
}
use cavi_api_client.Runtime.RunStream.{
  StreamError, is_non_terminal_stream_error, object, primitive, name_of,
}
use cavi_api_client.Providers.GatewayStreamRun.{
  Settlement, resolved, transport_unavailable, rejected, Call, on_event, on_error, on_complete,
  Stream, open_stream, fire_complete, finish, Heard, event, error, completed, aborted, subscribed,
  subscribe_failed, hear, hear_all, hear_event, hear_error, count_if, end_if, error_settles,
  settlement_of, is_terminal,
}

unfoldable pub completions : List Call → ℕ
completions [] = 0
completions (on_complete ∷ cs) = suc (completions cs)
completions (on_event _ ∷ cs) = completions cs
completions (on_error _ ∷ cs) = completions cs

unfoldable pub subscriptions : List Heard → ℕ
subscriptions [] = 0
subscriptions (subscribed ∷ hs) = suc (subscriptions hs)
subscriptions (_ ∷ hs) = subscriptions hs

abbrev one_if : Bool → ℕ
one_if b = count_if b 0

-- Still open, with nothing told, settled or disposed.
pub Open : Stream → Type 0
Open s =
    (s.settled ≡ false)
    × (s.complete_fired ≡ false)
    × (completions (s.calls) ≡ 0)
    × (s.settlements ≡ [])
    × (s.disposals ≡ 0)

-- Settled once; told of the completion at most once, and only where the promise resolved.
pub Closed : Stream → Type 0
Closed s =
    (s.settled ≡ true)
    × (((completions (s.calls) ≡ 0) × (how : Settlement) × (s.settlements ≡ how ∷ []))
        ⊎ ((completions (s.calls) ≡ 1) × (s.settlements ≡ resolved ∷ [])))

finish-Closed : (how : Settlement) (s : Stream) → Open s → Closed (finish how s)
unfolding finish Open Closed
finish-Closed how s o = ground arith

complete-Closed : (s : Stream) → Open s → Closed (finish resolved (fire_complete s))
unfolding finish fire_complete Open Closed completions
complete-Closed s o = ground arith

called-Open :
    (c : Call) (s : Stream)
    → completions (c ∷ []) ≡ 0
    → Open s
    → Open (record s { calls = c ∷ s.calls })
unfolding Open completions
called-Open (on_event e) s h o = ground arith
called-Open (on_error e) s h o = ground arith
called-Open on_complete s h o = ground arith

end-Open : (ends : Bool) (s : Stream) → Open s → Open (end_if ends s) ⊎ Closed (end_if ends s)
unfolding end_if
end-Open true s o = inr (complete-Closed s o)
end-Open false s o = inl o

error-Open :
    (e : Option StreamError) (s : Stream)
    → Open s
    → Open (error_settles e s) ⊎ Closed (error_settles e s)
unfolding error_settles
error-Open none s o = inr (finish-Closed transport_unavailable s o)
error-Open (some (object frozen true text)) s o = inl o
error-Open (some (object frozen false text)) s o =
    inr (finish-Closed (rejected (object frozen false text)) s o)
error-Open (some (primitive text)) s o = inr (finish-Closed (rejected (primitive text)) s o)

subscribed-Open :
    (s : Stream)
    → Open s
    → Open (record s { subscription = true; disposals = count_if (s.settled) (s.disposals) })
unfolding Open
subscribed-Open s o = ground arith

unsettled :
    (settled : Bool) (s later : Stream)
    → settled ≡ false
    → Open later ⊎ Closed later
    → Open (if settled then s else later) ⊎ Closed (if settled then s else later)
unsettled true s later h o = ground arith
unsettled false s later h o = o

Open-unsettled : (s : Stream) → Open s → s.settled ≡ false
unfolding Open
Open-unsettled s o = o.0

hear-Open : (h : Heard) (s : Stream) → Open s → Open (hear h s) ⊎ Closed (hear h s)
unfolding hear hear_event hear_error completions
hear-Open (event e) s o =
    unsettled (s.settled) s _ (Open-unsettled s o)
      (end-Open (is_terminal (name_of (e.payload))) _ (called-Open (on_event e) s refl o))
hear-Open (error e) s o =
    unsettled (s.settled) s _ (Open-unsettled s o)
      (error-Open e _ (called-Open (on_error e) s refl o))
hear-Open completed s o = inr (complete-Closed s o)
hear-Open aborted s o = inr (finish-Closed resolved s o)
hear-Open subscribed s o = inl (subscribed-Open s o)
hear-Open (subscribe_failed e) s o = inr (finish-Closed (settlement_of e) s o)

hear-silent :
    (h : Heard) (s : Stream)
    → s.settled ≡ true
    → ((hear h s).settled ≡ true)
      × ((hear h s).calls ≡ s.calls)
      × ((hear h s).settlements ≡ s.settlements)
unfolding hear hear_event hear_error finish fire_complete
hear-silent (event e) s h = ground arith
hear-silent (error e) s h = ground arith
hear-silent completed s h = ground arith
hear-silent aborted s h = ground arith
hear-silent subscribed s h = (h, refl, refl)
hear-silent (subscribe_failed e) s h = ground arith

settled-silent :
    (hs : List Heard) (s : Stream)
    → s.settled ≡ true
    → ((hear_all hs s).settled ≡ true)
      × ((hear_all hs s).calls ≡ s.calls)
      × ((hear_all hs s).settlements ≡ s.settlements)
unfolding hear_all
settled-silent [] s h = (h, refl, refl)
settled-silent (x ∷ xs) s h =
    let (still, same, alike) = hear-silent x s h in
    let (ever, all_same, all_alike) = settled-silent xs (hear x s) still in
    (ever, all_same ∙ same, all_alike ∙ alike)

Closed-kept : (hs : List Heard) (s : Stream) → Closed s → Closed (hear_all hs s)
unfolding Closed
Closed-kept hs s c =
    let (still, same, alike) = settled-silent hs s (c.0) in
    let told = ap completions same in ground arith

hear_all-either :
    (hs : List Heard) (s : Stream) → Open s → Open (hear_all hs s) ⊎ Closed (hear_all hs s)
unfolding hear_all
hear_all-either [] s o = inl o
hear_all-either (h ∷ hs) s o = elim (hear-Open h s o) [
  | inl still ↦ hear_all-either hs (hear h s) still
  | inr ended ↦ inr (Closed-kept hs (hear h s) ended)
]

-- What ends a stream: a terminal event, an error without the mark, the completion, an abort, or a
-- refused subscription.
abbrev pub ends_stream : Heard → Bool
ends_stream (event e) = is_terminal (name_of (e.payload))
ends_stream (error none) = true
ends_stream (error (some e)) = not (is_non_terminal_stream_error e)
ends_stream completed = true
ends_stream aborted = true
ends_stream subscribed = false
ends_stream (subscribe_failed e) = true

pub any_ends : List Heard → Bool
any_ends [] = false
any_ends (h ∷ hs) = ends_stream h || any_ends hs

end-settled : (ends : Bool) (s : Stream) → (end_if ends s).settled ≡ s.settled || ends
unfolding end_if finish fire_complete
end-settled true s = ground arith
end-settled false s = ground arith

hear-settled : (h : Heard) (s : Stream) → (hear h s).settled ≡ s.settled || ends_stream h
unfolding hear hear_event hear_error finish fire_complete error_settles
hear-settled (event e) s =
    let ended =
      end-settled (is_terminal (name_of (e.payload))) (record s { calls = on_event e ∷ s.calls }) in
    ground arith
hear-settled (error none) s = ground arith
hear-settled (error (some (object frozen true text))) s = ground arith
hear-settled (error (some (object frozen false text))) s = ground arith
hear-settled (error (some (primitive text))) s = ground arith
hear-settled completed s = ground arith
hear-settled aborted s = ground arith
hear-settled subscribed s = ground arith
hear-settled (subscribe_failed e) s = ground arith

settled-any : (hs : List Heard) (s : Stream) → (hear_all hs s).settled ≡ s.settled || any_ends hs
unfolding hear_all any_ends
settled-any [] s = ground arith
settled-any (h ∷ hs) s =
    let now = hear-settled h s in let rest = settled-any hs (hear h s) in ground arith

hear_all-append :
    (first second : List Heard) (s : Stream)
    → hear_all (first ++ second) s ≡ hear_all second (hear_all first s)
unfolding hear_all
hear_all-append [] second s = refl
hear_all-append (h ∷ hs) second s = hear_all-append hs second (hear h s)

-- Whatever is heard, a started stream is either still open, with no completion told, or has settled
-- exactly once, told the completion once at most, and told it only where it resolved.
pub hear_all-Settles :
    (heard : List Heard) → Open (hear_all heard open_stream) ⊎ Closed (hear_all heard open_stream)
unfolding Open completions
hear_all-Settles heard = hear_all-either heard open_stream (refl, refl, refl, refl, refl)

-- Whatever is heard, a started stream has settled exactly if something that ends it was heard: a
-- terminal event, an error without the mark, the completion, an abort or a refused subscription.
pub hear_all-settled : (heard : List Heard) → (hear_all heard open_stream).settled ≡ any_ends heard
hear_all-settled heard = settled-any heard open_stream

-- Once a stream has settled, what it hears after that calls no handler and settles nothing.
pub hear_all-Silent :
    (first second : List Heard)
    → (hear_all first open_stream).settled ≡ true
    → ((hear_all (first ++ second) open_stream).calls ≡ (hear_all first open_stream).calls)
      × ((hear_all (first ++ second) open_stream).settlements
          ≡ (hear_all first open_stream).settlements)
hear_all-Silent first second h =
    let (still, same, alike) = settled-silent second (hear_all first open_stream) h in
    rw (hear_all-append first second open_stream) (same, alike)
