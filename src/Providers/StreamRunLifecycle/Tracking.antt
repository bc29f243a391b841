-- ===== src/Providers/StreamRunLifecycle/Tracking.antt =====
-- The signals and the listeners of the tracked calls.
use cavi_api_client.Base.{
  ℕ, ◌≡◌, ◌∙◌, refl, sym, Bool-cases, ◌⊎◌, inl, inr, Bool, true, false, not, ◌||◌, ◌==◌, List, [],
  ◌∷◌, map, any, get_elem?, Option, none, some, All, All-append, All-set, All-get_elem?, arith,
}
use cavi_api_client.Providers.StreamRunLifecycle.{
  Call, Tracker, has_fired, signal_aborted, compose_tracked_signal, start, abort, hear, settle,
  dispose, settle_at, Event, called, settled, caller_aborted, disposed_all, step, run, tracked,
}

-- A call that runs: its signal is aborted exactly if the tracker was disposed or the caller's signal
-- was aborted, and else each of the two can still abort it. A call that settled: nothing listens for
-- it, and no disposal aborts it.
abbrev Running : (disposed fired : Bool) → Option ℕ → Call → Type 0
Running disposed fired none c =
    (c.aborted ≡ disposed)
    × (c.live ≡ not disposed)
    × (c.on_internal ≡ false)
    × (c.on_caller ≡ false)
    × (fired ≡ false)
Running disposed fired (some s) c =
    (c.aborted ≡ disposed)
    × (c.live ≡ not disposed)
    × (c.composed ≡ (disposed || fired))
    × ((c.on_internal ≡ true) × (c.on_caller ≡ true) ⊎ (c.composed ≡ true))

abbrev Over : Call → Type 0
Over c = (c.settled ≡ true) × (c.live ≡ false) × (c.on_internal ≡ false) × (c.on_caller ≡ false)

abbrev IsTracked : Bool → List ℕ → Call → Type 0
IsTracked disposed fired c =
    (c.settled ≡ false) × Running disposed (has_fired fired c.caller) c.caller c ⊎ Over c

-- The steps on one call. A caller's signal that is none has not fired.
start-IsTracked : (caller : Option ℕ) (t : Tracker) → IsTracked t.disposed t.fired (start caller t)
unfolding start compose_tracked_signal has_fired
start-IsTracked none t = inl (refl, (refl, refl, refl, refl, refl))
start-IsTracked (some s) t = elim (Bool-cases (t.disposed || any (λ f. f == s) t.fired)) [
  | inl ended ↦ rw (ended) (inl (refl, (refl, refl, sym ended, inr refl)))
  | inr free ↦ rw (free) (inl (refl, (refl, refl, sym free, inl (refl, refl))))
]

settle-Over : (c : Call) → Over (settle c)
unfolding settle
settle-Over c = (refl, refl, refl, refl)

alive_if :
    (d fired : Bool) (caller : Option ℕ) (c : Call)
    → Running d fired caller c
    → (c.aborted ≡ d) × (c.live ≡ not d)
alive_if d f none c r = (r.0, r.1)
alive_if d f (some s) c r = (r.0, r.1)

dispose_dead : (c : Call) → c.live ≡ false → dispose c ≡ c
unfolding dispose
dispose_dead c h = rw (h) refl

abbrev stopped : Call → Call
stopped c = record c {
  aborted = true;
  composed = c.composed || c.on_internal;
  on_internal = false;
  live = false;
}

dispose_live : (c : Call) → c.live ≡ true → c.aborted ≡ false → dispose c ≡ stopped c
unfolding dispose abort
dispose_live c h fresh = rw (h, fresh) refl

stopped-Running :
    (fired : Bool) (caller : Option ℕ) (c : Call)
    → Running false fired caller c
    → Running true fired caller (stopped c)
stopped-Running f none c (a, l, i, o, n) = (refl, refl, refl, o, n)
stopped-Running f (some s) c (a, l, m, inl (i, o)) = (refl, refl, ground arith, inr (ground arith))
stopped-Running f (some s) c (a, l, m, inr m') = (refl, refl, ground arith, inr (ground arith))

dispose-IsTracked :
    (d : Bool) (fired : List ℕ) (c : Call) → IsTracked d fired c → IsTracked true fired (dispose c)
dispose-IsTracked d fired c (inr over) = rw (dispose_dead c over.1) (inr over)
dispose-IsTracked true fired c (inl (on, running)) =
    let (_, dead) = alive_if true (has_fired fired c.caller) c.caller c running in
    rw (dispose_dead c dead) (inl (on, running))
dispose-IsTracked false fired c (inl (on, running)) =
    let (fresh, live) = alive_if false (has_fired fired c.caller) c.caller c running in
    rw (dispose_live c live fresh)
      (inl (on, stopped-Running (has_fired fired c.caller) c.caller c running))

hear-Running :
    (d : Bool) (fired : List ℕ) (s : ℕ) (caller : Option ℕ) (c : Call)
    → Running d (has_fired fired caller) caller c
    → Running d (has_fired (s ∷ fired) caller) caller (hear s caller c)
unfolding hear has_fired
hear-Running d fired s none c r = r
hear-Running d fired s (some own) c (a, l, m, ready) = elim (Bool-cases (s == own)) [
  | inl same ↦ elim (Bool-cases c.on_caller) [
    | inl on ↦ rw (same, on) (a, l, ground arith, inr refl)
    | inr off ↦ simp (same, off) (a, l, ground arith, inr (ground arith))
  ]
  | inr other ↦ rw (other) (a, l, m, ready)
]

hear_caller : (s : ℕ) (caller : Option ℕ) (c : Call) → (hear s caller c).caller ≡ c.caller
unfolding hear
hear_caller s none c = refl
hear_caller s (some own) c = ground arith

hear_settled : (s : ℕ) (caller : Option ℕ) (c : Call) → (hear s caller c).settled ≡ c.settled
unfolding hear
hear_settled s none c = refl
hear_settled s (some own) c = ground arith

hear_silent : (s : ℕ) (caller : Option ℕ) (c : Call) → c.on_caller ≡ false → hear s caller c ≡ c
unfolding hear
hear_silent s none c h = refl
hear_silent s (some own) c h = elim (Bool-cases (s == own)) [
  | inl same ↦ simp (same, h) refl
  | inr other ↦ simp (other) refl
]

hear-IsTracked :
    (d : Bool) (fired : List ℕ) (s : ℕ) (c : Call)
    → IsTracked d fired c
    → IsTracked d (s ∷ fired) (hear s c.caller c)
hear-IsTracked d fired s c (inr over) = rw (hear_silent s c.caller c over.3) (inr over)
hear-IsTracked d fired s c (inl (on, running)) = inl (
  hear_settled s c.caller c ∙ on,
  simp (hear_caller s c.caller c) (hear-Running d fired s c.caller c running),
)

-- What holds of every call of a tracker.
abbrev AllTracked : Tracker → Type 0
AllTracked t = All (IsTracked t.disposed t.fired) t.calls

All-map :
    (d d' : Bool) (fired fired' : List ℕ) (f : Call → Call)
    → ((c : Call) → IsTracked d fired c → IsTracked d' fired' (f c))
    → (calls : List Call) → All (IsTracked d fired) calls
    → All (IsTracked d' fired') (map f calls)
All-map d d' fired fired' f keeps [] h = tt
All-map d d' fired fired' f keeps (c ∷ calls) h =
    (keeps c h.0, All-map d d' fired fired' f keeps calls h.1)

settle_at-IsTracked :
    (d : Bool) (fired : List ℕ) (i : ℕ) (c : Option Call) (calls : List Call)
    → All (IsTracked d fired) calls
    → All (IsTracked d fired) (settle_at i c calls)
unfolding settle_at
settle_at-IsTracked d fired i none calls h = h
settle_at-IsTracked d fired i (some c) calls h =
    All-set (IsTracked d fired) calls i (settle c) h (inr (settle-Over c))

step-AllTracked : (t : Tracker) (e : Event) → AllTracked t → AllTracked (step t e)
unfolding step
step-AllTracked t (called caller) h =
    All-append (IsTracked t.disposed t.fired) t.calls (start caller t ∷ []) h
      (start-IsTracked caller t, tt)
step-AllTracked t (settled i) h =
    settle_at-IsTracked t.disposed t.fired i (get_elem? t.calls i) t.calls h
step-AllTracked t (caller_aborted s) h =
    All-map t.disposed t.disposed t.fired (s ∷ t.fired) (λ c. hear s c.caller c)
      (hear-IsTracked t.disposed t.fired s) t.calls h
step-AllTracked t disposed_all h =
    All-map t.disposed true t.fired t.fired dispose (dispose-IsTracked t.disposed t.fired) t.calls h

run-AllTracked : (t : Tracker) (es : List Event) → AllTracked t → AllTracked (run t es)
unfolding run
run-AllTracked t [] h = h
run-AllTracked t (e ∷ es) h = run-AllTracked (step t e) es (step-AllTracked t e h)

Running-signal :
    (d fired : Bool) (caller : Option ℕ) (c : Call)
    → Running d fired caller c
    → signal_aborted caller c ≡ (d || fired)
unfolding signal_aborted
Running-signal d f none c r = ground arith
Running-signal d f (some s) c r = r.2

-- Whatever calls, settlings, aborts and disposals come in whatever order: the signal of a call that
-- has not settled is aborted exactly if the tracker was disposed or the caller's signal was aborted;
-- and for a call that has settled no signal holds a listener, and no disposal aborts it.
pub run-IsTracked :
    (es : List Event) (i : ℕ) (c : Call)
    → get_elem? (run tracked es).calls i ≡ some c
    → (c.settled ≡ false)
        × (signal_aborted c.caller c
            ≡ ((run tracked es).disposed || has_fired (run tracked es).fired c.caller))
      ⊎ (c.settled ≡ true) × (c.on_internal ≡ false) × (c.on_caller ≡ false) × (dispose c ≡ c)
run-IsTracked es i c at =
    let t = run tracked es in
    elim (All-get_elem? (IsTracked t.disposed t.fired) t.calls i c (run-AllTracked tracked es tt)
      at) [
        | inl (on, running) ↦
            inl (on, Running-signal t.disposed (has_fired t.fired c.caller) c.caller c running)
        | inr (over, dead, internal, caller) ↦ inr (over, internal, caller, dispose_dead c dead)
      ]
