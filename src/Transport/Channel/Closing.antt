-- ===== src/Transport/Channel/Closing.antt =====
-- Every listener of a channel's end is told once.
use cavi_api_client.Base.{
  ℕ, ◌+◌, ◌≡◌, refl, ◌∙◌, ap, true, false, Option, none, some, List, [], ◌∷◌, ◌++◌, map, ◌==◌,
  Result, ok, err, arith, Bool-cases, inl, inr, All, All-append, ◌≢◌,
}
use cavi_api_client.Transport.Channel.{
  Decoder, Channel, ChannelEvent, take_pushed, take_finished, on_chunk, notify_closed,
  subscribe_close, create_framed_message_channel, opened, tell_all, chunk, bytes_closed,
  close_ended, subscribing, unsubscribing, subscribing_close, unsubscribing_close, close_error_of,
  step, run,
}
use cavi_api_client.Transport.Channel.Counts.{
  count, tells, tells-append, tells-map, count-append, count-delete, count-add, count-is_member,
}

All-map :
    {E : Type 0} (e : Option E) (xs : List ℕ)
    → All (λ (t : ℕ × Option E). t.1 ≡ e) (map (λ x. (x, e)) xs)
All-map e [] = tt
All-map e (x ∷ xs) = (refl, All-map e xs)

module _ {S M E : Type 0} (d : Decoder S M E) where
  -- A closed channel keeps no listener of its end; an open one has told none; and all are told the
  -- same end.
  record IsValid (s : Channel S M E) : Type 0 where
    kept_none : s.closed ≡ true → s.close_listeners ≡ []
    told_none : s.closed ≡ false → s.told ≡ []
    same_end : All (λ (t : ℕ × Option E). t.1 ≡ s.closed_error) s.told

  abbrev tally : ℕ → Channel S M E → ℕ
  tally k s = tells k s.told + count k s.close_listeners

  -- An event that neither subscribes nor unsubscribes a listener of the end.
  abbrev pub Untouched : ℕ → ChannelEvent d → Type 0
  Untouched k (subscribing_close x) = k ≢ x
  Untouched k (unsubscribing_close x) = k ≢ x
  Untouched k _ = Unit

  ended-tally :
      (k : ℕ) (e : Option E) (r : Result E (List M)) (s : Channel S M E)
      → tally k (tell_all d ((take_finished d e r s).0) ((take_finished d e r s).1)) ≡ tally k s
  ended-tally k e (ok ms) s = omega (
    arith,
    tells-append k s.told (map (λ x. (x, e)) s.close_listeners),
    tells-map k e s.close_listeners,
  )
  ended-tally k e (err f) s = omega (
    arith,
    tells-append k s.told (map (λ x. (x, some f)) s.close_listeners),
    tells-map k (some f) s.close_listeners,
  )

  notify_closed-tally :
      (k : ℕ) (e : Option E) (s : Channel S M E) → tally k (notify_closed d e s) ≡ tally k s
  unfolding notify_closed
  notify_closed-tally k e s = elim (Bool-cases s.closed) [
    | inl f ↦ rw f refl
    | inr f ↦
        rw f (ended-tally k e (d.finish s.decoder) (record s { closed = true; subscribed = false }))
  ]

  taken-tally :
      (k : ℕ) (r : Result E (List M) × S) (s : Channel S M E)
      → tally k (take_pushed d r s) ≡ tally k s
  taken-tally k (ok ms, state) s = refl
  taken-tally k (err e, state) s = refl

  step-tally :
      (k : ℕ) (e : ChannelEvent d) (s : Channel S M E)
      → Untouched k e
      → tally k (step d e s) ≡ tally k s
  unfolding step on_chunk subscribe_close
  step-tally k (chunk bytes) s u = elim (Bool-cases s.subscribed) [
    | inl f ↦ simp f (taken-tally k (d.push bytes s.decoder) s)
    | inr f ↦ rw f refl
  ]
  step-tally k (bytes_closed error) s u = notify_closed-tally k error s
  step-tally k (close_ended r) s u = notify_closed-tally k (close_error_of d r) s
  step-tally k (subscribing x) s u = refl
  step-tally k (unsubscribing x) s u = refl
  step-tally k (subscribing_close x) s u = elim (Bool-cases s.closed) [
    | inl f ↦
        let other : (x == k) ≡ false = ground arith in
        let more = tells-append k s.told ((x, s.closed_error) ∷ []) in
        let more' = rw other at more in simp f (omega (arith, more'))
    | inr f ↦ rw f (omega (arith, count-add k x s.close_listeners u))
  ]
  step-tally k (unsubscribing_close x) s u = omega (arith, count-delete k x s.close_listeners u)

  run-tally :
      (k : ℕ) (es : List (ChannelEvent d)) (s : Channel S M E)
      → All (Untouched k) es
      → tally k (run d es s) ≡ tally k s
  unfolding run
  run-tally k [] s u = refl
  run-tally k (e ∷ es) s u = run-tally k es (step d e s) (u.1) ∙ step-tally k e s (u.0)

  ended-IsValid :
      (e : Option E) (r : Result E (List M)) (s : Channel S M E)
      → s.closed ≡ true
      → s.told ≡ []
      → IsValid (tell_all d ((take_finished d e r s).0) ((take_finished d e r s).1))
  ended-IsValid e (ok ms) s c t = record {
    kept_none = λ _. refl;
    told_none = λ o. ground arith;
    same_end = rw t (All-map e s.close_listeners);
  }
  ended-IsValid e (err f) s c t = record {
    kept_none = λ _. refl;
    told_none = λ o. ground arith;
    same_end = rw t (All-map (some f) s.close_listeners);
  }

  notify_closed-IsValid :
      (e : Option E) (s : Channel S M E) → IsValid s → IsValid (notify_closed d e s)
  unfolding notify_closed
  notify_closed-IsValid e s v = elim (Bool-cases s.closed) [
    | inl f ↦ simp f v
    | inr f ↦ simp f (
        ended-IsValid e (d.finish s.decoder) (record s { closed = true; subscribed = false }) refl
          (v.told_none f))
  ]

  taken-IsValid :
      (r : Result E (List M) × S) (s : Channel S M E) → IsValid s → IsValid (take_pushed d r s)
  taken-IsValid (ok ms, state) s v = record {
    kept_none = v.kept_none;
    told_none = v.told_none;
    same_end = v.same_end;
  }
  taken-IsValid (err e, state) s v = record {
    kept_none = v.kept_none;
    told_none = v.told_none;
    same_end = v.same_end;
  }

  step-IsValid : (e : ChannelEvent d) (s : Channel S M E) → IsValid s → IsValid (step d e s)
  unfolding step on_chunk subscribe_close
  step-IsValid (chunk bytes) s v = elim (Bool-cases s.subscribed) [
    | inl f ↦ simp f (taken-IsValid (d.push bytes s.decoder) s v)
    | inr f ↦ simp f v
  ]
  step-IsValid (bytes_closed error) s v = notify_closed-IsValid error s v
  step-IsValid (close_ended r) s v = notify_closed-IsValid (close_error_of d r) s v
  step-IsValid (subscribing x) s v = record {
    kept_none = v.kept_none;
    told_none = v.told_none;
    same_end = v.same_end;
  }
  step-IsValid (unsubscribing x) s v = record {
    kept_none = v.kept_none;
    told_none = v.told_none;
    same_end = v.same_end;
  }
  step-IsValid (subscribing_close x) s v = elim (Bool-cases s.closed) [
    | inl f ↦ simp f (record {
      kept_none = λ _. v.kept_none f;
      told_none = λ o. ground arith;
      same_end =
          All-append (λ (t : ℕ × Option E). t.1 ≡ s.closed_error) s.told ((x, s.closed_error) ∷ [])
            v.same_end ((refl, tt));
    })
    | inr f ↦ simp f (record {
      kept_none = λ o. ground arith;
      told_none = λ _. v.told_none f;
      same_end = v.same_end;
    })
  ]
  step-IsValid (unsubscribing_close x) s v = record {
    kept_none = λ o. rw (v.kept_none o) refl;
    told_none = v.told_none;
    same_end = v.same_end;
  }

  run-IsValid : (es : List (ChannelEvent d)) (s : Channel S M E) → IsValid s → IsValid (run d es s)
  unfolding run
  run-IsValid [] s v = v
  run-IsValid (e ∷ es) s v = run-IsValid es (step d e s) (step-IsValid e s v)

  subscribed-tally :
      (k : ℕ) (s : Channel S M E) → tally k s ≡ 0 → tally k (step d (subscribing_close k) s) ≡ 1
  unfolding step subscribe_close
  subscribed-tally k s h =
      let same : (k == k) ≡ true = ground arith in
      elim (Bool-cases s.closed) [
        | inl f ↦
            let more = tells-append k s.told ((k, s.closed_error) ∷ []) in
            let more' = rw same at more in simp f (omega (arith, more', h))
        | inr f ↦
            let absent = count-is_member k s.close_listeners (omega (arith, h)) in
            let more = count-append k s.close_listeners (k ∷ []) in
            let more' = rw same at more in simp (f, absent) (omega (arith, more', h))
      ]

  create-tally :
      (k : ℕ) (already : Option (Option E)) (start : S)
      → tally k (create_framed_message_channel d already start) ≡ 0
  unfolding create_framed_message_channel
  create-tally k none start = omega arith
  create-tally k (some e) start = notify_closed-tally k e (opened d start) ∙ omega arith

  opened-IsValid : (start : S) → IsValid (opened d start)
  opened-IsValid start = record { kept_none = λ _. refl; told_none = λ _. refl; same_end = tt }

  create-IsValid :
      (already : Option (Option E)) (start : S)
      → IsValid (create_framed_message_channel d already start)
  unfolding create_framed_message_channel
  create-IsValid none start = opened-IsValid start
  create-IsValid (some e) start = notify_closed-IsValid e (opened d start) (opened-IsValid start)

  run-append :
      (es fs : List (ChannelEvent d)) (s : Channel S M E)
      → run d (es ++ fs) s ≡ run d fs (run d es s)
  unfolding run
  run-append [] fs s = refl
  run-append (e ∷ es) fs s = run-append es fs (step d e s)

  closed_tally :
      (k : ℕ) (s : Channel S M E) → IsValid s → s.closed ≡ true → tells k s.told ≡ tally k s
  closed_tally k s v c = rw (v.kept_none c) (omega arith)

  -- The channel after a run in which a listener of the end is subscribed between two lists of events.
  abbrev pub with_listener :
      (k : ℕ) (already : Option (Option E)) (start : S) (before after : List (ChannelEvent d))
      → Channel S M E
  with_listener k already start before after =
      run d (before ++ subscribing_close k ∷ after) (create_framed_message_channel d already start)

  with_listener-tally :
      (k : ℕ) (already : Option (Option E)) (start : S) (before after : List (ChannelEvent d))
      → All (Untouched k) before
      → All (Untouched k) after
      → tally k (with_listener k already start before after) ≡ 1
  unfolding run
  with_listener-tally k already start before after b a =
      let s = create_framed_message_channel d already start in
      let none_yet = run-tally k before s b ∙ create-tally k already start in
      ap (tally k) (run-append before (subscribing_close k ∷ after) s)
      ∙ run-tally k after (step d (subscribing_close k) (run d before s)) a
      ∙ subscribed-tally k (run d before s) none_yet

  -- A listener of the end that is subscribed once, and not unsubscribed, is told exactly once in
  -- every run that ends with the channel closed, whatever comes before and after, and also where the
  -- byte channel was closed from the start; and every listener that was told was told the same end.
  pub run-tells_once :
      (k : ℕ) (already : Option (Option E)) (start : S) (before after : List (ChannelEvent d))
      → All (Untouched k) before
      → All (Untouched k) after
      → (with_listener k already start before after).closed ≡ true
      → (tells k ((with_listener k already start before after).told) ≡ 1)
        × All
            (λ (t : ℕ × Option E). t.1 ≡ (with_listener k already start before after).closed_error)
            ((with_listener k already start before after).told)
  run-tells_once k already start before after b a c =
      let s = create_framed_message_channel d already start in
      let v =
        run-IsValid (before ++ subscribing_close k ∷ after) s (create-IsValid already start) in
      (closed_tally k _ v c ∙ with_listener-tally k already start before after b a, v.same_end)
