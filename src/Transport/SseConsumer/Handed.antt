-- ===== src/Transport/SseConsumer/Handed.antt =====
-- The messages that a consumer hands over are those that one drain of the whole text finds.
use mathlib.Core.List.{reverse, reverse-append, reverse-cons, append_assoc, append-nil}
use cavi_api_client.Base.{
  ℕ, zero, suc, ◌≤◌, ◌⊎◌, inl, inr, ◌≡◌, refl, ◌∙◌, ap, sym, Bool, true, false, Option, none, some,
  List, [], ◌∷◌, ◌++◌, length, if◌then◌else◌, ltb, arith, is_some, Bool-cases, Option-cases, ◌||◌,
}
use cavi_api_client.Base.Number.{Number}
use cavi_api_client.Base.Text.{Text}
use cavi_api_client.Transport.SseStream.{
  SseMessage, parse_sse_block, take_next_sse_block, emit, drain_sse_messages,
}
use cavi_api_client.Transport.SseStream.Blocks.{no_block}
use cavi_api_client.Transport.SseStream.Chunks.{
  loop-none, loop-some, loop-fuel, take-shorter, drain_sse_messages-append,
}
use cavi_api_client.Transport.SseConsumer.{
  Consumer, Read, chunk, done, failed, abort, Reaction, returns, aborts, throws, react, deliver,
  release, take_block, check_limit, drain_blocks, buffer_more, append_decoded, append_pieces,
  finish, on_read, read_failed, consume, idle,
}

-- The pieces of a chunk, one after the other.
abbrev joined : List Text → Text
joined [] = []
joined (piece ∷ pieces) = piece ++ joined pieces

-- The messages of a body whose text so far is given, the latest first: those of one drain of the
-- whole text and, where the body ends, what no boundary closed. A failed read and an abort end the
-- consumption otherwise, and nothing is said of it.
unfoldable pub body_messages : (Text → Number) → Text → List Read → List SseMessage
body_messages to_number text [] = reverse ((drain_sse_messages to_number text).0)
body_messages to_number text (chunk pieces ∷ reads) =
    body_messages to_number (text ++ joined pieces) reads
body_messages to_number text (done rest ∷ reads) =
    let (messages, left) = drain_sse_messages to_number (text ++ rest) in
    emit (parse_sse_block to_number left) (reverse messages)
body_messages to_number text (_ ∷ reads) = []

module _ (to_number : Text → Number) (byte_length : Text → ℕ)
    (handle : List SseMessage → SseMessage → Reaction) where
  react-kept :
      (r : Reaction) (c : Consumer)
      → ((react r c).buffer ≡ c.buffer) × ((react r c).messages ≡ c.messages)
  react-kept returns c = (refl, refl)
  react-kept aborts c = (refl, refl)
  react-kept (throws e) c = (refl, refl)

  deliver-kept :
      (m : Option SseMessage) (c : Consumer)
      → ((deliver to_number byte_length handle m c).buffer ≡ c.buffer)
        × ((deliver to_number byte_length handle m c).messages ≡ emit m c.messages)
  deliver-kept none c = (refl, refl)
  deliver-kept (some m) c =
      react-kept (handle c.messages m) (record c { messages = m ∷ c.messages })

  -- A consumption that stopped, or goes on with what is stated.
  abbrev Unless : Consumer → Type 0 → Type 0
  Unless c P = (is_some c.failure ≡ true) ⊎ (c.aborted ≡ true) ⊎ P

  -- A consumer drained what another one holds.
  abbrev Drained : Consumer → Consumer → Type 0
  Drained c later =
      (later.messages ≡ reverse ((drain_sse_messages to_number c.buffer).0) ++ c.messages)
      × (later.buffer ≡ (drain_sse_messages to_number c.buffer).1)

  abbrev Drains : Consumer → Consumer → Type 0
  Drains c later = Unless later (Drained c later)

  drain-none : (s : Text) → take_next_sse_block s ≡ none → drain_sse_messages to_number s ≡ ([], s)
  unfolding drain_sse_messages
  drain-none s h = loop-none to_number (length s) s h

  abbrev and_also : Option SseMessage → List SseMessage × Text → List SseMessage × Text
  and_also m (messages, left) = (emit m messages, left)

  drain-some :
      (s block rest : Text)
      → take_next_sse_block s ≡ some (block, rest)
      → drain_sse_messages to_number s
        ≡ and_also (parse_sse_block to_number block) (drain_sse_messages to_number rest)
  unfolding drain_sse_messages
  drain-some s block rest h =
      let short = take-shorter s block rest h in
      loop-fuel to_number (length s) (suc (length s)) s (omega arith) (omega arith)
      ∙ loop-some to_number (length s) s block rest h
      ∙ ap (and_also (parse_sse_block to_number block))
          (loop-fuel to_number (length s) (length rest) rest (omega arith) (omega arith))

  reverse-emit :
      (m : Option SseMessage) (ms before : List SseMessage)
      → reverse ms ++ emit m before ≡ reverse (emit m ms) ++ before
  reverse-emit none ms before = refl
  reverse-emit (some m) ms before =
      sym (ap (λ r. r ++ before) (reverse-cons m ms) ∙ append_assoc (reverse ms) (m ∷ []) before)

  take_block-kept :
      (max_bytes : ℕ) (block rest : Text) (c : Consumer)
      → (is_some (take_block to_number byte_length handle max_bytes block rest c).failure ≡ true)
        ⊎ (((take_block to_number byte_length handle max_bytes block rest c).buffer ≡ rest)
            × ((take_block to_number byte_length handle max_bytes block rest c).messages
                ≡ emit (parse_sse_block to_number block) c.messages))
  unfolding take_block release
  take_block-kept max_bytes block rest c = elim (Bool-cases (ltb max_bytes (byte_length block))) [
    | inl long ↦ rw long (inl refl)
    | inr short ↦ rw short (
        inr (
          deliver-kept (parse_sse_block to_number block)
            (release to_number byte_length handle block rest c)))
  ]

  Drains-before :
      (m : Option SseMessage) (rest : Text) (c after later : Consumer)
      → after.buffer ≡ rest
      → after.messages ≡ emit m c.messages
      → drain_sse_messages to_number c.buffer ≡ and_also m (drain_sse_messages to_number rest)
      → Drains after later
      → Drains c later
  Drains-before m rest c after later b k d (inl failing) = inl failing
  Drains-before m rest c after later b k d (inr (inl stopped)) = inr (inl stopped)
  Drains-before m rest c after later b k d (inr (inr (messages, buffer))) =
      let found = drain_sse_messages to_number rest in
      let same : drain_sse_messages to_number after.buffer ≡ found =
        ap (drain_sse_messages to_number) b in
      let first : later.messages ≡ reverse (found.0) ++ emit m c.messages =
        messages
        ∙ ap (λ r. reverse (r.0) ++ after.messages) same
        ∙ ap (λ k. reverse (found.0) ++ k) k in
      inr (
        inr (
          first
              ∙ reverse-emit m (found.0) c.messages
              ∙ ap (λ r. reverse (r.0) ++ c.messages) (sym d),
          buffer ∙ ap (λ r. r.1) same ∙ ap (λ r. r.1) (sym d),
        ))

  choose :
      (P : Consumer → Type 0) (stopped failing : Bool) (c after later : Consumer)
      → (stopped ≡ true → c.aborted ≡ true)
      → (failing ≡ true → Unless after (P after))
      → (stopped ≡ false → failing ≡ false → Unless later (P later))
      → Unless
          (if stopped then c else if failing then after else later)
          (P (if stopped then c else if failing then after else later))
  choose P true failing c after later hc ha hl = inr (inl (hc refl))
  choose P false true c after later hc ha hl = ha refl
  choose P false false c after later hc ha hl = hl refl refl

  drain_blocks-Drains :
      (fuel max_bytes : ℕ) (c : Consumer)
      → suc (length c.buffer) ≤ fuel
      → Drains c (drain_blocks to_number byte_length handle fuel max_bytes c)
  unfolding drain_blocks check_limit
  drain_blocks-Drains zero max_bytes c enough = ground arith
  drain_blocks-Drains (suc fuel) max_bytes c enough =
      elim (Option-cases (take_next_sse_block c.buffer)) [
        | inl h ↦
            rw (drain_blocks, h)
              (elim (Bool-cases (ltb max_bytes c.buffered_bytes)) [
                | inl over ↦ rw over (inl refl)
                | inr within ↦ rw (within, drain-none c.buffer h) (inr (inr (refl, refl)))
              ])
        | inr ((block, rest), h) ↦
            let after = take_block to_number byte_length handle max_bytes block rest c in
            let later = drain_blocks to_number byte_length handle fuel max_bytes after in
            let shorter = take-shorter c.buffer block rest h in
            rw (drain_blocks, h)
              (choose (Drained c) c.aborted (is_some after.failure) c after later (λ q. q)
                (λ q. inl q)
                (λ on well. elim (take_block-kept max_bytes block rest c) [
                  | inl fails ↦ ground arith
                  | inr (b, k) ↦
                      let small = ap (λ s. length s) b in
                      Drains-before (parse_sse_block to_number block) rest c after later b k
                        (drain-some c.buffer block rest h)
                        (drain_blocks-Drains fuel max_bytes after (omega arith))
                ]))
      ]

  -- A consumer that was given a text so far.
  abbrev HasTaken : Text → Consumer → Type 0
  HasTaken text c =
      (c.messages ≡ reverse ((drain_sse_messages to_number text).0))
      × (c.buffer ≡ (drain_sse_messages to_number text).1)

  abbrev Handed : Text → Consumer → Type 0
  Handed text c = Unless c (HasTaken text c)

  -- A consumer that neither failed nor was aborted.
  going-on :
      {P : Type 0} (c : Consumer) → is_some c.failure ≡ false → c.aborted ≡ false → Unless c P → P
  going-on c fine on (inl failing) = ground arith
  going-on c fine on (inr (inl stopped)) = ground arith
  going-on c fine on (inr (inr p)) = p

  drained-Handed :
      (text decoded : Text) (c later : Consumer)
      → c.messages ≡ reverse ((drain_sse_messages to_number text).0)
      → c.buffer ≡ (drain_sse_messages to_number text).1
      → Drains (buffer_more to_number byte_length handle decoded c) later
      → Handed (text ++ decoded) later
  drained-Handed text decoded c later ms b (inl failing) = inl failing
  drained-Handed text decoded c later ms b (inr (inl stopped)) = inr (inl stopped)
  drained-Handed text decoded c later ms b (inr (inr (messages, buffer))) =
      let found = drain_sse_messages to_number text in
      let more = drain_sse_messages to_number (found.1 ++ decoded) in
      let same : drain_sse_messages to_number (c.buffer ++ decoded) ≡ more =
        ap (λ s. drain_sse_messages to_number (s ++ decoded)) b in
      let all = drain_sse_messages-append to_number text decoded in
      inr (
        inr (
          messages
              ∙ ap (λ r. reverse (r.0) ++ c.messages) same
              ∙ ap (λ k. reverse (more.0) ++ k) ms
              ∙ sym (reverse-append (found.0) (more.0))
              ∙ ap (λ r. reverse (r.0)) (sym all),
          buffer ∙ ap (λ r. r.1) same ∙ ap (λ r. r.1) (sym all),
        ))

  append_decoded-Handed :
      (max_bytes : ℕ) (text decoded : Text) (c : Consumer)
      → is_some c.failure ≡ false
      → Handed text c
      → Handed (text ++ decoded) (append_decoded to_number byte_length handle max_bytes decoded c)
  unfolding append_decoded
  append_decoded-Handed max_bytes text [] c fine h = rw (append-nil text) h
  append_decoded-Handed max_bytes text (d ∷ ds) c fine h =
      let more = buffer_more to_number byte_length handle (d ∷ ds) c in
      let later =
        drain_blocks to_number byte_length handle (suc (length more.buffer)) max_bytes more in
      choose (HasTaken (text ++ d ∷ ds)) c.aborted false c c later (λ q. q) (λ q. ground arith)
        (λ on well.
          let (ms, b) = going-on c fine on h in
          drained-Handed text (d ∷ ds) c later ms b
            (drain_blocks-Drains (suc (length more.buffer)) max_bytes more (omega arith)))

  append_pieces-Handed :
      (max_bytes : ℕ) (pieces : List Text) (text : Text) (c : Consumer)
      → is_some c.failure ≡ false
      → Handed text c
      → Handed
          (text ++ joined pieces)
          (append_pieces to_number byte_length handle max_bytes pieces c)
  unfolding append_pieces
  append_pieces-Handed max_bytes [] text c fine h = rw (append-nil text) h
  append_pieces-Handed max_bytes (piece ∷ pieces) text c fine h =
      let after = append_decoded to_number byte_length handle max_bytes piece c in
      let handed = append_decoded-Handed max_bytes text piece c fine h in
      choose (HasTaken (text ++ joined (piece ∷ pieces))) c.aborted (is_some after.failure) c after
        (append_pieces to_number byte_length handle max_bytes pieces after) (λ q. q) (λ q. inl q)
        (λ on well.
          rw (← append_assoc text piece (joined pieces))
            (append_pieces-Handed max_bytes pieces (text ++ piece) after well handed))

  -- A consumer that was given the whole text of a body that ended.
  abbrev HasEnded : Text → Consumer → Type 0
  HasEnded text c =
      c.messages
      ≡ emit (parse_sse_block to_number ((drain_sse_messages to_number text).1))
          (reverse ((drain_sse_messages to_number text).0))

  finish-HasEnded :
      (text : Text) (c : Consumer)
      → Handed text c
      → Unless
          (finish to_number byte_length handle c)
          (HasEnded text (finish to_number byte_length handle c))
  unfolding finish
  finish-HasEnded text c h = elim (Bool-cases (c.aborted || is_some c.failure)) [
    | inl stopped ↦
        simp stopped
          (elim (Bool-cases c.aborted) [ inl a ↦ inr (inl a) | inr on ↦ inl (ground arith) ])
    | inr well ↦
        let (ms, b) = going-on c (ground arith) (ground arith) h in
        let (_, told) = deliver-kept (parse_sse_block to_number c.buffer) c in
        simp well (
          inr (
            inr (
              told
              ∙ ap (λ s. emit (parse_sse_block to_number s) c.messages) b
              ∙ ap (emit (parse_sse_block to_number ((drain_sse_messages to_number text).1))) ms)))
  ]

  if-true : (b : Bool) (c later : Consumer) → b ≡ true → (if b then c else later) ≡ c
  if-true true c later h = refl
  if-true false c later h = ground arith

  consume-stopped :
      (max_bytes : ℕ) (reads : List Read) (c : Consumer)
      → c.aborted ≡ true
      → (consume to_number byte_length handle max_bytes reads c).aborted ≡ true
  unfolding consume
  consume-stopped max_bytes [] c h = h
  consume-stopped max_bytes (r ∷ reads) c h = ap (λ k. k.aborted) (if-true c.aborted c _ h) ∙ h

  -- A body's messages, unless the consumption failed or was aborted.
  abbrev pub HandsOver : Text → List Read → Consumer → Type 0
  HandsOver text reads c = Unless c (c.messages ≡ body_messages to_number text reads)

  consume-HandsOver :
      (max_bytes : ℕ) (reads : List Read) (text : Text) (c : Consumer)
      → is_some c.failure ≡ false
      → Handed text c
      → HandsOver text reads (consume to_number byte_length handle max_bytes reads c)
  unfolding consume on_read body_messages
  consume-HandsOver max_bytes [] text c fine h = elim h [
    | inl failing ↦ inl failing
    | inr (inl stopped) ↦ inr (inl stopped)
    | inr (inr (ms, b)) ↦ inr (inr ms)
  ]
  consume-HandsOver max_bytes (chunk pieces ∷ reads) text c fine h =
      let after = append_pieces to_number byte_length handle max_bytes pieces c in
      let handed = append_pieces-Handed max_bytes pieces text c fine h in
      choose (λ c. c.messages ≡ body_messages to_number (text ++ joined pieces) reads) c.aborted
        (is_some after.failure) c after (consume to_number byte_length handle max_bytes reads after)
        (λ q. q) (λ q. inl q)
        (λ on well. consume-HandsOver max_bytes reads (text ++ joined pieces) after well handed)
  consume-HandsOver max_bytes (done rest ∷ reads) text c fine h =
      let after =
        finish to_number byte_length handle
          (append_decoded to_number byte_length handle max_bytes rest c) in
      let ended =
        finish-HasEnded (text ++ rest) _ (append_decoded-Handed max_bytes text rest c fine h) in
      choose (HasEnded (text ++ rest)) c.aborted true c after
        (consume to_number byte_length handle max_bytes reads after) (λ q. q) (λ q. ended)
        (λ on q. ground arith)
  consume-HandsOver max_bytes (failed e ∷ reads) text c fine h =
      let after = record c { failure = some (read_failed e) } in
      choose (λ c. c.messages ≡ []) c.aborted true c after
        (consume to_number byte_length handle max_bytes reads after) (λ q. q) (λ q. inl refl)
        (λ on q. ground arith)
  consume-HandsOver max_bytes (abort ∷ reads) text c fine h =
      let after = record c { aborted = true } in
      choose (λ c. c.messages ≡ []) c.aborted (is_some c.failure) c after
        (consume to_number byte_length handle max_bytes reads after) (λ q. q) (λ q. inr (inl refl))
        (λ on well. inr (inl (consume-stopped max_bytes reads after refl)))

  pub consume-idle :
      (max_bytes : ℕ) (reads : List Read)
      → HandsOver [] reads (consume to_number byte_length handle max_bytes reads idle)
  consume-idle max_bytes reads =
      consume-HandsOver max_bytes reads [] idle refl
        (rw (drain-none [] no_block) (inr (inr (refl, refl))))
