-- ===== src/Transport/SseStream/Chunks.antt =====
-- The drain of a buffer: its fuel, and that a cut of the text into chunks does not show.
use cavi_api_client.Base.{
  ℕ, zero, suc, ◌≤◌, ◌≡◌, refl, ◌∙◌, ap, sym, Option, none, some, List, [], ◌∷◌, ◌++◌, length,
  arith, inl, inr, Option-cases, length-append,
}
use cavi_api_client.Base.Text.{Text}
use cavi_api_client.Base.Number.{Number}
use cavi_api_client.Transport.SseStream.{
  SseMessage, take_next_sse_block, parse_sse_block, emit, drain_loop, drain_sse_messages,
}
use cavi_api_client.Transport.SseStream.Blocks.{
  no_block, take_next_sse_block-eq-scan, scan-append, scan-shorter,
}

take-append :
    (s t block rest : Text)
    → take_next_sse_block s ≡ some (block, rest)
    → take_next_sse_block (s ++ t) ≡ some (block, rest ++ t)
take-append s t block rest h =
    take_next_sse_block-eq-scan (s ++ t)
    ∙ scan-append s t block rest (sym (take_next_sse_block-eq-scan s) ∙ h)

pub take-shorter :
    (s block rest : Text)
    → take_next_sse_block s ≡ some (block, rest)
    → suc (length rest) ≤ length s
take-shorter s block rest h = scan-shorter s block rest (sym (take_next_sse_block-eq-scan s) ∙ h)

-- A message and a rest, after one more message.
abbrev also : Option SseMessage → List SseMessage × Text → List SseMessage × Text
also m (messages, left) = (emit m messages, left)

module _ (to_number : Text → Number) where
  pub loop-none :
      (f : ℕ) (s : Text) → take_next_sse_block s ≡ none → drain_loop f to_number s ≡ ([], s)
  unfolding drain_loop
  loop-none zero s h = refl
  loop-none (suc f) s h = rw (drain_loop, h)

  pub loop-some :
      (f : ℕ) (s block rest : Text)
      → take_next_sse_block s ≡ some (block, rest)
      → drain_loop (suc f) to_number s
        ≡ also (parse_sse_block to_number block) (drain_loop f to_number rest)
  unfolding drain_loop
  loop-some f s block rest h = rw (drain_loop, h)

  loop-empty : (f : ℕ) → drain_loop f to_number [] ≡ ([], [])
  loop-empty f = loop-none f [] no_block

  pub loop-fuel :
      (f g : ℕ) (s : Text)
      → length s ≤ f
      → length s ≤ g
      → drain_loop f to_number s ≡ drain_loop g to_number s
  loop-fuel zero g [] hf hg = loop-empty zero ∙ sym (loop-empty g)
  loop-fuel zero g (c ∷ s) hf hg = ground arith
  loop-fuel (suc f) zero [] hf hg = loop-empty (suc f) ∙ sym (loop-empty zero)
  loop-fuel (suc f) zero (c ∷ s) hf hg = ground arith
  loop-fuel (suc f) (suc g) s hf hg = elim (Option-cases (take_next_sse_block s)) [
    | inl h ↦ loop-none (suc f) s h ∙ sym (loop-none (suc g) s h)
    | inr ((block, rest), h) ↦
        let short = take-shorter s block rest h in
        loop-some f s block rest h
        ∙ ap (also (parse_sse_block to_number block))
            (loop-fuel f g rest (omega arith) (omega arith))
        ∙ sym (loop-some g s block rest h)
  ]

  loop-rest :
      (f : ℕ) (s : Text)
      → length s ≤ f
      → (length ((drain_loop f to_number s).1) ≤ length s)
        × (take_next_sse_block ((drain_loop f to_number s).1) ≡ none)
  loop-rest zero [] hf = rw (loop-empty zero) (omega arith, no_block)
  loop-rest zero (c ∷ s) hf = ground arith
  loop-rest (suc f) s hf = elim (Option-cases (take_next_sse_block s)) [
    | inl h ↦ rw (loop-none (suc f) s h) (omega arith, h)
    | inr ((block, rest), h) ↦
        let short = take-shorter s block rest h in
        let (small, done) = loop-rest f rest (omega arith) in
        rw (loop-some f s block rest h) (omega arith, done)
  ]

  -- What one drain and a second over its rest and more text come to.
  abbrev then_drain : List SseMessage × Text → (f : ℕ) → Text → List SseMessage × Text
  then_drain (messages, left) f t =
      let (more, rest) = drain_loop f to_number (left ++ t) in (messages ++ more, rest)

  then-also :
      (m : Option SseMessage) (first : List SseMessage × Text) (f : ℕ) (t : Text)
      → then_drain (also m first) f t ≡ also m (then_drain first f t)
  then-also none first f t = refl
  then-also (some m) first f t = refl

  then-fuel :
      (first : List SseMessage × Text) (f g : ℕ) (t : Text)
      → length (first.1 ++ t) ≤ f
      → length (first.1 ++ t) ≤ g
      → then_drain first f t ≡ then_drain first g t
  then-fuel (messages, left) f g t hf hg =
      ap (λ (more, rest). (messages ++ more, rest)) (loop-fuel f g (left ++ t) hf hg)

  loop-append :
      (f g : ℕ) (s t : Text)
      → length s ≤ f
      → length (s ++ t) ≤ g
      → drain_loop g to_number (s ++ t) ≡ then_drain (drain_loop f to_number s) g t
  loop-append zero g [] t hf hg = rw (loop-empty zero) refl
  loop-append zero g (c ∷ s) t hf hg = ground arith
  loop-append (suc f) zero [] t hf hg = rw (loop-empty (suc f)) refl
  loop-append (suc f) zero (c ∷ s) t hf hg = ground arith
  loop-append (suc f) (suc g) s t hf hg = elim (Option-cases (take_next_sse_block s)) [
    | inl h ↦ rw (loop-none (suc f) s h) refl
    | inr ((block, rest), h) ↦
        let m = parse_sse_block to_number block in
        let first = drain_loop f to_number rest in
        let short = take-shorter s block rest h in
        let left = (loop-rest f rest (omega arith)).0 in
        let here = length-append s t in
        let there = length-append rest t in
        let after = length-append (first.1) t in
        loop-some g (s ++ t) block (rest ++ t) (take-append s t block rest h)
        ∙ ap (also m) (loop-append f g rest t (omega arith) (omega arith))
        ∙ ap (also m) (then-fuel first g (suc g) t (omega arith) (omega arith))
        ∙ sym (then-also m first (suc g) t)
        ∙ ap (λ r. then_drain r (suc g) t) (sym (loop-some f s block rest h))
  ]

-- For every way to read numbers and every buffer, the text that a drain leaves has no complete
-- block: its fuel is enough.
pub drain_sse_messages-Drained :
    (to_number : Text → Number) (buffer : Text)
    → take_next_sse_block ((drain_sse_messages to_number buffer).1) ≡ none
unfolding drain_sse_messages
drain_sse_messages-Drained to_number buffer =
    (loop-rest to_number (length buffer) buffer (omega arith)).1

-- For every cut of a text into two chunks, the messages of the whole text are those of the first
-- chunk, then those of what the first drain left with the second chunk; and both leave the same
-- rest.
pub drain_sse_messages-append :
    (to_number : Text → Number) (first second : Text)
    → drain_sse_messages to_number (first ++ second) ≡ (
        let (messages, left) = drain_sse_messages to_number first in
        let (more, rest) = drain_sse_messages to_number (left ++ second) in
        (messages ++ more, rest))
unfolding drain_sse_messages
drain_sse_messages-append to_number first second =
    let done = drain_loop (length first) to_number first in
    let left = (loop-rest to_number (length first) first (omega arith)).0 in
    let whole = length-append first second in
    let after = length-append (done.1) second in
    loop-append to_number (length first) (length (first ++ second)) first second (omega arith)
      (omega arith)
    ∙ then-fuel to_number done (length (first ++ second)) (length (done.1 ++ second)) second
        (omega arith) (omega arith)
