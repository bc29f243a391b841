-- ===== src/Transport/SseConsumer/Limits.antt =====
-- The byte count of a consumer's buffer, and the limit on it.
use cavi_api_client.Base.{
  ℕ, zero, suc, ◌+◌, ◌-◌, ◌≤◌, ◌⊎◌, inl, inr, ◌≡◌, refl, ◌∙◌, ap, sym, Bool, true, false, Option,
  none, some, List, [], ◌∷◌, ◌++◌, length, if◌then◌else◌, ltb, arith, is_some, Bool-cases,
  Option-cases, length-append, ◌||◌,
}
use cavi_api_client.Base.Number.{Number}
use cavi_api_client.Base.Text.{Text, is_empty}
use cavi_api_client.Transport.SseStream.{SseMessage, parse_sse_block, take_next_sse_block}
use cavi_api_client.Transport.SseStream.Blocks.{
  no_block, scan-Parts, Parts, take_next_sse_block-eq-scan,
}
use cavi_api_client.Transport.SseConsumer.Handed.{HandsOver, consume-idle}
use cavi_api_client.Transport.SseConsumer.{
  Consumer, Read, chunk, done, failed, abort, Reaction, returns, aborts, throws, react, deliver,
  release, take_block, check_limit, drain_blocks, buffer_more, append_decoded, append_pieces,
  finish, on_read, consume, idle, ends,
}

take-Parts : (s block rest : Text) → take_next_sse_block s ≡ some (block, rest) → Parts s block rest
take-Parts s block rest h = scan-Parts s block rest (sym (take_next_sse_block-eq-scan s) ∙ h)

Parts-length :
    (s block rest : Text) → Parts s block rest → suc (length block + length rest) ≤ length s
Parts-length s block rest (inl e) =
    let l = length-append block (10 ∷ 10 ∷ rest) in rw e (omega arith)
Parts-length s block rest (inr e) =
    let l = length-append block (13 ∷ 10 ∷ 13 ∷ 10 ∷ rest) in rw e (omega arith)

react-buffer :
    (r : Reaction) (c : Consumer)
    → ((react r c).buffer ≡ c.buffer) × ((react r c).buffered_bytes ≡ c.buffered_bytes)
react-buffer returns c = (refl, refl)
react-buffer aborts c = (refl, refl)
react-buffer (throws e) c = (refl, refl)

-- How many bytes the encoder makes of a text: a text of two parts counts as both do, and a boundary
-- is ASCII.
unfoldable pub CountsBytes : (Text → ℕ) → Type 0
CountsBytes byte_length =
    ((a b : Text) → byte_length (a ++ b) ≡ byte_length a + byte_length b)
    × (byte_length (10 ∷ 10 ∷ []) ≡ 2)
    × (byte_length (13 ∷ 10 ∷ 13 ∷ 10 ∷ []) ≡ 4)

module _ (to_number : Text → Number) (byte_length : Text → ℕ)
    (handle : List SseMessage → SseMessage → Reaction) (counts : CountsBytes byte_length) where
  abbrev Counted : Consumer → Type 0
  Counted c = c.buffered_bytes ≡ byte_length (c.buffer)

  -- The consumption failed, was aborted, or holds one incomplete block within the limit.
  unfoldable pub Bounded : (max_bytes : ℕ) → Consumer → Type 0
  Bounded max_bytes c =
      (is_some (c.failure) ≡ true)
      ⊎ ((c.aborted ≡ true)
          ⊎ ((take_next_sse_block (c.buffer) ≡ none)
              × Counted c
              × (byte_length (c.buffer) ≤ max_bytes)))

  Parts-bytes :
      (s block rest : Text)
      → Parts s block rest
      → byte_length s
        ≡ byte_length block + (length s - length block - length rest) + byte_length rest
  unfolding CountsBytes
  Parts-bytes s block rest (inl e) =
      let l = length-append block (10 ∷ 10 ∷ rest) in
      let all = counts.0 block (10 ∷ 10 ∷ rest) in
      let ending = counts.0 (10 ∷ 10 ∷ []) rest in let two = counts.1 in rw e (omega arith)
  Parts-bytes s block rest (inr e) =
      let l = length-append block (13 ∷ 10 ∷ 13 ∷ 10 ∷ rest) in
      let all = counts.0 block (13 ∷ 10 ∷ 13 ∷ 10 ∷ rest) in
      let ending = counts.0 (13 ∷ 10 ∷ 13 ∷ 10 ∷ []) rest in
      let four = counts.2 in rw e (omega arith)

  deliver-buffer :
      (m : Option SseMessage) (c : Consumer)
      → ((deliver to_number byte_length handle m c).buffer ≡ c.buffer)
        × ((deliver to_number byte_length handle m c).buffered_bytes ≡ c.buffered_bytes)
  deliver-buffer none c = (refl, refl)
  deliver-buffer (some m) c =
      react-buffer (handle (c.messages) m) (record c { messages = m ∷ c.messages })

  take_block-Counted :
      (max_bytes : ℕ) (block rest : Text) (c : Consumer)
      → Parts (c.buffer) block rest
      → Counted c
      → (is_some ((take_block to_number byte_length handle max_bytes block rest c).failure) ≡ true)
        ⊎ (((take_block to_number byte_length handle max_bytes block rest c).buffer ≡ rest)
            × Counted (take_block to_number byte_length handle max_bytes block rest c))
  unfolding take_block release
  take_block-Counted max_bytes block rest c parts counted =
      let less = release to_number byte_length handle block rest c in
      let bytes = Parts-bytes (c.buffer) block rest parts in
      let left : less.buffered_bytes ≡ byte_length rest = omega arith in
      let (same, alike) = deliver-buffer (parse_sse_block to_number block) less in
      elim (Bool-cases (ltb max_bytes (byte_length block))) [
        | inl long ↦ rw long (inl refl)
        | inr short ↦ rw short (inr (same, alike ∙ left ∙ ap byte_length (sym same)))
      ]

  check_limit-Bounded :
      (max_bytes : ℕ) (c : Consumer)
      → take_next_sse_block (c.buffer) ≡ none
      → Counted c
      → Bounded max_bytes (check_limit to_number byte_length handle max_bytes c)
  unfolding check_limit Bounded
  check_limit-Bounded max_bytes c h counted = elim (Bool-cases (ltb max_bytes (c.buffered_bytes))) [
    | inl over ↦ rw over (inl refl)
    | inr within ↦ rw within (inr (inr (h, counted, ground arith)))
  ]

  choose :
      (max_bytes : ℕ) (stopped failing : Bool) (c after later : Consumer)
      → (stopped ≡ true → Bounded max_bytes c)
      → (failing ≡ true → Bounded max_bytes after)
      → (stopped ≡ false → failing ≡ false → Bounded max_bytes later)
      → Bounded max_bytes (if stopped then c else if failing then after else later)
  choose max_bytes true failing c after later hc ha hl = hc refl
  choose max_bytes false true c after later hc ha hl = ha refl
  choose max_bytes false false c after later hc ha hl = hl refl refl

  failed-Bounded : (max_bytes : ℕ) (c : Consumer) → is_some (c.failure) ≡ true → Bounded max_bytes c
  unfolding Bounded
  failed-Bounded max_bytes c h = inl h

  aborted-Bounded : (max_bytes : ℕ) (c : Consumer) → c.aborted ≡ true → Bounded max_bytes c
  unfolding Bounded
  aborted-Bounded max_bytes c h = inr (inl h)

  -- The loop's fuel is enough: it stops with no block left, or for an error or an abort.
  drain_blocks-Bounded :
      (fuel max_bytes : ℕ) (c : Consumer)
      → suc (length (c.buffer)) ≤ fuel
      → Counted c
      → Bounded max_bytes (drain_blocks to_number byte_length handle fuel max_bytes c)
  unfolding drain_blocks
  drain_blocks-Bounded zero max_bytes c enough counted = ground arith
  drain_blocks-Bounded (suc fuel) max_bytes c enough counted =
      elim (Option-cases (take_next_sse_block (c.buffer))) [
        | inl h ↦ rw (drain_blocks, h) (check_limit-Bounded max_bytes c h counted)
        | inr ((block, rest), h) ↦
            let parts = take-Parts (c.buffer) block rest h in
            let after = take_block to_number byte_length handle max_bytes block rest c in
            let later = drain_blocks to_number byte_length handle fuel max_bytes after in
            let shorter = Parts-length (c.buffer) block rest parts in
            rw (drain_blocks, h)
              (choose max_bytes (c.aborted) (is_some (after.failure)) c after later
                (aborted-Bounded max_bytes c) (failed-Bounded max_bytes after)
                (λ going fine. elim (take_block-Counted max_bytes block rest c parts counted) [
                  | inl fails ↦ ground arith
                  | inr (same, alike) ↦
                      let small = ap (λ s. length s) same in
                      drain_blocks-Bounded fuel max_bytes after (omega arith) alike
                ]))
      ]

  unless :
      (max_bytes : ℕ) (stopped : Bool) (c later : Consumer)
      → Bounded max_bytes c
      → (stopped ≡ false → Bounded max_bytes later)
      → Bounded max_bytes (if stopped then c else later)
  unless max_bytes true c later hc hl = hc
  unless max_bytes false c later hc hl = hl refl

  -- Neither failed nor aborted.
  going-Bounded :
      (max_bytes : ℕ) (c : Consumer)
      → is_some (c.failure) ≡ false
      → c.aborted ≡ false
      → Bounded max_bytes c
      → (take_next_sse_block (c.buffer) ≡ none) × Counted c × (byte_length (c.buffer) ≤ max_bytes)
  unfolding Bounded
  going-Bounded max_bytes c fine going b = ground arith

  append_decoded-Bounded :
      (max_bytes : ℕ) (decoded : Text) (c : Consumer)
      → is_some (c.failure) ≡ false
      → Bounded max_bytes c
      → Bounded max_bytes (append_decoded to_number byte_length handle max_bytes decoded c)
  unfolding append_decoded CountsBytes
  append_decoded-Bounded max_bytes decoded c fine b =
      let more = buffer_more to_number byte_length handle decoded c in
      unless max_bytes (is_empty decoded || c.aborted) c
        (drain_blocks to_number byte_length handle (suc (length (more.buffer))) max_bytes more) b
        (λ going.
          let counted = (going-Bounded max_bytes c fine (ground arith) b).1 in
          let both = counts.0 (c.buffer) decoded in
          drain_blocks-Bounded (suc (length (more.buffer))) max_bytes more (omega arith)
            (omega arith))

  append_pieces-Bounded :
      (max_bytes : ℕ) (pieces : List Text) (c : Consumer)
      → is_some (c.failure) ≡ false
      → Bounded max_bytes c
      → Bounded max_bytes (append_pieces to_number byte_length handle max_bytes pieces c)
  unfolding append_pieces
  append_pieces-Bounded max_bytes [] c fine b = b
  append_pieces-Bounded max_bytes (piece ∷ pieces) c fine b =
      let after = append_decoded to_number byte_length handle max_bytes piece c in
      let bounded = append_decoded-Bounded max_bytes piece c fine b in
      choose max_bytes (c.aborted) (is_some (after.failure)) c after
        (append_pieces to_number byte_length handle max_bytes pieces after) (λ _. b) (λ _. bounded)
        (λ going well. append_pieces-Bounded max_bytes pieces after well bounded)

  deliver-Bounded :
      (max_bytes : ℕ) (m : Option SseMessage) (c : Consumer)
      → (take_next_sse_block (c.buffer) ≡ none) × Counted c × (byte_length (c.buffer) ≤ max_bytes)
      → Bounded max_bytes (deliver to_number byte_length handle m c)
  unfolding Bounded
  deliver-Bounded max_bytes m c (no_more, counted, within) =
      let (same, alike) = deliver-buffer m c in
      let bytes = ap byte_length same in
      inr (inr (ap take_next_sse_block same ∙ no_more, alike ∙ counted ∙ sym bytes, omega arith))

  finish-Bounded :
      (max_bytes : ℕ) (c : Consumer)
      → Bounded max_bytes c
      → Bounded max_bytes (finish to_number byte_length handle c)
  unfolding finish
  finish-Bounded max_bytes c b =
      let m = parse_sse_block to_number (c.buffer) in
      unless max_bytes (c.aborted || is_some (c.failure)) c
        (deliver to_number byte_length handle m c) b
        (λ going.
          deliver-Bounded max_bytes m c (going-Bounded max_bytes c (ground arith) (ground arith) b))

  on_read-Bounded :
      (max_bytes : ℕ) (r : Read) (c : Consumer)
      → is_some (c.failure) ≡ false
      → Bounded max_bytes c
      → Bounded max_bytes (on_read to_number byte_length handle max_bytes r c)
  unfolding on_read
  on_read-Bounded max_bytes (chunk pieces) c fine b =
      append_pieces-Bounded max_bytes pieces c fine b
  on_read-Bounded max_bytes (done rest) c fine b =
      finish-Bounded max_bytes (append_decoded to_number byte_length handle max_bytes rest c)
        (append_decoded-Bounded max_bytes rest c fine b)
  on_read-Bounded max_bytes (failed e) c fine b = failed-Bounded max_bytes _ refl
  on_read-Bounded max_bytes abort c fine b = aborted-Bounded max_bytes _ refl

  consume-all :
      (max_bytes : ℕ) (reads : List Read) (c : Consumer)
      → is_some (c.failure) ≡ false
      → Bounded max_bytes c
      → Bounded max_bytes (consume to_number byte_length handle max_bytes reads c)
  unfolding consume
  consume-all max_bytes [] c fine b = b
  consume-all max_bytes (r ∷ rs) c fine b =
      let after = on_read to_number byte_length handle max_bytes r c in
      let bounded = on_read-Bounded max_bytes r c fine b in
      choose max_bytes (c.aborted) (ends to_number byte_length handle r || is_some (after.failure))
        c after (consume to_number byte_length handle max_bytes rs after) (λ _. b) (λ _. bounded)
        (λ going well. consume-all max_bytes rs after (ground arith) bounded)

-- For an encoder that counts the bytes of a text, after any reads of a body and whatever the handler
-- does: a consumer has failed, was aborted, or holds no complete block and at most the configured
-- bytes of an incomplete one, which its count of bytes gives exactly; and it has failed, was
-- aborted, or has handed over, in their order, the messages that one drain of the whole text finds
-- and, where the body ended, the message that no boundary closed, and no others.
pub consume-Bounded :
    (to_number : Text → Number) (byte_length : Text → ℕ)
    (handle : List SseMessage → SseMessage → Reaction) (counts : CountsBytes byte_length)
    (max_bytes : ℕ) (reads : List Read)
    → Bounded to_number byte_length handle counts max_bytes
        (consume to_number byte_length handle max_bytes reads idle)
      × HandsOver to_number byte_length handle [] reads
          (consume to_number byte_length handle max_bytes reads idle)
unfolding Bounded CountsBytes
consume-Bounded to_number byte_length handle counts max_bytes reads =
    let empty = counts.0 [] [] in
    let bounded =
      consume-all to_number byte_length handle counts max_bytes reads idle refl
        (inr (inr (no_block, omega arith, omega arith))) in
    (bounded, consume-idle to_number byte_length handle max_bytes reads)
