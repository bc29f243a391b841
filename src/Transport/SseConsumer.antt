-- ===== src/Transport/SseConsumer.antt =====
-- src/core/sse/stream.ts, consumeSseStream: the blocks of a body that arrives in pieces. The UTF-8
-- coding, `Number(value)` and the caller's handler are arguments, the reads of the body a list.
pub mod Handed
pub mod Limits
mod Tests
use cavi_api_client.Base.{
  ℕ, zero, suc, ◌+◌, ◌-◌, ◌*◌, Bool, true, false, not, ◌&&◌, ◌||◌, Option, none, some, List, [],
  ◌∷◌, ◌++◌, length, if◌then◌else◌, ltb, Result, ok, err, is_some,
}
use cavi_api_client.Base.Number.{Number, is_integer, lt_num, gt_num, scale, whole}
use cavi_api_client.Base.Text.{Text, is_empty}
use cavi_api_client.Errors.{Failure}
use cavi_api_client.Transport.SseStream.{SseMessage, parse_sse_block, take_next_sse_block}

-- What ends the consumption with an error.
pub data ConsumeError : Type 0 where
  limit_not_positive buffer_limit : ConsumeError
  handler_failed read_failed : Failure → ConsumeError

-- What a call of the handler does: it returns, it aborts the signal, or it throws. It may depend on
-- the messages before, of which the latest comes first.
pub data Reaction : Type 0 where
  returns aborts : Reaction
  throws : Failure → Reaction

-- The latest message comes first. Once `failure` is there, the error has been thrown.
pub record Consumer : Type 0 where
  pub buffer : Text
  pub buffered_bytes : ℕ
  pub aborted : Bool
  pub failure : Option ConsumeError
  pub messages : List SseMessage

abbrev pub idle : Consumer
idle = record { buffer = []; buffered_bytes = 0; aborted = false; failure = none; messages = [] }

-- What the body brings while the signal is not aborted: a chunk as the texts that its pieces decode
-- to, its end with what the decoder still held, a failed read, or the signal's abort.
pub data Read : Type 0 where
  chunk : List Text → Read
  done : Text → Read
  failed : Failure → Read
  abort : Read

-- `DEFAULT_MAX_SSE_BUFFER_BYTES` and `Number.MAX_SAFE_INTEGER`
abbrev default_max_bytes : ℕ
default_max_bytes = 16 * 1024 * 1024

abbrev max_safe_integer : ℕ
max_safe_integer = 9007199254740991

unfoldable pub resolve_max_buffer_bytes : Option Number → Result ConsumeError ℕ
resolve_max_buffer_bytes none = ok default_max_bytes
resolve_max_buffer_bytes (some limit) =
    if is_integer limit && not (lt_num limit scale) && not (gt_num limit (max_safe_integer * scale))
    then ok (whole limit)
    else err limit_not_positive

abbrev pub react : Reaction → Consumer → Consumer
react returns c = c
react aborts c = record c { aborted = true }
react (throws e) c = record c { failure = some (handler_failed e) }

module _ (to_number : Text → Number) (byte_length : Text → ℕ)
    (handle : List SseMessage → SseMessage → Reaction) where
  abbrev pub deliver : Option SseMessage → Consumer → Consumer
  deliver none c = c
  deliver (some m) c = react (handle (c.messages) m) (record c { messages = m ∷ c.messages })

  -- The buffer without the block and its boundary.
  unfoldable pub release : Text → Text → Consumer → Consumer
  release block rest c = record c {
    buffer = rest;
    buffered_bytes =
        c.buffered_bytes - (byte_length block + (length (c.buffer) - length block - length rest));
  }

  unfoldable pub take_block : (max_bytes : ℕ) → Text → Text → Consumer → Consumer
  take_block max_bytes block rest c =
      if ltb max_bytes (byte_length block)
      then record c { failure = some buffer_limit }
      else deliver (parse_sse_block to_number block) (release block rest c)

  -- After the loop, the incomplete block must fit.
  unfoldable pub check_limit : (max_bytes : ℕ) → Consumer → Consumer
  check_limit max_bytes c =
      if ltb max_bytes (c.buffered_bytes) then record c { failure = some buffer_limit } else c

  unfoldable pub drain_blocks : (fuel max_bytes : ℕ) → Consumer → Consumer
  unfolding take_block check_limit
  drain_blocks zero max_bytes c = c
  drain_blocks (suc fuel) max_bytes c = elim (take_next_sse_block (c.buffer)) [
    | none ↦ check_limit max_bytes c
    | some (block, rest) ↦
        let after = take_block max_bytes block rest c in
        let later = drain_blocks fuel max_bytes after in
        if c.aborted then c else if is_some (after.failure) then after else later
  ]

  abbrev pub buffer_more : Text → Consumer → Consumer
  buffer_more decoded c = record c {
    buffer = c.buffer ++ decoded;
    buffered_bytes = c.buffered_bytes + byte_length decoded;
  }

  -- `appendDecoded`; every block takes a character at least, so the fuel is enough.
  unfoldable pub append_decoded : (max_bytes : ℕ) → Text → Consumer → Consumer
  unfolding drain_blocks
  append_decoded max_bytes decoded c =
      let more = buffer_more decoded c in
      if is_empty decoded || c.aborted
      then c
      else drain_blocks (suc (length (more.buffer))) max_bytes more

  unfoldable pub append_pieces : (max_bytes : ℕ) → List Text → Consumer → Consumer
  unfolding append_decoded
  append_pieces max_bytes [] c = c
  append_pieces max_bytes (piece ∷ pieces) c =
      let after = append_decoded max_bytes piece c in
      let later = append_pieces max_bytes pieces after in
      if c.aborted then c else if is_some (after.failure) then after else later

  -- At the end, what no boundary closed is a block too.
  unfoldable pub finish : Consumer → Consumer
  finish c =
      if c.aborted || is_some (c.failure)
      then c
      else deliver (parse_sse_block to_number (c.buffer)) c

  unfoldable pub on_read : (max_bytes : ℕ) → Read → Consumer → Consumer
  unfolding append_pieces append_decoded finish
  on_read max_bytes (chunk pieces) c = append_pieces max_bytes pieces c
  on_read max_bytes (done rest) c = finish (append_decoded max_bytes rest c)
  on_read max_bytes (failed e) c = record c { failure = some (read_failed e) }
  on_read max_bytes abort c = record c { aborted = true }

  abbrev pub ends : Read → Bool
  ends (done _) = true
  ends _ = false

  -- The loop over the reads: it stops at the end of the body, an abort or an error.
  unfoldable pub consume : (max_bytes : ℕ) → List Read → Consumer → Consumer
  unfolding on_read
  consume max_bytes [] c = c
  consume max_bytes (r ∷ rs) c =
      let after = on_read max_bytes r c in
      let later = consume max_bytes rs after in
      if c.aborted then c else if ends r || is_some (after.failure) then after else later

  unfoldable pub consume_sse_stream : Option Number → List Read → Result ConsumeError Consumer
  unfolding resolve_max_buffer_bytes consume
  consume_sse_stream limit reads = elim (resolve_max_buffer_bytes limit) [
    | ok max_bytes ↦ ok (consume max_bytes reads idle)
    | err e ↦ err e
  ]
