-- ===== src/Transport/SseConsumer/Tests.antt =====
-- Runs of the consumer, and a witness.
use cavi_api_client.Base.{
  ◌≡◌, refl, none, some, List, [], ◌∷◌, length, length-append, ok, err, map, Result,
}
use cavi_api_client.Base.Text.{Text, codes, starts_with, index_of}
use cavi_api_client.Base.Number.{Number, int}
use cavi_api_client.Transport.SseStream.{
  SseMessage, block_lines, line_field, parse_sse_block, take_next_sse_block,
}
use cavi_api_client.Transport.SseConsumer.{
  ConsumeError, limit_not_positive, buffer_limit, Reaction, returns, aborts, Read, chunk, done,
  Consumer, idle, consume, consume_sse_stream, resolve_max_buffer_bytes, on_read, append_pieces,
  append_decoded, drain_blocks, take_block, release, check_limit, finish,
}
use cavi_api_client.Transport.SseConsumer.Handed.{HandsOver}
use cavi_api_client.Transport.SseConsumer.Limits.{Bounded, CountsBytes, consume-Bounded}

abbrev always_ten : Text → Number
always_ten _ = int 10

abbrev listen : List SseMessage → SseMessage → Reaction
listen _ _ = returns

abbrev stop_at_first : List SseMessage → SseMessage → Reaction
stop_at_first _ _ = aborts

-- One event in three pieces, and one that the end of the body closes.
abbrev reads : List Read
reads =
    chunk (codes "da" ∷ codes "ta: a" ∷ [])
    ∷ chunk ((10 ∷ 10 ∷ codes "data: b") ∷ [])
    ∷ done []
    ∷ []

abbrev payloads : Result ConsumeError Consumer → List Text
payloads (ok c) = map (λ (m : SseMessage). m.content) c.messages
payloads (err e) = []

consume_sse_stream-test :
    payloads (consume_sse_stream always_ten length listen none reads) ≡ codes "b" ∷ codes "a" ∷ []
unfolding consume_sse_stream resolve_max_buffer_bytes consume on_read append_pieces append_decoded
    drain_blocks take_block release check_limit finish take_next_sse_block index_of starts_with
    parse_sse_block block_lines line_field
consume_sse_stream-test = refl

stopped-test :
    payloads (consume_sse_stream always_ten length stop_at_first none reads) ≡ codes "a" ∷ []
unfolding consume_sse_stream resolve_max_buffer_bytes consume on_read append_pieces append_decoded
    drain_blocks take_block release check_limit finish take_next_sse_block index_of starts_with
    parse_sse_block block_lines line_field
stopped-test = refl

over_limit-test : (consume always_ten length listen 5 reads idle).failure ≡ some buffer_limit
unfolding consume on_read append_pieces append_decoded drain_blocks take_block release check_limit
    finish take_next_sse_block index_of starts_with parse_sse_block block_lines line_field
over_limit-test = refl

no_limit-test :
    consume_sse_stream always_ten length listen (some (int 0)) reads ≡ err limit_not_positive
unfolding consume_sse_stream resolve_max_buffer_bytes
no_limit-test = refl

abbrev counts_length : CountsBytes length
unfolding CountsBytes
counts_length = ((λ a b. length-append a b), refl, refl)

consume-Bounded_example :
    Bounded always_ten length listen counts_length 20
      (consume always_ten length listen 20 reads idle)
    × HandsOver always_ten length listen [] reads (consume always_ten length listen 20 reads idle)
consume-Bounded_example = consume-Bounded always_ten length listen counts_length 20 reads
