-- ===== src/Transport/SseStream/Tests.antt =====
-- Runs of the block parser and the drain, and witnesses.
use cavi_api_client.Base.{◌≡◌, refl, none, some, [], ◌∷◌, ◌++◌}
use cavi_api_client.Base.Text.{Text, codes, starts_with, index_of}
use cavi_api_client.Base.Number.{Number, int}
use cavi_api_client.Transport.SseStream.{
  block_lines, line_field, parse_sse_block, take_next_sse_block, drain_sse_messages,
}
use cavi_api_client.Transport.SseStream.Chunks.{
  drain_sse_messages-append, drain_sse_messages-Drained,
}

abbrev always_ten : Text → Number
always_ten _ = int 10

-- An event of two data lines, over "\r\n", with a comment and a retry time.
abbrev tick : Text
tick =
    codes "event: tick"
    ++ 13 ∷ 10 ∷ codes "data: a"
    ++ 10 ∷ codes ": note"
    ++ 10 ∷ codes "data:b"
    ++ 10 ∷ codes "retry: 10"

tick-test :
    parse_sse_block always_ten tick
    ≡ some (record {
      content = codes "a" ++ 10 ∷ codes "b";
      event = some (codes "tick");
      id = none;
      retry = some (int 10);
    })
unfolding parse_sse_block block_lines line_field index_of starts_with
tick-test = refl

no_data-test : parse_sse_block always_ten (codes "event: tick") ≡ none
unfolding parse_sse_block block_lines line_field index_of starts_with
no_data-test = refl

earlier_boundary-test :
    take_next_sse_block (codes "a" ++ 13 ∷ 10 ∷ 13 ∷ 10 ∷ codes "b" ++ 10 ∷ 10 ∷ [])
    ≡ some (codes "a", codes "b" ++ 10 ∷ 10 ∷ [])
unfolding take_next_sse_block index_of starts_with
earlier_boundary-test = refl

drain_sse_messages-append_example :
    drain_sse_messages always_ten ((codes "data: a" ++ 10 ∷ []) ++ 10 ∷ codes "data: b") ≡ (
      let (messages, left) = drain_sse_messages always_ten (codes "data: a" ++ 10 ∷ []) in
      let (more, rest) = drain_sse_messages always_ten (left ++ 10 ∷ codes "data: b") in
      (messages ++ more, rest))
drain_sse_messages-append_example =
    drain_sse_messages-append always_ten (codes "data: a" ++ 10 ∷ []) (10 ∷ codes "data: b")

drain_sse_messages-Drained_example :
    take_next_sse_block
      ((drain_sse_messages always_ten (codes "data: a" ++ 10 ∷ 10 ∷ codes "data: b")).1)
    ≡ none
drain_sse_messages-Drained_example =
    drain_sse_messages-Drained always_ten (codes "data: a" ++ 10 ∷ 10 ∷ codes "data: b")
