-- ===== src/Transport/SseTransport/Tests.antt =====
-- Runs of a subscription, and a witness.
use cavi_api_client.Base.{
  ℕ, zero, suc, ◌≡◌, refl, true, false, Option, none, some, List, [], ◌∷◌, ◌++◌, length,
}
use cavi_api_client.Base.Number.{int, num, whole}
use cavi_api_client.Base.Text.{Text, codes, starts_with, index_of}
use cavi_api_client.Transport.Backoff.{exponential, validate_retry_policy, compute_backoff_delay}
use cavi_api_client.Transport.Attempts.{past_deadline}
use cavi_api_client.Transport.SseStream.{
  SseMessage, same_text, block_lines, line_field, parse_sse_block, take_next_sse_block,
}
use cavi_api_client.Transport.SseConsumer.{
  returns, Read, chunk, done, consume, consume_sse_stream, resolve_max_buffer_bytes, on_read,
  append_pieces, append_decoded, drain_blocks, take_block, release, check_limit, finish,
}
use cavi_api_client.Transport.SseTransport.{
  validate_dedupe_capacity, has_seen, add_id, evict_ids, note_retry, identified, by_id,
  handle_message, after_messages,
}
use cavi_api_client.Transport.SseTransport.Subscription.{
  SseConfig, SseAttempt, responded, Subscription, SseFailure, attempts, reconnect, authenticate,
  fetch, respond, stream, consumed, handler, wait_for_reconnect, close_with, unconnected, subscribe,
}
use cavi_api_client.Transport.SseTransport.Connecting.{Finished, subscribe-Finished}

abbrev config : SseConfig
config = record {
  policy = record {
    max_attempts = int 2;
    base_delay_ms = int 100;
    max_delay_ms = int 1000;
    jitter_ratio = none;
    deadline_ms = none;
  };
  dedupe_capacity = some (int 2);
  max_buffer_bytes = none;
  started_at = 0;
  to_number = λ t. int 10;
  byte_length = length;
  on_message = λ m. returns;
}

abbrev event : Text → Text
event id = codes "id: " ++ id ++ 10 ∷ codes "data: a" ++ 10 ∷ 10 ∷ []

abbrev bringing : List Read → SseAttempt
bringing reads = record {
  aborted_at_head = false;
  auth_failure = none;
  aborted_after_auth = false;
  fetched =
      responded
        (record { is_ok = true; status = 200; is_sse = true; has_body = true; reads = reads });
  aborted_after_failure = false;
  random = num 500000;
  now = 0;
  sleep_failure = none;
  aborted_after_sleep = false;
}

-- The first stream ends after two events; the second one repeats the last of them.
abbrev world : ℕ → SseAttempt
world zero = bringing []
world (suc zero) = bringing (chunk (event (codes "1") ∷ event (codes "2") ∷ []) ∷ done [] ∷ [])
world (suc (suc n)) = bringing (chunk (event (codes "2") ∷ event (codes "3") ∷ []) ∷ done [] ∷ [])

abbrev ended : Option SseFailure × Subscription
unfolding attempts
ended = close_with (attempts config 2 2 1 world (unconnected none))

ids : List SseMessage → List (Option Text)
ids [] = []
ids (m ∷ ms) = m.id ∷ ids ms

resumed-test :
    (ids (ended.1.session.handed_on) ≡ some (codes "3") ∷ some (codes "2") ∷ some (codes "1") ∷ [])
    × (ended.1.cursors ≡ some (codes "2") ∷ none ∷ [])
unfolding ids ended attempts reconnect authenticate fetch respond stream consumed handler
    wait_for_reconnect past_deadline exponential compute_backoff_delay validate_retry_policy
    has_seen same_text add_id evict_ids note_retry identified by_id handle_message after_messages
    consume_sse_stream resolve_max_buffer_bytes consume on_read append_pieces append_decoded
    drain_blocks take_block release check_limit finish take_next_sse_block index_of starts_with
    parse_sse_block block_lines line_field
resumed-test = (refl, refl)

subscribe-Finished_example : Finished 2 none (whole (int 2)) (ended.0) (ended.1)
unfolding subscribe validate_dedupe_capacity validate_retry_policy attempts
subscribe-Finished_example = subscribe-Finished config none world 2 (ended.0) (ended.1) refl refl
