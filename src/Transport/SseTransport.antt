-- ===== src/Transport/SseTransport.antt =====
-- src/core/transport/sse.ts: what a subscription remembers of its messages. The ids that it has seen
-- are a set in the order of insertion.
pub mod Dedupe
pub mod Subscription
pub mod Connecting
mod Tests
use cavi_api_client.Base.{
  ℕ, zero, suc, ◌-◌, ◌*◌, Bool, true, false, not, ◌&&◌, ◌||◌, Option, none, some, List, [], ◌∷◌,
  ◌++◌, if◌then◌else◌, ltb, length, any, Result, ok, err,
}
use cavi_api_client.Base.Number.{Number, is_integer, lt_num, whole}
use cavi_api_client.Base.Text.{Text, is_empty}
use cavi_api_client.Errors.{Failure}
use cavi_api_client.Transport.SseStream.{SseMessage, same_text}
use cavi_api_client.Transport.SseConsumer.{Reaction}

pub data CapacityError : Type 0 where
  capacity_negative : CapacityError

unfoldable pub validate_dedupe_capacity : Option Number → Result CapacityError ℕ
validate_dedupe_capacity none = ok 1024
validate_dedupe_capacity (some capacity) =
    if is_integer capacity && not (lt_num capacity 0)
    then ok (whole capacity)
    else err capacity_negative

-- What the handler of messages keeps, and the messages that it handed on, the latest first.
pub record Session : Type 0 where
  pub seen_ids : List Text
  pub cursor : Option Text
  pub server_retry_ms : Option Number
  pub handed_on : List SseMessage

abbrev pub new_session : Option Text → Session
new_session cursor = record {
  seen_ids = [];
  cursor = cursor;
  server_retry_ms = none;
  handed_on = [];
}

unfoldable pub has_seen : Text → List Text → Bool
unfolding same_text
has_seen id seen = any (same_text id) seen

-- `while (seenIds.size > dedupeCapacity)` the oldest id is deleted.
unfoldable pub evict_ids : ℕ → List Text → List Text
evict_ids capacity [] = []
evict_ids capacity (oldest ∷ ids) =
    let fewer = evict_ids capacity ids in
    if ltb capacity (length (oldest ∷ ids)) then fewer else oldest ∷ ids

unfoldable pub add_id : ℕ → Text → List Text → List Text
unfolding evict_ids
add_id zero id seen = seen
add_id (suc capacity) id seen = evict_ids (suc capacity) (seen ++ id ∷ [])

-- `message.retry !== undefined && message.retry >= 0`
unfoldable pub note_retry : Option Number → Option Number → Option Number
note_retry none before = before
note_retry (some retry) before = if lt_num retry 0 then before else some retry

abbrev pub hand_on : SseMessage → Session → Session
hand_on m s = record s { handed_on = m ∷ s.handed_on }

-- A message with an id, of which `true` says that it was seen before.
unfoldable pub identified : ℕ → SseMessage → Text → Bool → Session → Session
unfolding add_id
identified capacity m id true s = s
identified capacity m id false s =
    hand_on m (record s { cursor = some id; seen_ids = add_id capacity id s.seen_ids })

unfoldable pub by_id : ℕ → SseMessage → Option Text → Session → Session
unfolding identified has_seen
by_id capacity m none s = hand_on m s
by_id capacity m (some id) s =
    if is_empty id then hand_on m s else identified capacity m id (has_seen id s.seen_ids) s

unfoldable pub handle_message : ℕ → SseMessage → Session → Session
unfolding by_id note_retry
handle_message capacity m s =
    by_id capacity m m.id (record s { server_retry_ms = note_retry m.retry s.server_retry_ms })

-- The session after messages of which the latest comes first.
unfoldable pub after_messages : ℕ → Session → List SseMessage → Session
unfolding handle_message
after_messages capacity s [] = s
after_messages capacity s (m ∷ ms) = handle_message capacity m (after_messages capacity s ms)
