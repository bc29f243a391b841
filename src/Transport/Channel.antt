-- ===== src/Transport/Channel.antt =====
-- src/core/transport/channel.ts: a message channel over a byte channel and a codec. Listeners are
-- named by numbers; what a listener does when it is called is not modelled, and a message listener
-- returns. The codec and what the byte channel does at each point are arguments.
pub mod Counts
pub mod Closing
pub mod Delivery
mod Tests
use cavi_api_client.Base.{
  ℕ, Bool, true, false, Option, none, some, List, [], ◌∷◌, ◌++◌, map, if◌then◌else◌, ◌==◌, any,
  Result, ok, err, ◌>>=◌,
}

-- A decoder with a state: `push` may throw, and changes its state even then.
pub record Decoder (S M E : Type 0) : Type 0 where
  pub push : List ℕ → S → Result E (List M) × S
  pub finish : S → Result E (List M)

-- `delivered` and `told` are the calls made so far, in order: the messages, and the ends.
-- `subscribed` says whether the byte channel still calls the channel with its chunks.
pub record Channel (S M E : Type 0) : Type 0 where
  pub decoder : S
  pub listeners : List ℕ
  pub close_listeners : List ℕ
  pub subscribed : Bool
  pub closed : Bool
  pub closed_error : Option E
  pub delivered : List (ℕ × M)
  pub told : List (ℕ × Option E)

-- `Set.add` and `Set.delete`.
abbrev pub is_member : ℕ → List ℕ → Bool
is_member k xs = any (λ x. x == k) xs

abbrev pub add : ℕ → List ℕ → List ℕ
add k xs = if is_member k xs then xs else xs ++ k ∷ []

abbrev pub delete : ℕ → List ℕ → List ℕ
delete k [] = []
delete k (x ∷ xs) = let rest = delete k xs in if x == k then rest else x ∷ rest

-- Every message goes to every listener, in order.
abbrev pub calls {ℓ} : {M : Type ℓ} → List ℕ → List M → List (ℕ × M)
calls ks [] = []
calls ks (m ∷ ms) = map (λ k. (k, m)) ks ++ calls ks ms

module _ {S M E : Type 0} (d : Decoder S M E) where
  abbrev pub deliver : List M → Channel S M E → Channel S M E
  deliver ms s = record s { delivered = s.delivered ++ calls s.listeners ms }

  -- What the byte channel's subscriber does with a chunk; an error is thrown to the byte channel.
  abbrev pub take_pushed : Result E (List M) × S → Channel S M E → Channel S M E
  take_pushed (ok ms, state) s = deliver ms (record s { decoder = state })
  take_pushed (err e, state) s = record s { decoder = state }

  unfoldable pub on_chunk : List ℕ → Channel S M E → Channel S M E
  on_chunk chunk s = if s.subscribed then take_pushed (d.push chunk s.decoder) s else s

  -- The messages of the end are delivered; an error of the decoder replaces the given one.
  abbrev pub take_finished : Option E → Result E (List M) → Channel S M E → Option E × Channel S M E
  take_finished error (ok ms) s = (error, deliver ms s)
  take_finished error (err e) s = (some e, s)

  abbrev pub tell_all : Option E → Channel S M E → Channel S M E
  tell_all error s = record s {
    listeners = [];
    closed_error = error;
    close_listeners = [];
    told = s.told ++ map (λ k. (k, error)) s.close_listeners;
  }

  unfoldable pub notify_closed : Option E → Channel S M E → Channel S M E
  notify_closed error s =
      if s.closed
      then s
      else let (close_error, next) =
          take_finished error (d.finish s.decoder)
            (record s { closed = true; subscribed = false }) in
        tell_all close_error next

  abbrev pub subscribe : ℕ → Channel S M E → Channel S M E
  subscribe k s = record s { listeners = add k s.listeners }

  abbrev pub unsubscribe : ℕ → Channel S M E → Channel S M E
  unsubscribe k s = record s { listeners = delete k s.listeners }

  -- After the end a new listener is told at once and not kept.
  unfoldable pub subscribe_close : ℕ → Channel S M E → Channel S M E
  subscribe_close k s =
      if s.closed
      then record s { told = s.told ++ (k, s.closed_error) ∷ [] }
      else record s { close_listeners = add k s.close_listeners }

  abbrev pub unsubscribe_close : ℕ → Channel S M E → Channel S M E
  unsubscribe_close k s = record s { close_listeners = delete k s.close_listeners }

  abbrev pub opened : S → Channel S M E
  opened start = record {
    decoder = start;
    listeners = [];
    close_listeners = [];
    subscribed = true;
    closed = false;
    closed_error = none;
    delivered = [];
    told = [];
  }

  -- A byte channel that is closed already ends the new channel at once.
  unfoldable pub create_framed_message_channel :
      (already : Option (Option E)) → (start : S) → Channel S M E
  unfolding notify_closed
  create_framed_message_channel none start = opened start
  create_framed_message_channel (some error) start = notify_closed error (opened start)

  -- What happens to a channel: the byte channel brings a chunk or tells of its end, its `close` that
  -- this channel's `close` waits for returns or throws, and the client subscribes and unsubscribes.
  pub data ChannelEvent : Type 0 where
    chunk : List ℕ → ChannelEvent
    bytes_closed : Option E → ChannelEvent
    close_ended : Result E (Unit {0}) → ChannelEvent
    subscribing unsubscribing subscribing_close unsubscribing_close : ℕ → ChannelEvent

  abbrev pub close_error_of : Result E (Unit {0}) → Option E
  close_error_of (ok _) = none
  close_error_of (err e) = some e

  unfoldable pub step : ChannelEvent → Channel S M E → Channel S M E
  unfolding on_chunk notify_closed subscribe_close
  step (chunk bytes) s = on_chunk bytes s
  step (bytes_closed error) s = notify_closed error s
  step (close_ended r) s = notify_closed (close_error_of r) s
  step (subscribing k) s = subscribe k s
  step (unsubscribing k) s = unsubscribe k s
  step (subscribing_close k) s = subscribe_close k s
  step (unsubscribing_close k) s = unsubscribe_close k s

  unfoldable pub run : List ChannelEvent → Channel S M E → Channel S M E
  unfolding step
  run [] s = s
  run (e ∷ es) s = run es (step e s)

-- `send` writes the encoded message to the byte channel: what was written so far is passed on.
unfoldable pub send :
    {M E : Type 0} → (M → Result E (List ℕ)) → M → List (List ℕ) → Result E (List (List ℕ))
send encode message written = do frame ← encode message; ok (written ++ frame ∷ [])
