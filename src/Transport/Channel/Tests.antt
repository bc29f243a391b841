-- ===== src/Transport/Channel/Tests.antt =====
-- Runs of a framed channel, and witnesses.
use cavi_api_client.Base.{
  ℕ, ◌≡◌, refl, Bool, true, false, Option, none, some, List, [], ◌∷◌, Result, ok, err, arith, All,
}
use cavi_api_client.Transport.SseStream.{strip_cr}
use cavi_api_client.Transport.Framing.{
  FrameBuffer, FrameError, incomplete_frame, empty_buffer, push, push_loop, append, grow, bytes,
  break_line, parse_frame, finish, encode,
}
use cavi_api_client.Transport.Framing.Samples.{encode_bit, parse_bit, bits-JsonLaws}
use cavi_api_client.Transport.Channel.{
  Decoder, ChannelEvent, chunk, bytes_closed, subscribing, subscribing_close,
  create_framed_message_channel, notify_closed, subscribe_close, on_chunk, run, step, send,
  subscribe, opened,
}
use cavi_api_client.Transport.Channel.Counts.{tells}
use cavi_api_client.Transport.Channel.Closing.{with_listener, run-tells_once}
use cavi_api_client.Transport.Channel.Delivery.{IsLines, send_all, run-delivers_sent}

-- A decoder of bits; it keeps its buffer when it throws.
abbrev pushed :
    FrameBuffer
    → Result FrameError (List Bool × FrameBuffer)
    → Result FrameError (List Bool) × FrameBuffer
pushed b (ok (ms, b')) = (ok ms, b')
pushed b (err e) = (err e, b)

abbrev bits : Decoder FrameBuffer Bool FrameError
bits = record { push = λ input b. pushed b (push parse_bit 1 input b); finish = finish parse_bit 1 }

bits-IsLines : IsLines encode_bit parse_bit 1 bits
bits-IsLines = record { pushes = λ input b b' ms e. rw e refl }

-- A message, half a message, and the end of the byte channel: the decoder's error is the end.
abbrev cut_off : List (ChannelEvent bits)
cut_off = subscribing 7 ∷ chunk (116 ∷ 10 ∷ 102 ∷ []) ∷ bytes_closed none ∷ subscribing_close 9 ∷ []

cut_off-test :
    ((run bits (subscribing_close 8 ∷ cut_off) (opened bits empty_buffer)).delivered
      ≡ (7, true) ∷ [])
    × ((run bits (subscribing_close 8 ∷ cut_off) (opened bits empty_buffer)).told
        ≡ (8, some incomplete_frame) ∷ (9, some incomplete_frame) ∷ [])
unfolding run step on_chunk notify_closed subscribe_close push push_loop append grow bytes
    break_line parse_frame strip_cr finish
cut_off-test = (refl, refl)

closes : (with_listener bits 8 none empty_buffer [] cut_off).closed ≡ true
unfolding create_framed_message_channel run step on_chunk notify_closed subscribe_close push
    push_loop append grow bytes break_line parse_frame strip_cr finish
closes = refl

run-tells_once_example :
    (tells 8 ((with_listener bits 8 none empty_buffer [] cut_off).told) ≡ 1)
    × All
        (λ (t : ℕ × Option FrameError).
          t.1 ≡ (with_listener bits 8 none empty_buffer [] cut_off).closed_error)
        ((with_listener bits 8 none empty_buffer [] cut_off).told)
run-tells_once_example =
    run-tells_once bits 8 none empty_buffer [] cut_off tt (tt, (tt, (tt, (omega arith, tt)))) closes

writes :
    send_all (encode parse_bit 1 encode_bit) (true ∷ false ∷ []) []
    ≡ ok ((116 ∷ 10 ∷ []) ∷ (102 ∷ 10 ∷ []) ∷ [])
unfolding send_all send encode
writes = refl

-- Two messages in three chunks.
abbrev cut_up : List (ChannelEvent bits)
cut_up = chunk (116 ∷ []) ∷ chunk (10 ∷ 102 ∷ []) ∷ chunk (10 ∷ []) ∷ []

run-delivers_sent_example :
    (run bits cut_up (subscribe bits 7 (opened bits empty_buffer))).delivered
    ≡ (7, true) ∷ (7, false) ∷ []
run-delivers_sent_example =
    run-delivers_sent encode_bit parse_bit 1 bits bits-JsonLaws bits-IsLines
      (subscribe bits 7 (opened bits empty_buffer)) (true ∷ false ∷ [])
      ((116 ∷ 10 ∷ []) ∷ (102 ∷ 10 ∷ []) ∷ []) ((116 ∷ []) ∷ (10 ∷ 102 ∷ []) ∷ (10 ∷ []) ∷ []) refl
      refl writes refl
