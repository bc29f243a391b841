-- ===== src/Transport/Framing/Tests.antt =====
-- Runs of the JSON lines codec, and witnesses.
use cavi_api_client.Base.{ℕ, ◌≡◌, refl, true, false, none, some, List, [], ◌∷◌, ok, err, ◌++◌}
use cavi_api_client.Base.Text.{codes}
use cavi_api_client.Base.Number.{int, infinity}
use cavi_api_client.Transport.SseStream.{strip_cr}
use cavi_api_client.Transport.Framing.{
  oversized, invalid_json, incomplete_frame, encoded_oversized, empty_buffer, bytes, grow, append,
  break_line, parse_frame, push_loop, push, finish, encode, validate_limit, text_push,
}
use cavi_api_client.Transport.Framing.Reader.{feed}
use cavi_api_client.Transport.Framing.Lines.{held}
use cavi_api_client.Transport.Framing.Kept.{empty-Ready}
use cavi_api_client.Transport.Framing.Chunks.{concat, push_all, push_all-feed}
use cavi_api_client.Transport.Framing.Samples.{encode_bit, parse_bit, bits-JsonLaws}
use cavi_api_client.Transport.Framing.RoundTrip.{encode_all, push_all-encode_all}

-- Two lines, the second after a carriage return, and the start of a third, in three chunks.
abbrev cut_lines : List (List ℕ)
cut_lines = (codes "t") ∷ (10 ∷ codes "f" ++ 13 ∷ []) ∷ (10 ∷ 10 ∷ codes "t") ∷ []

cut_lines-test :
    held (push_all parse_bit 1 cut_lines empty_buffer) ≡ ok (true ∷ false ∷ [], codes "t")
unfolding push_all push push_loop append grow bytes break_line parse_frame strip_cr
cut_lines-test = refl

oversized-test : push_all parse_bit 1 (codes "tf" ∷ []) empty_buffer ≡ err oversized
unfolding push_all push push_loop append grow bytes break_line parse_frame strip_cr
oversized-test = refl

invalid-test : push_all parse_bit 1 ((120 ∷ 10 ∷ []) ∷ []) empty_buffer ≡ err invalid_json
unfolding push_all push push_loop append grow bytes break_line parse_frame strip_cr
invalid-test = refl

finish-test :
    finish parse_bit 1 (record { storage = 116 ∷ 0 ∷ []; used = 1 }) ≡ err incomplete_frame
unfolding finish
finish-test = refl

encode-test : encode parse_bit 0 encode_bit true ≡ err encoded_oversized
unfolding encode
encode-test = refl

push_all-feed_example :
    held (push_all parse_bit 1 cut_lines empty_buffer)
    ≡ feed parse_bit 1 (concat cut_lines) (bytes empty_buffer)
push_all-feed_example = push_all-feed parse_bit 1 cut_lines empty_buffer (empty-Ready 1)

encoded : encode_all encode_bit parse_bit 1 (true ∷ false ∷ []) ≡ ok (116 ∷ 10 ∷ 102 ∷ 10 ∷ [])
unfolding encode_all encode
encoded = refl

-- The second line is cut in two.
push_all-encode_all_example :
    held (push_all parse_bit 1 ((116 ∷ 10 ∷ 102 ∷ []) ∷ (10 ∷ []) ∷ []) empty_buffer)
    ≡ ok (true ∷ false ∷ [], [])
push_all-encode_all_example =
    push_all-encode_all encode_bit parse_bit 1 bits-JsonLaws (true ∷ false ∷ [])
      (116 ∷ 10 ∷ 102 ∷ 10 ∷ []) ((116 ∷ 10 ∷ 102 ∷ []) ∷ (10 ∷ []) ∷ []) encoded refl

validate_limit-test :
    (validate_limit none 8192 ≡ some 8192)
    × (validate_limit (some (int 1)) 8192 ≡ some 1)
    × (validate_limit (some (int 0)) 8192 ≡ none)
    × (validate_limit (some infinity) 8192 ≡ none)
unfolding validate_limit
validate_limit-test = (refl, refl, refl, refl)

text_push-test :
    (text_push parse_bit 1 (codes "t") ≡ ok (true ∷ []))
    × (text_push parse_bit 1 (codes "tt") ≡ err oversized)
    × (text_push parse_bit 1 [] ≡ err invalid_json)
unfolding text_push
text_push-test = (refl, refl, refl)
