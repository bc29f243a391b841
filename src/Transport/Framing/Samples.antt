-- ===== src/Transport/Framing/Samples.antt =====
-- A JSON coding of bits, for the runs of the codecs and channels.
use cavi_api_client.Base.{
  ℕ, ◌<◌, ◌≡◌, refl, Bool, true, false, Option, none, some, List, [], ◌∷◌, ◌==◌, if◌then◌else◌,
  Result, ok, length, arith, All,
}
use cavi_api_client.Base.Text.{Text, codes}
use cavi_api_client.Transport.SseStream.{strip_cr}
use cavi_api_client.Transport.Framing.{FrameError, parse_json, encode_json}
use cavi_api_client.Transport.Framing.RoundTrip.{JsonLaws}

-- Bits, as the texts "t" and "f", one byte for a character.
abbrev stringify_bit : Bool → Option Text
stringify_bit true = some (codes "t")
stringify_bit false = some (codes "f")

abbrev json_bit : Text → Option Bool
json_bit (c ∷ []) = if c == 116 then some true else if c == 102 then some false else none
json_bit [] = none
json_bit (c ∷ d ∷ s) = none

abbrev pub encode_bit : Bool → Option (List ℕ)
encode_bit = encode_json stringify_bit (λ text. text)

abbrev pub parse_bit : List ℕ → Result FrameError Bool
parse_bit = parse_json some json_bit

pub bits-JsonLaws : JsonLaws encode_bit parse_bit
unfolding strip_cr
bits-JsonLaws = record {
  parsed = parsed_bit;
  filled = filled_bit;
  plain = plain_bit;
  ended = ended_bit;
}
  where
    body_of :
        (v : Bool) (body : List ℕ)
        → encode_bit v ≡ some body
        → body ≡ (if v then codes "t" else codes "f")
    body_of true body e = ground arith
    body_of false body e = ground arith

    parsed_bit : (v : Bool) (body : List ℕ) → encode_bit v ≡ some body → parse_bit body ≡ ok v
    parsed_bit true body e = rw (body_of true body e) refl
    parsed_bit false body e = rw (body_of false body e) refl

    filled_bit : (v : Bool) (body : List ℕ) → encode_bit v ≡ some body → 0 < length body
    filled_bit true body e = rw (body_of true body e) (omega arith)
    filled_bit false body e = rw (body_of false body e) (omega arith)

    plain_bit :
        (v : Bool) (body : List ℕ) → encode_bit v ≡ some body → All (λ c. (c == 10) ≡ false) body
    plain_bit true body e = rw (body_of true body e) ((refl, tt))
    plain_bit false body e = rw (body_of false body e) ((refl, tt))

    ended_bit : (v : Bool) (body : List ℕ) → encode_bit v ≡ some body → strip_cr body ≡ body
    ended_bit true body e = rw (body_of true body e) refl
    ended_bit false body e = rw (body_of false body e) refl
