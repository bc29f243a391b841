-- ===== src/Transport/Framing/RoundTrip.antt =====
-- What the JSON lines codec encodes, its decoder gives back, however the bytes are cut into chunks.
use mathlib.Core.List.{append_assoc}
use cavi_api_client.Base.{
  ℕ, ◌<◌, ◌≡◌, refl, ◌∙◌, false, Option, some, List, [], ◌∷◌, ◌++◌, length, Result, ok, ◌>>=◌, ◌==◌,
  ltb, arith, Bool-cases, Result-cases, Option-cases, inl, inr, All,
}
use cavi_api_client.Transport.SseStream.{strip_cr}
use cavi_api_client.Transport.Framing.{FrameError, bytes, encode, parse_frame, empty_buffer}
use cavi_api_client.Transport.Framing.Reader.{feed, feed-append, feed-newline, read_more}
use cavi_api_client.Transport.Framing.Lines.{held}
use cavi_api_client.Transport.Framing.Kept.{empty-Ready}
use cavi_api_client.Transport.Framing.Chunks.{concat, push_all, push_all-feed}

module _ {V : Type 0} (encode_json : V → Option (List ℕ))
    (parse_json : List ℕ → Result FrameError V) where
  -- What the codec relies on of `JSON.stringify` and `JSON.parse`: a text that is made is parsed to
  -- its value; it is not empty, has no newline and does not end in a carriage return.
  pub record JsonLaws : Type 0 where
    pub parsed : (v : V) (body : List ℕ) → encode_json v ≡ some body → parse_json body ≡ ok v
    pub filled : (v : V) (body : List ℕ) → encode_json v ≡ some body → 0 < length body
    pub plain :
        (v : V) (body : List ℕ) → encode_json v ≡ some body → All (λ c. (c == 10) ≡ false) body
    pub ended : (v : V) (body : List ℕ) → encode_json v ≡ some body → strip_cr body ≡ body

  module _ (max_frame_bytes : ℕ) where
    -- The frames of the messages of a list, one after the other.
    unfoldable pub encode_all : List V → Result FrameError (List ℕ)
    encode_all [] = ok []
    encode_all (v ∷ vs) = do
      frame ← encode parse_json max_frame_bytes encode_json v
      rest ← encode_all vs
      ok (frame ++ rest)

  module _ (max_frame_bytes : ℕ) (laws : JsonLaws) where
    record IsEncoded (v : V) (frame : List ℕ) : Type 0 where
      body : List ℕ
      made : encode_json v ≡ some body
      short : ltb max_frame_bytes (length body) ≡ false
      framed : frame ≡ body ++ 10 ∷ []

    encode-IsEncoded :
        (v : V) (frame : List ℕ)
        → encode parse_json max_frame_bytes encode_json v ≡ ok frame
        → IsEncoded v frame
    unfolding encode
    encode-IsEncoded v frame e = elim (Option-cases (encode_json v)) [
      | inl made ↦ let e' = rw (encode, made) at e in ground arith
      | inr (body, made) ↦ elim (Bool-cases (ltb max_frame_bytes (length body))) [
        | inl long ↦ let e' = rw (encode, made, long) at e in ground arith
        | inr short ↦
            let e' = rw (encode, made, short) at e in
            record { body = body; made = made; short = short; framed = ground arith }
      ]
    ]

    parse_frame_lem :
        (body : List ℕ) (v : V)
        → 0 < length body
        → parse_json body ≡ ok v
        → parse_frame parse_json max_frame_bytes body ≡ ok (v ∷ [])
    unfolding parse_frame
    parse_frame_lem [] v h e = ground arith
    parse_frame_lem (c ∷ s) v h e = rw e refl

    feed-frame :
        (v : V) (body rest : List ℕ)
        → encode_json v ≡ some body
        → ltb max_frame_bytes (length body) ≡ false
        → feed parse_json max_frame_bytes (body ++ 10 ∷ rest) [] ≡ (
            feed parse_json max_frame_bytes rest []
            >>= read_more parse_json max_frame_bytes (v ∷ []))
    feed-frame v body rest made short =
        let stripped = laws.ended v body made in
        feed-append parse_json max_frame_bytes body (10 ∷ rest) [] (laws.plain v body made)
          (rw stripped short)
        ∙ feed-newline parse_json max_frame_bytes 10 rest body refl
        ∙ rw (stripped, parse_frame_lem body v (laws.filled v body made) (laws.parsed v body made))
            refl

    feed-encode_all :
        (values : List V) (frames : List ℕ)
        → encode_all max_frame_bytes values ≡ ok frames
        → feed parse_json max_frame_bytes frames [] ≡ ok (values, [])
    unfolding encode_all
    feed-encode_all [] frames e =
        let none_left : frames ≡ [] = ground arith in rw none_left (unfold feed in refl)
    feed-encode_all (v ∷ vs) frames e =
        elim (Result-cases (encode parse_json max_frame_bytes encode_json v)) [
          | inl (frame, f) ↦ elim (Result-cases (encode_all max_frame_bytes vs)) [
            | inl (rest, g) ↦
                let e' : ok (frame ++ rest) ≡ ok frames = rw (f, g) at e in
                let joined : frames ≡ frame ++ rest = ground arith in
                let k = encode-IsEncoded v frame f in
                rw (joined, k.framed, append_assoc k.body (10 ∷ []) rest)
                  (feed-frame v k.body rest k.made k.short ∙ rw (feed-encode_all vs rest g) refl)
            | inr (failure, g) ↦ let e' = rw (f, g) at e in ground arith
          ]
          | inr (failure, f) ↦ let e' = rw f at e in ground arith
        ]

    -- Where the messages of a list are encoded as JSON lines one after the other, and the bytes cut
    -- into chunks in any way, a new decoder returns the messages in their order, and no bytes are left
    -- over. The JSON coding obeys its laws.
    pub push_all-encode_all :
        (values : List V) (frames : List ℕ) (chunks : List (List ℕ))
        → encode_all max_frame_bytes values ≡ ok frames
        → concat chunks ≡ frames
        → held (push_all parse_json max_frame_bytes chunks empty_buffer) ≡ ok (values, [])
    unfolding bytes
    push_all-encode_all values frames chunks e cut =
        push_all-feed parse_json max_frame_bytes chunks empty_buffer (empty-Ready max_frame_bytes)
        ∙ rw cut (feed-encode_all values frames e)
