-- ===== src/Transport/Framing.antt =====
-- src/core/transport/framing.ts: the frame buffer and the codecs of JSON texts and JSON lines, over
-- bytes. What JSON and UTF-8 do is an argument of `parse_json` and `encode_json`, and the codecs take
-- those. A call that throws returns its error alone: what the buffer holds then is not modelled.
pub mod Buffer
pub mod Reader
pub mod Lines
pub mod Kept
pub mod Chunks
pub mod RoundTrip
pub mod Samples
mod Tests
use cavi_api_client.Base.{
  ℕ, zero, suc, ◌+◌, ◌*◌, min, max, Bool, true, false, not, Option, none, some, List, [], ◌∷◌, ◌++◌,
  if◌then◌else◌, ltb, ◌==◌, length, take, Result, ok, err, ◌>>=◌, ◌>>◌, guard, ◌||◌,
}
use cavi_api_client.Base.Text.{Text}
use cavi_api_client.Base.Number.{Number, scale, is_integer, lt_num, gt_num, whole}
use cavi_api_client.Transport.SseStream.{strip_cr}

pub data FrameError : Type 0 where
  oversized invalid_utf8 invalid_json incomplete_frame encoding_failed encoded_oversized :
      FrameError

-- The storage is as long as it was allocated; `used` is the field `length`.
pub record FrameBuffer : Type 0 where
  pub storage : List ℕ
  pub used : ℕ

abbrev pub empty_buffer : FrameBuffer
empty_buffer = record { storage = []; used = 0 }

abbrev pub zeros : ℕ → List ℕ
zeros zero = []
zeros (suc n) = 0 ∷ zeros n

-- `storage.set(chunk, offset)`, which keeps the length; what does not fit is not written.
abbrev pub write : List ℕ → ℕ → List ℕ → List ℕ
write [] offset chunk = []
write (x ∷ xs) (suc offset) chunk = x ∷ write xs offset chunk
write (x ∷ xs) zero [] = x ∷ xs
write (x ∷ xs) zero (c ∷ cs) = c ∷ write xs zero cs

unfoldable pub bytes : FrameBuffer → List ℕ
bytes b = take b.used b.storage

-- The storage for a number of bytes: the old one, or a larger one with the bytes in use.
unfoldable pub grow : (limit needed : ℕ) → FrameBuffer → List ℕ
unfolding bytes
grow limit needed b =
    if ltb (length b.storage) needed
    then write (zeros (min limit (max needed (max 256 (length b.storage * 2))))) 0 (bytes b)
    else b.storage

-- `chunk.byteLength > limit - this.length`: the difference is never negative.
unfoldable pub append : List ℕ → (limit : ℕ) → FrameBuffer → Result FrameError FrameBuffer
unfolding grow
append chunk limit b =
    if ltb limit (b.used + length chunk)
    then err oversized
    else ok (record {
      storage = write (grow limit (b.used + length chunk) b) b.used chunk;
      used = b.used + length chunk;
    })

abbrev pub clear : FrameBuffer → FrameBuffer
clear b = record b { used = 0 }

-- The bytes up to a newline, and what follows it.
unfoldable pub break_line : List ℕ → List ℕ × Option (List ℕ)
break_line [] = ([], none)
break_line (c ∷ s) =
    let (segment, rest) = break_line s in if c == 10 then ([], some s) else (c ∷ segment, rest)

-- `none` is a TypeError. A value below one fails either test.
unfoldable pub validate_limit : Option Number → (fallback : ℕ) → Option ℕ
validate_limit none fallback = some fallback
validate_limit (some limit) fallback =
    if not (is_integer limit) || gt_num limit (9007199254740991 * scale) || lt_num limit scale
    then none
    else some (whole limit)

-- What `TextDecoder` and `JSON` do is an argument: `none` where they throw, and where
-- `JSON.stringify` returns undefined.
abbrev pub parse_json {ℓ} :
    {V : Type ℓ}
    → (decode : List ℕ → Option Text) (parse : Text → Option V) → List ℕ
    → Result FrameError V
parse_json decode parse value = elim (decode value) [
  | none ↦ err invalid_utf8
  | some text ↦ elim (parse text) [ none ↦ err invalid_json | some v ↦ ok v ]
]

-- `none` is thrown on as an encoding failure.
abbrev pub encode_json {ℓ} :
    {V : Type ℓ} → (stringify : V → Option Text) (encode : Text → List ℕ) → V → Option (List ℕ)
encode_json stringify encode value = elim (stringify value) [
  | none ↦ none
  | some text ↦ some (encode text)
]

module _ {V : Type 0} (parse : List ℕ → Result FrameError V) (max_frame_bytes : ℕ) where
  -- A frame without bytes is no value.
  unfoldable pub parse_frame : List ℕ → Result FrameError (List V)
  parse_frame [] = ok []
  parse_frame (c ∷ s) = parse (c ∷ s) >>= λ v. ok (v ∷ [])

  abbrev pub add_values : List V → List V × FrameBuffer → Result FrameError (List V × FrameBuffer)
  add_values values (more, b) = ok (values ++ more, b)

  -- `push` of a JSON lines decoder, with fuel for the lines of the chunk.
  unfoldable pub push_loop :
      (fuel : ℕ) → List ℕ → FrameBuffer → Result FrameError (List V × FrameBuffer)
  unfolding parse_frame strip_cr
  push_loop zero chunk b = ok ([], b)
  push_loop (suc fuel) [] b = ok ([], b)
  push_loop (suc fuel) (c ∷ s) b = do
    let line = break_line (c ∷ s)
    b' ← append (line.0) (suc max_frame_bytes) b
    guard (not (ltb max_frame_bytes (length (strip_cr (bytes b'))))) oversized
    elim (line.1) [
      | none ↦ ok ([], b')
      | some rest ↦ do
        values ← parse_frame (strip_cr (bytes b'))
        push_loop fuel rest (clear b') >>= add_values values
    ]

  -- Every line takes a byte at least, so the length of the chunk is fuel enough.
  unfoldable pub push : List ℕ → FrameBuffer → Result FrameError (List V × FrameBuffer)
  unfolding push_loop
  push chunk b = push_loop (length chunk) chunk b

  unfoldable pub finish : FrameBuffer → Result FrameError (List V)
  finish b = if ltb 0 b.used then err incomplete_frame else ok []

  -- `encode_body` is `encode_json` of some coding.
  unfoldable pub encode : (V → Option (List ℕ)) → V → Result FrameError (List ℕ)
  encode encode_body value = elim (encode_body value) [
    | none ↦ err encoding_failed
    | some body ↦
        if ltb max_frame_bytes (length body) then err encoded_oversized else ok (body ++ 10 ∷ [])
  ]

  -- The codec without framing: `encode` and `push` of `jsonTextCodec`.
  unfoldable pub text_encode : (V → Option (List ℕ)) → V → Result FrameError (List ℕ)
  text_encode encode_body value = elim (encode_body value) [
    | none ↦ err encoding_failed
    | some result ↦ if ltb max_frame_bytes (length result) then err encoded_oversized else ok result
  ]

  unfoldable pub text_push : List ℕ → Result FrameError (List V)
  text_push chunk = do
    guard (not (ltb max_frame_bytes (length chunk))) oversized
    value ← parse chunk
    ok (value ∷ [])
