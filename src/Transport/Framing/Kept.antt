-- ===== src/Transport/Framing/Kept.antt =====
-- What a JSON lines decoder holds between two chunks: a valid buffer, with a line that still fits.
use cavi_api_client.Base.{
  ℕ, zero, suc, ◌≡◌, refl, Bool, true, false, not, Option, none, some, List, [], ◌∷◌, length,
  Result, ok, err, ◌>>=◌, ◌>>◌, guard, arith,
}
use cavi_api_client.Transport.SseStream.{strip_cr}
use cavi_api_client.Transport.Framing.{
  FrameBuffer, FrameError, oversized, bytes, append, clear, break_line, parse_frame, add_values,
  push_loop, push, empty_buffer,
}
use cavi_api_client.Transport.Framing.Buffer.{IsValid, append-IsValid}
use cavi_api_client.Transport.Framing.Lines.{end_line}
use cavi_api_client.Transport.Framing.Reader.{too_long}

pub record Ready (max_frame_bytes : ℕ) (b : FrameBuffer) : Type 0 where
  pub valid : IsValid b
  pub fits : too_long max_frame_bytes (bytes b) ≡ false

pub empty-Ready : (max_frame_bytes : ℕ) → Ready max_frame_bytes empty_buffer
unfolding bytes strip_cr
empty-Ready max_frame_bytes = record { valid = record { fits = omega arith }; fits = ground arith }

clear-Ready : (max_frame_bytes : ℕ) (b : FrameBuffer) → Ready max_frame_bytes (clear b)
unfolding bytes strip_cr
clear-Ready max_frame_bytes b = record {
  valid = record { fits = omega arith };
  fits = ground arith;
}

module _ {V : Type 0} (parse_json : List ℕ → Result FrameError V) (max_frame_bytes : ℕ) where
  abbrev LeftReady : Result FrameError (List V × FrameBuffer) → Type 0
  LeftReady (ok (values, b)) = Ready max_frame_bytes b
  LeftReady (err e) = Unit

  bound-LeftReady :
      {A : Type 0} (r : Result FrameError A) (f : A → Result FrameError (List V × FrameBuffer))
      → ((a : A) → r ≡ ok a → LeftReady (f a))
      → LeftReady (r >>= f)
  bound-LeftReady (ok a) f h = h a refl
  bound-LeftReady (err e) f h = tt

  add_values-LeftReady :
      (values : List V) (r : Result FrameError (List V × FrameBuffer))
      → LeftReady r
      → LeftReady (r >>= add_values parse_json max_frame_bytes values)
  add_values-LeftReady values (ok (more, b)) h = h
  add_values-LeftReady values (err e) h = h

  guarded-LeftReady :
      (test : Bool) (r : Result FrameError (List V × FrameBuffer))
      → (test ≡ true → LeftReady r)
      → LeftReady (guard test oversized >> r)
  guarded-LeftReady true r h = h refl
  guarded-LeftReady false r h = tt

  end_line-LeftReady :
      (fuel : ℕ) (tail : Option (List ℕ)) (b : FrameBuffer)
      → Ready max_frame_bytes b
      → ((rest : List ℕ) → LeftReady (push_loop parse_json max_frame_bytes fuel rest (clear b)))
      → LeftReady (end_line parse_json max_frame_bytes fuel tail b)
  end_line-LeftReady fuel none b r h = r
  end_line-LeftReady fuel (some rest) b r h =
      bound-LeftReady (parse_frame parse_json max_frame_bytes (strip_cr (bytes b))) _ (λ values _.
        add_values-LeftReady values (push_loop parse_json max_frame_bytes fuel rest (clear b))
          (h rest))

  push_loop-LeftReady :
      (fuel : ℕ) (chunk : List ℕ) (b : FrameBuffer)
      → Ready max_frame_bytes b
      → LeftReady (push_loop parse_json max_frame_bytes fuel chunk b)
  unfolding push_loop
  push_loop-LeftReady zero chunk b r = r
  push_loop-LeftReady (suc fuel) [] b r = r
  push_loop-LeftReady (suc fuel) (c ∷ s) b r =
      bound-LeftReady (append ((break_line (c ∷ s)).0) (suc max_frame_bytes) b) _ (λ b' e.
        guarded-LeftReady (not (too_long max_frame_bytes (bytes b'))) _ (λ fits.
          end_line-LeftReady fuel ((break_line (c ∷ s)).1) b'
            (record {
              valid = append-IsValid ((break_line (c ∷ s)).0) _ b b' r.valid e;
              fits = ground arith;
            })
            (λ rest. push_loop-LeftReady fuel rest (clear b') (clear-Ready max_frame_bytes b'))))

  -- A decoder that has returned is ready for another chunk.
  pub push-Ready :
      (chunk : List ℕ) (b b' : FrameBuffer) (values : List V)
      → Ready max_frame_bytes b
      → push parse_json max_frame_bytes chunk b ≡ ok (values, b')
      → Ready max_frame_bytes b'
  unfolding push
  push-Ready chunk b b' values r e = rw e at (push_loop-LeftReady (length chunk) chunk b r)
