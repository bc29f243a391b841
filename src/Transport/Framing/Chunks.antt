-- ===== src/Transport/Framing/Chunks.antt =====
-- A JSON lines decoder over all the chunks of an input.
use mathlib.Core.List.{append_assoc}
use cavi_api_client.Base.{
  ℕ, ◌≡◌, refl, ◌∙◌, sym, ap, Bool, true, false, not, List, [], ◌∷◌, ◌++◌, Result, ok, err, ◌>>=◌,
  ◌>>◌, ◌==◌, guard, Bool-cases, Result-cases, inl, inr,
}
use cavi_api_client.Transport.SseStream.{strip_cr}
use cavi_api_client.Transport.Framing.{
  FrameBuffer, FrameError, oversized, bytes, add_values, push, parse_frame,
}
use cavi_api_client.Transport.Framing.Reader.{feed, too_long, read_more, feed-plain, feed-newline}
use cavi_api_client.Transport.Framing.Lines.{held, push-feed, held-add_values}
use cavi_api_client.Transport.Framing.Kept.{Ready, push-Ready}

abbrev pub concat : List (List ℕ) → List ℕ
concat [] = []
concat (chunk ∷ chunks) = chunk ++ concat chunks

module _ {V : Type 0} (parse_json : List ℕ → Result FrameError V) (max_frame_bytes : ℕ) where
  unfoldable pub push_all : List (List ℕ) → FrameBuffer → Result FrameError (List V × FrameBuffer)
  push_all [] b = ok ([], b)
  push_all (chunk ∷ chunks) b = do
    (values, b') ← push parse_json max_frame_bytes chunk b
    push_all chunks b' >>= add_values parse_json max_frame_bytes values

  read_more-nil :
      (r : Result FrameError (List V × List ℕ))
      → r ≡ (r >>= read_more parse_json max_frame_bytes [])
  read_more-nil (ok (more, line)) = refl
  read_more-nil (err e) = refl

  read_more-twice :
      (values : List V) (r : Result FrameError (List V × List ℕ))
      (f : List ℕ → Result FrameError (List V × List ℕ))
      → ((r >>= λ next. f (next.1) >>= read_more parse_json max_frame_bytes (next.0))
          >>= read_more parse_json max_frame_bytes values)
        ≡ ((r >>= read_more parse_json max_frame_bytes values) >>= λ next.
            f (next.1) >>= read_more parse_json max_frame_bytes (next.0))
  read_more-twice values (ok (more, line)) f = again (f line)
    where
      again :
          (r : Result FrameError (List V × List ℕ))
          → ((r >>= read_more parse_json max_frame_bytes more)
              >>= read_more parse_json max_frame_bytes values)
            ≡ (r >>= read_more parse_json max_frame_bytes (values ++ more))
      again (ok (last, end)) = ap (λ vs. ok (vs, end)) (sym (append_assoc values more last))
      again (err e) = refl
  read_more-twice values (err e) f = refl

  -- To read two chunks is to read them one after the other.
  feed-split :
      (xs ys line : List ℕ)
      → feed parse_json max_frame_bytes (xs ++ ys) line ≡ (
          feed parse_json max_frame_bytes xs line >>= λ next.
          feed parse_json max_frame_bytes ys (next.1)
          >>= read_more parse_json max_frame_bytes (next.0))
  feed-split [] ys line = unfold feed in read_more-nil (feed parse_json max_frame_bytes ys line)
  feed-split (c ∷ s) ys line = elim (Bool-cases (c == 10)) [
    | inl e ↦
        let rest = feed-split s ys [] in
        rw
          (
            feed-newline parse_json max_frame_bytes c (s ++ ys) line e,
            feed-newline parse_json max_frame_bytes c s line e,
          )
          (parsed (parse_frame parse_json max_frame_bytes (strip_cr line)) _ _ _ (λ values.
            ap (λ r. r >>= read_more parse_json max_frame_bytes values) rest
            ∙ read_more-twice values (feed parse_json max_frame_bytes s [])
                (feed parse_json max_frame_bytes ys)))
    | inr e ↦
        let rest = feed-split s ys (line ++ c ∷ []) in
        rw
          (
            feed-plain parse_json max_frame_bytes c (s ++ ys) line e,
            feed-plain parse_json max_frame_bytes c s line e,
          )
          (guarded (not (too_long max_frame_bytes (line ++ c ∷ []))) _ _ _ rest)
  ]
    where
      guarded :
          (test : Bool) (r r' : Result FrameError (List V × List ℕ))
          (f : List V × List ℕ → Result FrameError (List V × List ℕ))
          → r ≡ (r' >>= f)
          → (guard test oversized >> r) ≡ ((guard test oversized >> r') >>= f)
      guarded true r r' f h = h
      guarded false r r' f h = refl

      parsed :
          (r : Result FrameError (List V)) (f g : List V → Result FrameError (List V × List ℕ))
          (h : List V × List ℕ → Result FrameError (List V × List ℕ))
          → ((values : List V) → f values ≡ (g values >>= h))
          → (r >>= f) ≡ ((r >>= g) >>= h)
      parsed (ok values) f g h k = k values
      parsed (err e) f g h k = refl

  -- Whatever storage the buffer has and however the input is cut into chunks, a JSON lines decoder
  -- that is ready returns what a reader of one byte at a time returns, which holds the bytes of the
  -- line so far: the values of the lines that end, the bytes left over, or the first error.
  pub push_all-feed :
      (chunks : List (List ℕ)) (b : FrameBuffer)
      → Ready max_frame_bytes b
      → held (push_all chunks b) ≡ feed parse_json max_frame_bytes (concat chunks) (bytes b)
  unfolding push_all
  push_all-feed [] b r = unfold feed in refl
  push_all-feed (chunk ∷ chunks) b r =
      elim (Result-cases (push parse_json max_frame_bytes chunk b)) [
        | inl ((values, b'), e) ↦
            let one = push-feed parse_json max_frame_bytes chunk b r.valid r.fits in
            let rest =
              push_all-feed chunks b'
                (push-Ready parse_json max_frame_bytes chunk b b' values r e) in
            rw e (
              held-add_values parse_json max_frame_bytes values (push_all chunks b')
              ∙ rw rest (sym (feed-split chunk (concat chunks) (bytes b) ∙ rw (← one) (rw e refl))))
        | inr (failure, e) ↦
            let one = push-feed parse_json max_frame_bytes chunk b r.valid r.fits in
            rw e (sym (feed-split chunk (concat chunks) (bytes b) ∙ rw (← one) (rw e refl)))
      ]

  -- An input may be cut anywhere: where two cuts give the same bytes, a decoder that is ready returns
  -- the same values, the same bytes held and the same error for both.
  pub push_all-same :
      (chunks chunks' : List (List ℕ)) (b b' : FrameBuffer)
      → Ready max_frame_bytes b
      → Ready max_frame_bytes b'
      → bytes b ≡ bytes b'
      → concat chunks ≡ concat chunks'
      → held (push_all chunks b) ≡ held (push_all chunks' b')
  push_all-same chunks chunks' b b' r r' same joined =
      push_all-feed chunks b r ∙ rw (same, joined) (sym (push_all-feed chunks' b' r'))
