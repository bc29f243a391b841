-- ===== src/Transport/Framing/Reader.antt =====
-- A reader of JSON lines, one byte at a time.
use mathlib.Core.List.{append_assoc, append-nil}
use cavi_api_client.Base.{
  ℕ, suc, ◌≤◌, ◌≡◌, refl, ◌∙◌, Bool, true, false, not, List, [], ◌∷◌, ◌++◌, ltb, ◌==◌, length,
  Result, ok, err, ◌>>=◌, ◌>>◌, guard, arith, Bool-cases, inl, inr, All,
}
use cavi_api_client.Transport.SseStream.{strip_cr}
use cavi_api_client.Transport.Framing.{FrameError, oversized, parse_frame}

pub length-strip_cr : (s : List ℕ) → length s ≤ suc (length (strip_cr s))
unfolding strip_cr
length-strip_cr [] = omega arith
length-strip_cr (c ∷ []) = elim (Bool-cases (c == 13)) [
  | inl e ↦ rw e (omega arith)
  | inr e ↦ rw e (omega arith)
]
length-strip_cr (c ∷ d ∷ s) = omega (arith, length-strip_cr (d ∷ s))

strip_cr-append_le : (xs ys : List ℕ) → length (strip_cr xs) ≤ length (strip_cr (xs ++ ys))
unfolding strip_cr
strip_cr-append_le [] ys = omega arith
strip_cr-append_le (x ∷ []) [] = omega arith
strip_cr-append_le (x ∷ []) (y ∷ ys) = elim (Bool-cases (x == 13)) [
  | inl e ↦ rw e (omega arith)
  | inr e ↦ rw e (omega arith)
]
strip_cr-append_le (x ∷ d ∷ s) ys = omega (arith, strip_cr-append_le (d ∷ s) ys)

-- A line is too long that holds more bytes than a frame may, a carriage return at its end aside.
abbrev pub too_long : ℕ → List ℕ → Bool
too_long max_frame_bytes line = ltb max_frame_bytes (length (strip_cr line))

module _ {V : Type 0} (parse_json : List ℕ → Result FrameError V) (max_frame_bytes : ℕ) where
  -- What a reader holds is the line so far: a newline ends it, any other byte is added to it.
  abbrev pub read_more : List V → List V × List ℕ → Result FrameError (List V × List ℕ)
  read_more values (more, line) = ok (values ++ more, line)

  -- A newline ends the line, which is read; any other byte is added to it.
  unfoldable pub feed : List ℕ → List ℕ → Result FrameError (List V × List ℕ)
  feed [] line = ok ([], line)
  feed (c ∷ s) line = elim (c == 10) [
    | true ↦ do
      values ← parse_frame parse_json max_frame_bytes (strip_cr line)
      feed s [] >>= read_more values
    | false ↦ do
      guard (not (too_long max_frame_bytes (line ++ c ∷ []))) oversized
      feed s (line ++ c ∷ [])
  ]

  -- The code's test of a whole line, and the reader's test of every byte, stop at the same lines.
  pub too_long-append :
      (xs ys : List ℕ)
      → too_long max_frame_bytes xs ≡ true
      → too_long max_frame_bytes (xs ++ ys) ≡ true
  too_long-append xs ys h = let m = strip_cr-append_le xs ys in ground arith

  pub feed-newline :
      (c : ℕ) (s line : List ℕ)
      → (c == 10) ≡ true
      → feed (c ∷ s) line ≡ (
          parse_frame parse_json max_frame_bytes (strip_cr line) >>= λ values.
          feed s [] >>= read_more values)
  unfolding feed
  feed-newline c s line e = rw (feed, e) refl

  pub feed-plain :
      (c : ℕ) (s line : List ℕ)
      → (c == 10) ≡ false
      → feed (c ∷ s) line ≡ (
          guard (not (too_long max_frame_bytes (line ++ c ∷ []))) oversized
          >> feed s (line ++ c ∷ []))
  unfolding feed
  feed-plain c s line e = rw (feed, e) refl

  pub feed-too_long :
      (xs ys line : List ℕ)
      → All (λ c. (c == 10) ≡ false) xs
      → too_long max_frame_bytes line ≡ false
      → too_long max_frame_bytes (line ++ xs) ≡ true
      → feed (xs ++ ys) line ≡ err oversized
  feed-too_long [] ys line plain fits long =
      let long' = rw (append-nil line) at long in ground arith
  feed-too_long (c ∷ s) ys line plain fits long =
      elim (Bool-cases (too_long max_frame_bytes (line ++ c ∷ []))) [
        | inl e ↦ feed-plain c (s ++ ys) line (plain.0) ∙ rw e refl
        | inr e ↦
            feed-plain c (s ++ ys) line (plain.0)
            ∙ rw e (
                feed-too_long s ys (line ++ c ∷ []) (plain.1) e
                  (rw (append_assoc line (c ∷ []) s) long))
      ]

  pub feed-append :
      (xs ys line : List ℕ)
      → All (λ c. (c == 10) ≡ false) xs
      → too_long max_frame_bytes (line ++ xs) ≡ false
      → feed (xs ++ ys) line ≡ feed ys (line ++ xs)
  feed-append [] ys line plain fits = rw (append-nil line) refl
  feed-append (c ∷ s) ys line plain fits =
      elim (Bool-cases (too_long max_frame_bytes (line ++ c ∷ []))) [
        | inl e ↦
            let long =
              rw (append_assoc line (c ∷ []) s) at (too_long-append (line ++ c ∷ []) s e) in
            ground arith
        | inr e ↦
            let fits' : too_long max_frame_bytes ((line ++ c ∷ []) ++ s) ≡ false =
              rw (append_assoc line (c ∷ []) s) fits in
            let rest = feed-append s ys (line ++ c ∷ []) (plain.1) fits' in
            let joined = rw (append_assoc line (c ∷ []) s) at rest in
            feed-plain c (s ++ ys) line (plain.0) ∙ rw e joined
      ]
