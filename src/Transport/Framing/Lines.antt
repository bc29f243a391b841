-- ===== src/Transport/Framing/Lines.antt =====
-- The JSON lines decoder is a reader of one byte at a time, whatever the storage of its buffer and
-- however its input is cut into chunks.
use cavi_api_client.Base.{
  ℕ, zero, suc, ◌+◌, ◌≤◌, ◌≡◌, refl, ◌∙◌, ap, sym, true, false, not, Option, none, some, List, [],
  ◌∷◌, ◌++◌, ltb, ◌==◌, length, Result, ok, err, Result-cases, ◌>>=◌, ◌>>◌, guard, arith,
  Bool-cases, inl, inr, All, length-append,
}
use cavi_api_client.Transport.SseStream.{strip_cr}
use cavi_api_client.Transport.Framing.{
  FrameBuffer, FrameError, oversized, bytes, append, clear, break_line, parse_frame, add_values,
  push_loop, push,
}
use cavi_api_client.Transport.Framing.Buffer.{IsValid, append-bytes, length-bytes}
use cavi_api_client.Transport.Framing.Reader.{
  length-strip_cr, too_long, feed, feed-too_long, feed-append,
}

-- A line break splits a text where its first newline is.
abbrev after_line : Option (List ℕ) → List ℕ
after_line none = []
after_line (some rest) = 10 ∷ rest

record Breaks (s segment : List ℕ) (rest : Option (List ℕ)) : Type 0 where
  joined : s ≡ segment ++ after_line rest
  plain : All (λ c. (c == 10) ≡ false) segment

break_line-Breaks : (s : List ℕ) → Breaks s ((break_line s).0) ((break_line s).1)
unfolding break_line
break_line-Breaks [] = record { joined = refl; plain = tt }
break_line-Breaks (c ∷ s) = elim (Bool-cases (c == 10)) [
  | inl e ↦
      let same : c ≡ 10 = ground arith in rw e (record { joined = ap (◌∷ s) same; plain = tt })
  | inr e ↦ rw e (record {
    joined = ap (c ∷◌) ((break_line-Breaks s).joined);
    plain = (e, (break_line-Breaks s).plain);
  })
]

-- What a decoder did, with its buffer as the bytes it holds.
abbrev pub held :
    {V : Type 0} → Result FrameError (List V × FrameBuffer) → Result FrameError (List V × List ℕ)
held (ok (values, b)) = ok (values, bytes b)
held (err e) = err e

module _ {V : Type 0} (parse_json : List ℕ → Result FrameError V) (max_frame_bytes : ℕ) where
  pub held-add_values :
      (values : List V) (r : Result FrameError (List V × FrameBuffer))
      → held (r >>= add_values parse_json max_frame_bytes values)
        ≡ (held r >>= λ next. ok (values ++ next.0, next.1))
  held-add_values values (ok (more, b)) = refl
  held-add_values values (err e) = refl

  -- The end of a turn of the loop, for what follows the line.
  abbrev pub end_line :
      (fuel : ℕ) → Option (List ℕ) → FrameBuffer → Result FrameError (List V × FrameBuffer)
  end_line fuel tail b = elim tail [
    | none ↦ ok ([], b)
    | some rest ↦ do
      values ← parse_frame parse_json max_frame_bytes (strip_cr (bytes b))
      push_loop parse_json max_frame_bytes fuel rest (clear b)
          >>= add_values parse_json max_frame_bytes values
  ]

  bytes-clear : (b : FrameBuffer) → bytes (clear b) ≡ []
  unfolding bytes
  bytes-clear b = refl

  end_line-feed :
      (fuel : ℕ) (tail : Option (List ℕ)) (b : FrameBuffer)
      → ((rest : List ℕ)
          → tail ≡ some rest
          → held (push_loop parse_json max_frame_bytes fuel rest (clear b))
            ≡ feed parse_json max_frame_bytes rest [])
      → held (end_line fuel tail b) ≡ feed parse_json max_frame_bytes (after_line tail) (bytes b)
  unfolding feed
  end_line-feed fuel none b ih = refl
  end_line-feed fuel (some rest) b ih =
      elim (Result-cases (parse_frame parse_json max_frame_bytes (strip_cr (bytes b)))) [
        | inl (values, e) ↦ rw e (
            held-add_values values (push_loop parse_json max_frame_bytes fuel rest (clear b))
            ∙ rw (ih rest refl) refl)
        | inr (failure, e) ↦ rw e refl
      ]

  abbrev after_append :
      (fuel : ℕ) → Option (List ℕ) → FrameBuffer → Result FrameError (List V × FrameBuffer)
  after_append fuel tail b =
      guard (not (too_long max_frame_bytes (bytes b))) oversized >> end_line fuel tail b

  module _ (fuel : ℕ) (segment : List ℕ) (tail : Option (List ℕ)) (b : FrameBuffer) (v : IsValid b)
      (fits : too_long max_frame_bytes (bytes b) ≡ false)
      (plain : All (λ c. (c == 10) ≡ false) segment)
      (ih : (rest : List ℕ) (b' : FrameBuffer)
        → tail ≡ some rest
        → IsValid b'
        → held (push_loop parse_json max_frame_bytes fuel rest (clear b'))
          ≡ feed parse_json max_frame_bytes rest []) where
    too_long_line :
        ltb (suc max_frame_bytes) (b.used + length segment) ≡ true
        → held (append segment (suc max_frame_bytes) b >>= after_append fuel tail)
          ≡ feed parse_json max_frame_bytes (segment ++ after_line tail) (bytes b)
    unfolding append
    too_long_line e =
        let size = length-append (bytes b) segment in
        let used = length-bytes b v in
        let stripped = length-strip_cr (bytes b ++ segment) in
        let long : too_long max_frame_bytes (bytes b ++ segment) ≡ true = ground arith in
        rw e (
          sym (
            feed-too_long parse_json max_frame_bytes segment (after_line tail) (bytes b) plain fits
              long))

    appended_line :
        (b' : FrameBuffer)
        → IsValid b'
        → bytes b' ≡ bytes b ++ segment
        → held (after_append fuel tail b')
          ≡ feed parse_json max_frame_bytes (segment ++ after_line tail) (bytes b)
    appended_line b' v' same = elim (Bool-cases (too_long max_frame_bytes (bytes b'))) [
      | inl e ↦ rw e (
          sym (
            feed-too_long parse_json max_frame_bytes segment (after_line tail) (bytes b) plain fits
              (rw (← same) e)))
      | inr e ↦ rw e (
          end_line-feed fuel tail b' (λ rest f. ih rest b' f v')
          ∙ ap (feed parse_json max_frame_bytes (after_line tail)) same
          ∙ sym (
              feed-append parse_json max_frame_bytes segment (after_line tail) (bytes b) plain
                (rw (← same) e)))
    ]

    -- One line of the loop.
    line-feed :
        held (append segment (suc max_frame_bytes) b >>= after_append fuel tail)
        ≡ feed parse_json max_frame_bytes (segment ++ after_line tail) (bytes b)
    line-feed = elim (Bool-cases (ltb (suc max_frame_bytes) (b.used + length segment))) [
      | inl e ↦ too_long_line e
      | inr e ↦
          let (b', done, v', same) = append-bytes segment (suc max_frame_bytes) b v e in
          rw done (appended_line b' v' same)
    ]

  rest_shorter :
      (s segment rest : List ℕ) (tail : Option (List ℕ))
      → Breaks s segment tail
      → tail ≡ some rest
      → suc (length rest) ≤ length s
  rest_shorter s segment rest tail k e =
      let joined : s ≡ segment ++ 10 ∷ rest = k.joined ∙ rw e refl in
      rw joined (omega (arith, length-append segment (10 ∷ rest)))

  clear-IsValid : (b : FrameBuffer) → IsValid (clear b)
  clear-IsValid b = record { fits = omega arith }

  -- From a buffer whose line still fits, the decoder's loop returns the values, the line held and the
  -- error that the reader of one byte at a time returns.
  push_loop-feed :
      (fuel : ℕ) (chunk : List ℕ) (b : FrameBuffer)
      → length chunk ≤ fuel
      → IsValid b
      → too_long max_frame_bytes (bytes b) ≡ false
      → held (push_loop parse_json max_frame_bytes fuel chunk b)
        ≡ feed parse_json max_frame_bytes chunk (bytes b)
  unfolding push_loop
  push_loop-feed zero [] b enough v fits = unfold feed in refl
  push_loop-feed zero (c ∷ s) b enough v fits = ground arith
  push_loop-feed (suc fuel) [] b enough v fits = unfold feed in refl
  push_loop-feed (suc fuel) (c ∷ s) b enough v fits =
      let k = break_line-Breaks (c ∷ s) in
      line-feed fuel ((break_line (c ∷ s)).0) ((break_line (c ∷ s)).1) b v fits k.plain
        (λ rest b' e v'.
          let shorter = rest_shorter (c ∷ s) _ rest _ k e in
          push_loop-feed fuel rest (clear b') (omega arith) (clear-IsValid b')
            (rw (bytes-clear b') (ground arith))
          ∙ ap (feed parse_json max_frame_bytes rest) (bytes-clear b'))
      ∙ ap (λ t. feed parse_json max_frame_bytes t (bytes b)) (sym k.joined)

  -- One chunk is read as the reader reads it.
  pub push-feed :
      (chunk : List ℕ) (b : FrameBuffer)
      → IsValid b
      → too_long max_frame_bytes (bytes b) ≡ false
      → held (push parse_json max_frame_bytes chunk b)
        ≡ feed parse_json max_frame_bytes chunk (bytes b)
  unfolding push
  push-feed chunk b v fits = push_loop-feed (length chunk) chunk b (omega arith) v fits
