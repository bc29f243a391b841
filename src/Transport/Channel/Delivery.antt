-- ===== src/Transport/Channel/Delivery.antt =====
-- Two channels over JSON lines: what is sent on one is delivered by the other.
use mathlib.Core.List.{append_assoc, append-nil}
use cavi_api_client.Base.{
  ℕ, ◌≡◌, refl, ◌∙◌, sym, ap, true, Option, List, [], ◌∷◌, ◌++◌, map, Result, ok, ◌>>=◌,
  Result-cases, inl, inr, arith,
}
use cavi_api_client.Transport.Framing.{FrameBuffer, FrameError, encode, push, empty_buffer}
use cavi_api_client.Transport.Framing.Chunks.{concat, push_all}
use cavi_api_client.Transport.Framing.RoundTrip.{JsonLaws, encode_all, push_all-encode_all}
use cavi_api_client.Transport.Channel.{Decoder, Channel, calls, chunk, on_chunk, step, run, send}

calls-append :
    {M : Type 0} (ks : List ℕ) (ms ns : List M) → calls ks (ms ++ ns) ≡ calls ks ms ++ calls ks ns
calls-append ks [] ns = refl
calls-append ks (m ∷ ms) ns =
    ap (map (λ k. (k, m)) ks ++◌) (calls-append ks ms ns)
    ∙ sym (append_assoc (map (λ k. (k, m)) ks) (calls ks ms) (calls ks ns))

-- A sender's messages, one after the other.
unfoldable pub send_all :
    {M E : Type 0} → (M → Result E (List ℕ)) → List M → List (List ℕ) → Result E (List (List ℕ))
send_all encode [] written = ok written
send_all encode (m ∷ ms) written = do written' ← send encode m written; send_all encode ms written'

module _ {M : Type 0} (encode_json : M → Option (List ℕ))
    (parse_json : List ℕ → Result FrameError M) (max_frame_bytes : ℕ)
    (d : Decoder FrameBuffer M FrameError) where
  -- A decoder of JSON lines, which is free in what its buffer holds after it has thrown.
  pub record IsLines : Type 0 where
    pub pushes :
        (input : List ℕ) (b b' : FrameBuffer) (ms : List M)
        → push parse_json max_frame_bytes input b ≡ ok (ms, b')
        → d.push input b ≡ (ok ms, b')

  concat-append : (xs ys : List (List ℕ)) → concat (xs ++ ys) ≡ concat xs ++ concat ys
  concat-append [] ys = refl
  concat-append (x ∷ xs) ys =
      ap (x ++◌) (concat-append xs ys) ∙ sym (append_assoc x (concat xs) (concat ys))

  regrouped :
      (written : List (List ℕ)) (frame frames : List ℕ)
      → concat (written ++ frame ∷ []) ++ frames ≡ concat written ++ (frame ++ frames)
  regrouped written frame frames =
      rw (concat-append written (frame ∷ []), append-nil frame)
        (append_assoc (concat written) frame frames)

  -- What was written is what `encode_all` makes.
  send_all-encode_all :
      (ms : List M) (written written' : List (List ℕ))
      → send_all (encode parse_json max_frame_bytes encode_json) ms written ≡ ok written'
      → (frames : List ℕ) × (encode_all encode_json parse_json max_frame_bytes ms ≡ ok frames)
        × (concat written' ≡ concat written ++ frames)
  unfolding send_all send encode_all
  send_all-encode_all [] written written' e =
      let same : written ≡ written' = ground arith in
      ([], refl, ap concat (sym same) ∙ sym (append-nil (concat written)))
  send_all-encode_all (m ∷ ms) written written' e =
      elim (Result-cases (encode parse_json max_frame_bytes encode_json m)) [
        | inl (frame, f) ↦
            let e' = rw f at e in
            let (frames, g, joined) = send_all-encode_all ms (written ++ frame ∷ []) written' e' in
            (frame ++ frames, rw (f, g) refl, joined ∙ regrouped written frame frames)
        | inr (failure, f) ↦ let e' = rw f at e in ground arith
      ]

  on_chunk-delivers :
      (l : IsLines) (input : List ℕ) (s : Channel FrameBuffer M FrameError) (b' : FrameBuffer)
      (ms : List M)
      → s.subscribed ≡ true
      → push parse_json max_frame_bytes input s.decoder ≡ ok (ms, b')
      → step d (chunk input) s
        ≡ record s { decoder = b'; delivered = s.delivered ++ calls s.listeners ms }
  unfolding step on_chunk
  on_chunk-delivers l input s b' ms o e =
      let p = l.pushes input s.decoder b' ms e in simp (o, p) refl

  run-delivers :
      (l : IsLines) (chunks : List (List ℕ)) (s : Channel FrameBuffer M FrameError)
      (b' : FrameBuffer) (ms : List M)
      → s.subscribed ≡ true
      → push_all parse_json max_frame_bytes chunks s.decoder ≡ ok (ms, b')
      → (run d (map chunk chunks) s).delivered ≡ s.delivered ++ calls s.listeners ms
  unfolding run push_all
  run-delivers l [] s b' ms o e =
      let none_left : ms ≡ [] = ground arith in rw none_left (sym (append-nil s.delivered))
  run-delivers l (input ∷ chunks) s b' ms o e =
      elim (Result-cases (push parse_json max_frame_bytes input s.decoder)) [
        | inl ((now, b), f) ↦ elim (Result-cases (push_all parse_json max_frame_bytes chunks b)) [
          | inl ((later, b2), g) ↦
              let e' : ok (now ++ later, b2) ≡ ok (ms, b') = rw (f, g) at e in
              let split : ms ≡ now ++ later = ground arith in
              let next = record s {
                decoder = b;
                delivered = s.delivered ++ calls s.listeners now;
              } in
              ap (λ t. (run d (map chunk chunks) t).delivered)
                (on_chunk-delivers l input s b now o f)
              ∙ run-delivers l chunks next b2 later o g
              ∙ append_assoc s.delivered (calls s.listeners now) (calls s.listeners later)
              ∙ rw (split, calls-append s.listeners now later) refl
          | inr (failure, g) ↦ let e' = rw (f, g) at e in ground arith
        ]
        | inr (failure, f) ↦ let e' = rw f at e in ground arith
      ]

  -- A channel that is subscribed to its byte channel, with a new decoder of JSON lines, delivers to
  -- each of its listeners, in their order, the messages that another channel sent, and no more,
  -- however the bytes that this one wrote are cut into chunks. The JSON coding obeys its laws.
  pub run-delivers_sent :
      (laws : JsonLaws encode_json parse_json) (l : IsLines) (s : Channel FrameBuffer M FrameError)
      (sent : List M) (written chunks : List (List ℕ))
      → s.subscribed ≡ true
      → s.decoder ≡ empty_buffer
      → send_all (encode parse_json max_frame_bytes encode_json) sent [] ≡ ok written
      → concat chunks ≡ concat written
      → (run d (map chunk chunks) s).delivered ≡ s.delivered ++ calls s.listeners sent
  run-delivers_sent laws l s sent written chunks o n e cut =
      let (frames, g, joined) = send_all-encode_all sent [] written e in
      let whole =
        push_all-encode_all encode_json parse_json max_frame_bytes laws sent frames chunks g
          (cut ∙ joined) in
      elim (Result-cases (push_all parse_json max_frame_bytes chunks empty_buffer)) [
        | inl ((ms, b), f) ↦
            let whole' = rw f at whole in
            let all_sent : ms ≡ sent = ground arith in
            run-delivers l chunks s b ms o (rw n f) ∙ rw all_sent refl
        | inr (failure, f) ↦ let whole' = rw f at whole in ground arith
      ]
