-- ===== src/Transport/WebSocket/Ordered.antt =====
-- The messages of a socket reach a listener in the order of its frames, whenever they are decoded.
use mathlib.Core.List.{map-append, append_assoc, append-nil}
use cavi_api_client.Base.{
  ℕ, ◌≡◌, refl, ◌∙◌, ap, sym, true, false, Option, none, some, List, [], ◌∷◌, ◌++◌, map, arith, All,
  All-append, is_some,
}
use cavi_api_client.Transport.WebSocket.{Connection, Config, exceeds_limit}
use cavi_api_client.Transport.WebSocket.Events.{
  Event, on_message, deliver, decode_next, step, run, frame_arrived, frame_decoded,
}

-- What happens to a socket while it lives: a frame arrives, or the oldest one has been decoded.
pub data Traffic (D : Type 0) : Type 0 where
  arrives : D → Traffic D
  decoded : Traffic D

pub events : {D V : Type 0} → ℕ → List (Traffic D) → List (Event D V)
events i [] = []
events i (arrives d ∷ ts) = frame_arrived i d ∷ events i ts
events i (decoded ∷ ts) = frame_decoded i ∷ events i ts

unfoldable pub arrived : {D : Type 0} → List (Traffic D) → List D
arrived [] = []
arrived (arrives d ∷ ts) = d ∷ arrived ts
arrived (decoded ∷ ts) = arrived ts

-- The messages that the listeners were called with, oldest first.
pub messages : {V : Type 0} → List (ℕ × V) → List V
messages [] = []
messages ((l, v) ∷ rest) = messages rest ++ v ∷ []

abbrev pub Decodes : {D V : Type 0} → Config D V → D → Type 0
Decodes c d =
    (exceeds_limit (c.size_of d) (c.max_frame_bytes) ≡ false) × (is_some (c.decode_frame d) ≡ true)

-- Open, on socket `i`, with one listener.
pub record Live {D V : Type 0} (i : ℕ) (l : ℕ) (s : Connection D V) : Type 0 where
  pub going : s.terminal ≡ false
  pub heard : s.listening ≡ true
  pub current : s.socket ≡ some i
  pub one_listener : s.listeners ≡ l ∷ []

some-is_some : {A : Type 0} (o : Option A) → is_some o ≡ true → (a : A) × (o ≡ some a)
some-is_some none h = cc
some-is_some (some a) h = (a, refl)

module _ {D V : Type 0} (c : Config D V) (i l : ℕ) where
  abbrev outcome : Connection D V → List (Option V)
  outcome s = map some (messages (s.received)) ++ map (c.decode_frame) (s.frames)

  arrive_lem :
      (d : D) (s : Connection D V)
      → Live i l s
      → Decodes c d
      → Live i l (on_message c i d s)
        × ((on_message c i d s).frames ≡ s.frames ++ d ∷ [])
        × ((on_message c i d s).received ≡ s.received)
  unfolding on_message
  arrive_lem d s v h = ground arith

  decode_some :
      (d : D) (ds : List D) (m : V) (s : Connection D V)
      → Live i l s
      → c.decode_frame d ≡ some m
      → decode_next c i (d ∷ ds) s ≡ record s { frames = ds; received = (l, m) ∷ s.received }
  unfolding decode_next deliver
  decode_some d ds m s v e = ground arith

  Live-taken :
      (ds : List D) (r : List (ℕ × V)) (s : Connection D V)
      → Live i l s
      → Live i l (record s { frames = ds; received = r })
  Live-taken ds r s v = ground arith

  outcome-taken :
      (d : D) (ds : List D) (m : V) (r : List (ℕ × V))
      → c.decode_frame d ≡ some m
      → map some (messages ((l, m) ∷ r)) ++ map (c.decode_frame) ds
        ≡ map some (messages r) ++ map (c.decode_frame) (d ∷ ds)
  unfolding messages
  outcome-taken d ds m r e = simp (map-append, append_assoc, e)

  decode_lem :
      (ds : List D) (s : Connection D V)
      → Live i l s
      → s.frames ≡ ds
      → All (Decodes c) ds
      → Live i l (decode_next c i ds s)
        × All (Decodes c) ((decode_next c i ds s).frames)
        × (outcome (decode_next c i ds s) ≡ outcome s)
  unfolding decode_next
  decode_lem [] s v e h = (v, rw e tt, refl)
  decode_lem (d ∷ ds) s v e h =
      let (m, found) = some-is_some (c.decode_frame d) (h.0.1) in
      rw (decode_some d ds m s v found) (
        Live-taken ds ((l, m) ∷ s.received) s v,
        h.1,
        outcome-taken d ds m (s.received) found
            ∙ ap (λ fs. map some (messages (s.received)) ++ map (c.decode_frame) fs) (sym e),
      )

  run-outcome :
      (ts : List (Traffic D)) (s : Connection D V)
      → Live i l s
      → All (Decodes c) (s.frames)
      → All (Decodes c) (arrived ts)
      → outcome (run c (events i ts) s) ≡ outcome s ++ map (c.decode_frame) (arrived ts)
  unfolding run events arrived step
  run-outcome [] s v hf ha = sym (append-nil (outcome s))
  run-outcome (decoded ∷ ts) s v hf ha =
      let (live, fine, same) = decode_lem (s.frames) s v refl hf in
      run-outcome ts (decode_next c i (s.frames) s) live fine ha
      ∙ ap (λ o. o ++ map (c.decode_frame) (arrived ts)) same
  run-outcome (arrives d ∷ ts) s v hf ha =
      let (live, queued, same) = arrive_lem d s v (ha.0) in
      let fine : All (Decodes c) ((on_message c i d s).frames) =
        rw queued (All-append (Decodes c) (s.frames) (d ∷ []) hf (ha.0, tt)) in
      run-outcome ts (on_message c i d s) live fine (ha.1)
      ∙ rw (queued, same) (simp (map-append, append_assoc))

-- On an open connection with one listener, while frames of its socket arrive and are decoded at any
-- time in between, all within the limit and decodable: the messages that the listener has had, then
-- the frames still queued, decode to the earlier ones of both, then the frames that arrived, in
-- that order. No frame is lost, repeated or overtaken.
pub run-messages :
    {D V : Type 0} (c : Config D V) (i l : ℕ) (traffic : List (Traffic D)) (s : Connection D V)
    → Live i l s
    → All (Decodes c) (s.frames)
    → All (Decodes c) (arrived traffic)
    → map some (messages ((run c (events i traffic) s).received))
        ++ map (c.decode_frame) ((run c (events i traffic) s).frames)
      ≡ (map some (messages (s.received)) ++ map (c.decode_frame) (s.frames))
        ++ map (c.decode_frame) (arrived traffic)
run-messages c i l traffic s v hf ha = run-outcome c i l traffic s v hf ha
