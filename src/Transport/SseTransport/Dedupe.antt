-- ===== src/Transport/SseTransport/Dedupe.antt =====
-- The window of ids: which messages a subscription hands on.
use mathlib.Core.List.{append-nil}
use cavi_api_client.Base.{
  ℕ, zero, suc, ◌-◌, ◌≤◌, ◌≡◌, refl, ◌∙◌, ap, sym, Bool, true, false, Option, none, some, List, [],
  ◌∷◌, ◌++◌, if◌then◌else◌, ltb, leb, length, drop, length-append, arith, Bool-cases, inl, inr,
}
use cavi_api_client.Base.Number.{Number}
use cavi_api_client.Base.Text.{Text, is_empty}
use cavi_api_client.Transport.SseStream.{SseMessage}
use cavi_api_client.Transport.SseTransport.{
  Session, new_session, has_seen, evict_ids, add_id, hand_on, identified, by_id, handle_message,
  after_messages, note_retry,
}

-- The last ids of a list, as many as there is room for.
abbrev pub last_of : {A : Type 0} → ℕ → List A → List A
last_of n xs = drop (length xs - n) xs

-- The id by which a message is told apart.
abbrev pub identity : Option Text → List Text
identity none = []
identity (some id) = if is_empty id then [] else id ∷ []

-- The ids of messages of which the latest comes first, the oldest id first.
unfoldable pub ids_of : List SseMessage → List Text
ids_of [] = []
ids_of (m ∷ ms) = ids_of ms ++ identity (m.id)

-- No message is handed on whose id one of the `n` identified messages before it has.
unfoldable pub Fresh : ℕ → List SseMessage → Type 0
Fresh n [] = Unit {0}
Fresh n (m ∷ ms) =
    Fresh n ms
    × ((id : Text) → identity (m.id) ≡ id ∷ [] → has_seen id (last_of n (ids_of ms)) ≡ false)

-- The cursor that goes with the messages handed on, after the first one given.
abbrev pub cursor_with : List Text → Option Text → Option Text
cursor_with [] before = before
cursor_with (id ∷ ids) before = some id

unfoldable pub cursor_after : Option Text → List SseMessage → Option Text
cursor_after c [] = c
cursor_after c (m ∷ ms) = cursor_with (identity (m.id)) (cursor_after c ms)

module _ {A : Type 0} where
  last-whole : (n : ℕ) (xs : List A) → length xs ≤ n → last_of n xs ≡ xs
  last-whole n xs h = let e : length xs - n ≡ 0 = omega arith in rw e

  last-cons : (n : ℕ) (x : A) (xs : List A) → n ≤ length xs → last_of n (x ∷ xs) ≡ last_of n xs
  last-cons n x xs h = let e : suc (length xs) - n ≡ suc (length xs - n) = omega arith in rw e

  last-snoc :
      (n : ℕ) (xs : List A) (y : A) → last_of n (last_of n xs ++ y ∷ []) ≡ last_of n (xs ++ y ∷ [])
  last-snoc n [] y = ap (λ ys. last_of n (ys ++ y ∷ [])) (last-whole n [] (omega arith))
  last-snoc n (x ∷ xs) y = elim (Bool-cases (leb n (length xs))) [
    | inl long ↦
        let more = length-append xs (y ∷ []) in
        ap (λ ys. last_of n (ys ++ y ∷ [])) (last-cons n x xs (ground arith))
        ∙ last-snoc n xs y
        ∙ sym (last-cons n x (xs ++ y ∷ []) (ground arith))
    | inr short ↦ ap (λ ys. last_of n (ys ++ y ∷ [])) (last-whole n (x ∷ xs) (ground arith))
  ]

  last_zero : (xs : List A) → last_of 0 xs ≡ []
  last_zero [] = last-whole 0 [] (omega arith)
  last_zero (x ∷ xs) = last-cons 0 x xs (omega arith) ∙ last_zero xs

evict-eq-last : (n : ℕ) (xs : List Text) → evict_ids n xs ≡ last_of n xs
unfolding evict_ids
evict-eq-last n [] = sym (last-whole n [] (omega arith))
evict-eq-last n (x ∷ xs) = elim (Bool-cases (ltb n (suc (length xs)))) [
  | inl long ↦ rw long (evict-eq-last n xs ∙ sym (last-cons n x xs (ground arith)))
  | inr short ↦ rw short (sym (last-whole n (x ∷ xs) (ground arith)))
]

-- Adding an id to the window of some ids is the window of those and the id.
add-last :
    (n : ℕ) (ids : List Text) (id : Text) → add_id n id (last_of n ids) ≡ last_of n (ids ++ id ∷ [])
unfolding add_id
add-last zero ids id = last_zero ids ∙ sym (last_zero (ids ++ id ∷ []))
add-last (suc n) ids id =
    evict-eq-last (suc n) (last_of (suc n) ids ++ id ∷ []) ∙ last-snoc (suc n) ids id

-- The window holds the ids of the messages handed on last, and the cursor the last of all.
pub record Windowed (n : ℕ) (first : Option Text) (s : Session) : Type 0 where
  pub window : s.seen_ids ≡ last_of n (ids_of (s.handed_on))
  pub fresh : Fresh n (s.handed_on)
  pub resumes : s.cursor ≡ cursor_after first (s.handed_on)

nothing_is : {id : Text} {P : Type 0} → ◌≡◌ {A = List Text} [] (id ∷ []) → P
nothing_is h = cc

only_id : {id id' : Text} → ◌≡◌ {A = List Text} (id ∷ []) (id' ∷ []) → id ≡ id'
only_id h = cc

hand_on-Windowed :
    (n : ℕ) (first : Option Text) (m : SseMessage) (s : Session)
    → identity (m.id) ≡ []
    → Windowed n first s
    → Windowed n first (hand_on m s)
unfolding ids_of Fresh cursor_after
hand_on-Windowed n first m s e w = record {
  window = rw (e, append-nil (ids_of (s.handed_on))) (w.window);
  fresh = (w.fresh, λ id h. nothing_is (sym e ∙ h));
  resumes = rw e (w.resumes);
}

identified-Windowed :
    (n : ℕ) (first : Option Text) (m : SseMessage) (id : Text) (seen : Bool) (s : Session)
    → identity (m.id) ≡ id ∷ []
    → has_seen id (s.seen_ids) ≡ seen
    → Windowed n first s
    → Windowed n first (identified n m id seen s)
unfolding identified ids_of Fresh cursor_after
identified-Windowed n first m id true s e h w = w
identified-Windowed n first m id false s e h w = record {
  window = rw (e, w.window) (add-last n (ids_of (s.handed_on)) id);
  fresh = (w.fresh, λ id' h'. let same = only_id (sym e ∙ h') in rw (← same, ← w.window) h);
  resumes = rw e refl;
}

by_id-Windowed :
    (n : ℕ) (first : Option Text) (m : SseMessage) (id : Option Text) (s : Session)
    → m.id ≡ id
    → Windowed n first s
    → Windowed n first (by_id n m id s)
unfolding by_id
by_id-Windowed n first m none s e w = hand_on-Windowed n first m s (ap identity e) w
by_id-Windowed n first m (some id) s e w = elim (Bool-cases (is_empty id)) [
  | inl empty ↦ rw empty (hand_on-Windowed n first m s (ap identity e ∙ rw empty) w)
  | inr named ↦ rw named (
      identified-Windowed n first m id (has_seen id (s.seen_ids)) s (ap identity e ∙ rw named) refl
        w)
]

noted-Windowed :
    (n : ℕ) (first : Option Text) (retry : Option Number) (s : Session)
    → Windowed n first s
    → Windowed n first (record s { server_retry_ms = retry })
noted-Windowed n first retry s w = record {
  window = w.window;
  fresh = w.fresh;
  resumes = w.resumes;
}

handle-Windowed :
    (n : ℕ) (first : Option Text) (m : SseMessage) (s : Session)
    → Windowed n first s
    → Windowed n first (handle_message n m s)
unfolding handle_message
handle-Windowed n first m s w =
    by_id-Windowed n first m (m.id) _ refl
      (noted-Windowed n first (note_retry (m.retry) (s.server_retry_ms)) s w)

pub after-Windowed :
    (n : ℕ) (first : Option Text) (s : Session) (ms : List SseMessage)
    → Windowed n first s
    → Windowed n first (after_messages n s ms)
unfolding after_messages
after-Windowed n first s [] w = w
after-Windowed n first s (m ∷ ms) w =
    handle-Windowed n first m (after_messages n s ms) (after-Windowed n first s ms w)

pub new-Windowed : (n : ℕ) (first : Option Text) → Windowed n first (new_session first)
unfolding ids_of Fresh cursor_after
new-Windowed n first = record {
  window = sym (last-whole n [] (omega arith));
  fresh = tt;
  resumes = refl;
}
