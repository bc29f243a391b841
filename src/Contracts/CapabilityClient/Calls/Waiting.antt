-- ===== src/Contracts/CapabilityClient/Calls/Waiting.antt =====
-- Which calls wait for a backend, and what the operations of a memo keep.
use cavi_api_client.Base.{
  ℕ, zero, suc, ◌≤◌, ◌≡◌, ◌≢◌, ◌⊎◌, refl, sym, ◌∙◌, ap, inl, inr, Bool, true, false, ◌&&◌, Option,
  none, some, List, [], ◌∷◌, ◌++◌, any, get_elem?, set, ◌==◌, Result, ok, err, arith, Option-cases,
}
use cavi_api_client.Errors.{Failure}
use cavi_api_client.Contracts.CapabilityClient.Memo.{Memo, join, settle, forget, result_of}
use cavi_api_client.Contracts.CapabilityClient.Memo.Single.{get_elem?-set}
use cavi_api_client.Contracts.CapabilityClient.Calls.{
  Slot, control_plane, kanban, teams, media, wiki, agent_config, number_of, same_slot, Stage,
  resolving, Entry,
}

pub any-append {ℓ} :
    {A : Type ℓ} (f : A → Bool) (xs ys : List A) → any f xs ≡ true → any f (xs ++ ys) ≡ true
any-append f [] ys h = ground arith
any-append f (x ∷ xs) ys h = ground (arith, any-append f xs ys)

-- A replaced element that did not count, and one that counts now.
pub any-set {ℓ} :
    {A : Type ℓ} (f : A → Bool) (xs : List A) (i : ℕ) (old new : A)
    → get_elem? xs i ≡ some old
    → f old ≡ false
    → any f xs ≡ true
    → any f (set xs i new) ≡ true
any-set f [] i old new e h a = ground arith
any-set f (x ∷ xs) zero old new e h a =
    let same : x ≡ old = ground arith in let h' = ap f same in ground arith
any-set f (x ∷ xs) (suc i) old new e h a = ground (arith, any-set f xs i old new e h)

pub any-set_new {ℓ} :
    {A : Type ℓ} (f : A → Bool) (xs : List A) (i : ℕ) (old new : A)
    → get_elem? xs i ≡ some old
    → f new ≡ true
    → any f (set xs i new) ≡ true
any-set_new f [] i old new e h = ground arith
any-set_new f (x ∷ xs) zero old new e h = ground arith
any-set_new f (x ∷ xs) (suc i) old new e h = ground (arith, any-set_new f xs i old new e h)

pub slot_of : ℕ → Slot
slot_of zero = control_plane
slot_of (suc zero) = kanban
slot_of (suc (suc zero)) = teams
slot_of (suc (suc (suc zero))) = media
slot_of (suc (suc (suc (suc zero)))) = wiki
slot_of (suc (suc (suc (suc (suc n))))) = agent_config

pub slot_of-number_of : (k : Slot) → slot_of (number_of k) ≡ k
unfolding slot_of
slot_of-number_of control_plane = refl
slot_of-number_of kanban = refl
slot_of-number_of teams = refl
slot_of-number_of media = refl
slot_of-number_of wiki = refl
slot_of-number_of agent_config = refl

pub eq_of_same_slot : (j k : Slot) → same_slot j k ≡ true → j ≡ k
eq_of_same_slot j k h =
    let same : number_of j ≡ number_of k = ground arith in
    sym (slot_of-number_of j) ∙ ap slot_of same ∙ slot_of-number_of k

-- A call waits for promise `p` of backend `k`.
abbrev pub waits : {V : Type 0} → Slot → ℕ → Stage V → Bool
waits k p (resolving j q) = same_slot j k && q == p
waits k p _ = false

pub join-current : {T : Type 0} (m : Memo T) → ((join m).1).current ≡ some ((join m).0)
unfolding join
join-current m = elim (Option-cases m.current) [
  | inl e ↦ rw (join, e) refl
  | inr (p, e) ↦ rw (join, e) refl
]

pub forget-current :
    {T : Type 0} (m : Memo T) (p q : ℕ)
    → (forget p m).current ≡ some q
    → (m.current ≡ some q) × (p == q ≡ false)
unfolding forget
forget-current m p q h = ground arith

pub forget-promises : {T : Type 0} (m : Memo T) (p : ℕ) → (forget p m).promises ≡ m.promises
unfolding forget
forget-promises m p = ground arith

pub settle-current :
    {T : Type 0} (m : Memo T) (p q : ℕ) (r : Result Failure T)
    → (settle p r m).current ≡ some q
    → m.current ≡ some q
unfolding settle
settle-current m p q r h = ground arith

-- What has come stays.
pub settle-ok :
    {T : Type 0} (m : Memo T) (p q : ℕ) (r : Result Failure T) (t : T)
    → result_of q m ≡ some (ok t)
    → result_of q (settle p r m) ≡ some (ok t)
unfolding settle
settle-ok m p q r t h = ground (arith, get_elem?-set m.promises p q (some r))

-- A call that is not at a backend waits for none.
abbrev pub Elsewhere : {V : Type 0} → Entry V → Type 0
Elsewhere e = (k : Slot) (p : ℕ) → waits k p e.stage ≡ false

-- How many promises are pending.
abbrev pub pending : {R : Type 0} → List (Option R) → ℕ
pending [] = 0
pending (none ∷ xs) = suc (pending xs)
pending (some r ∷ xs) = pending xs

pub no_pending :
    {R : Type 0} (xs : List (Option R)) → ((p : ℕ) → get_elem? xs p ≢ some none) → pending xs ≡ 0
no_pending [] h = refl
no_pending (none ∷ xs) h = absurd (h 0 refl)
no_pending (some r ∷ xs) h = no_pending xs (λ p. h (suc p))

pub pending-le :
    {R : Type 0} (xs : List (Option R))
    → ((p q : ℕ) → get_elem? xs p ≡ some none → get_elem? xs q ≡ some none → p ≡ q)
    → pending xs ≤ 1
pending-le [] h = omega arith
pending-le (none ∷ xs) h =
    let rest =
      no_pending xs (λ p e. let same = h 0 (suc p) refl e in absurd (omega (arith, same))) in
    omega (arith, rest)
pending-le (some r ∷ xs) h =
    pending-le xs (λ p q hp hq. let same = h (suc p) (suc q) hp hq in omega (arith, same))

-- The promise that a memo keeps has brought the backend, or a call waits for it.
abbrev pub Kept : {T V : Type 0} → Memo T → List (Entry V) → Slot → Option ℕ → Type 0
Kept m calls k none = Unit
Kept {T} m calls k (some p) =
    ((t : T) × (result_of p m ≡ some (ok t))) ⊎ (any (λ e. waits k p (e.stage)) calls ≡ true)

pub came_or_not :
    {T : Type 0} (r : Option (Result Failure T))
    → ((t : T) × (r ≡ some (ok t))) ⊎ ((t : T) → r ≢ some (ok t))
came_or_not none = inr (λ t e. ground arith)
came_or_not (some (ok t)) = inl (t, refl)
came_or_not (some (err f)) = inr (λ t e. ground arith)
