-- ===== src/Transport/Channel/Counts.antt =====
-- How often a listener is in a set of a channel, and how often it was told.
use cavi_api_client.Base.{
  ℕ, ◌+◌, ◌≡◌, refl, ◌∙◌, false, Option, List, [], ◌∷◌, ◌++◌, map, if◌then◌else◌, ◌==◌, arith,
  Bool-cases, inl, inr, ◌≢◌,
}
use cavi_api_client.Transport.Channel.{is_member, add, delete}

abbrev pub count : ℕ → List ℕ → ℕ
count k [] = 0
count k (x ∷ xs) = (if x == k then 1 else 0) + count k xs

abbrev pub tells {ℓ} : {E : Type ℓ} → ℕ → List (ℕ × Option E) → ℕ
tells k [] = 0
tells k (t ∷ ts) = (if t.0 == k then 1 else 0) + tells k ts

pub tells-append :
    {E : Type 0} (k : ℕ) (ts us : List (ℕ × Option E))
    → tells k (ts ++ us) ≡ tells k ts + tells k us
tells-append k [] us = omega arith
tells-append k (t ∷ ts) us = omega (arith, tells-append k ts us)

pub tells-map :
    {E : Type 0} (k : ℕ) (e : Option E) (xs : List ℕ) → tells k (map (λ x. (x, e)) xs) ≡ count k xs
tells-map k e [] = refl
tells-map k e (x ∷ xs) = omega (arith, tells-map k e xs)

pub count-append : (k : ℕ) (xs ys : List ℕ) → count k (xs ++ ys) ≡ count k xs + count k ys
count-append k [] ys = omega arith
count-append k (x ∷ xs) ys = omega (arith, count-append k xs ys)

pub count-delete : (k x : ℕ) (xs : List ℕ) → k ≢ x → count k (delete x xs) ≡ count k xs
count-delete k x [] h = refl
count-delete k x (y ∷ ys) h = elim (Bool-cases (y == x)) [
  | inl e ↦ rw e (
      let other : (y == k) ≡ false = ground arith in
      rw other (omega (arith, count-delete k x ys h)))
  | inr e ↦ rw e (omega (arith, count-delete k x ys h))
]

pub count-add : (k x : ℕ) (xs : List ℕ) → k ≢ x → count k (add x xs) ≡ count k xs
count-add k x xs h = elim (Bool-cases (is_member x xs)) [
  | inl e ↦ rw e refl
  | inr e ↦ rw e (
      let other : (x == k) ≡ false = ground arith in
      let more = count-append k xs (x ∷ []) in rw other at more ∙ omega arith)
]

pub count-is_member : (k : ℕ) (xs : List ℕ) → count k xs ≡ 0 → is_member k xs ≡ false
count-is_member k [] h = refl
count-is_member k (x ∷ xs) h = elim (Bool-cases (x == k)) [
  | inl e ↦ let h' = rw e at h in ground arith
  | inr e ↦ let h' = rw e at h in rw e (count-is_member k xs (omega (arith, h')))
]
