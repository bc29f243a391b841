-- ===== src/Runtime/SynchronousRunStore/Recency.antt =====
-- The cache against a history of the remembered runs: it holds the runs of the last distinct ids.
use mathlib.Core.List.{reverse, reverse-append, reverse-cons, append-nil}
use cavi_api_client.Base.{
  ℕ, zero, suc, ◌≤◌, String, str_eq, eq_iff, ◌≡◌, refl, ◌∙◌, ap, sym, false, if◌then◌else◌, List,
  [], ◌∷◌, ◌++◌, length, length-append, take, arith, Bool-cases, inl, inr, ltb,
}
use cavi_api_client.Runtime.Run.{RunStatus}
use cavi_api_client.Runtime.SynchronousRunStore.{Entries, delete, evict, remember}
use cavi_api_client.Runtime.SynchronousRunStore.Invariant.{
  Absent, Distinct, delete-Absent_self, delete-Distinct, delete_of_Absent, length-delete-le,
  evict_lem, remember_lem, Absent-snoc, Distinct-snoc,
}

-- What a new cache holds after the runs of a history, the latest first, have been remembered.
unfoldable pub remember_all : ℕ → List RunStatus → Entries
remember_all capacity [] = []
remember_all capacity (s ∷ history) = remember capacity s (remember_all capacity history)

-- The last run of each id, the latest first.
unfoldable pub recent : List RunStatus → Entries
recent [] = []
recent (s ∷ history) =
    let rest = recent history in
    if str_eq s.run_id "" then rest else (s.run_id, s) ∷ delete s.run_id rest

pub recent-Distinct : (h : List RunStatus) → Distinct (recent h)
unfolding recent
recent-Distinct [] = tt
recent-Distinct (s ∷ h) = elim (Bool-cases (str_eq s.run_id "")) [
  | inl e ↦ rw e (recent-Distinct h)
  | inr e ↦
      rw e (delete-Absent_self s.run_id (recent h), delete-Distinct s.run_id _ (recent-Distinct h))
]

delete-append : (k : String) (xs ys : Entries) → delete k (xs ++ ys) ≡ delete k xs ++ delete k ys
unfolding delete
delete-append k [] ys = refl
delete-append k (x ∷ xs) ys = ground (arith, delete-append k xs ys)

delete-reverse : (k : String) (xs : Entries) → delete k (reverse xs) ≡ reverse (delete k xs)
delete-reverse k [] = unfold delete in refl
delete-reverse k (x ∷ xs) =
    rw (reverse-cons x xs, delete-append, delete-reverse k xs)
      (elim (Bool-cases (str_eq x.0 k)) [
        | inl e ↦ unfold delete in rw e (append-nil _)
        | inr e ↦ unfold delete in rw e (sym (reverse-cons x (delete k xs)))
      ])

Absent-take : (k : String) (n : ℕ) (es : Entries) → Absent k es → Absent k (take n es)
Absent-take k zero es h = tt
Absent-take k (suc n) [] h = tt
Absent-take k (suc n) (e ∷ es) h = (h.0, Absent-take k n es h.1)

take-take : (n : ℕ) (es : Entries) → take n (take n es) ≡ take n es
take-take zero es = refl
take-take (suc n) [] = refl
take-take (suc n) (e ∷ es) = ap (λ r. e ∷ r) (take-take n es)

-- An entry further down than the capacity does not come back when another one goes.
take-delete :
    (k : String) (c : ℕ) (es : Entries)
    → Distinct es
    → take c (delete k (take (suc c) es)) ≡ take c (delete k es)
unfolding delete
take-delete k zero es h = refl
take-delete k (suc c) [] h = refl
take-delete k (suc c) (e ∷ es) h = elim (Bool-cases (str_eq e.0 k)) [
  | inl p ↦
      let a : Absent k es = rw ((eq_iff e.0 k).0 p) at h.0 in
      rw
        (
          p,
          delete_of_Absent k es a,
          delete_of_Absent k (take (suc c) es) (Absent-take k (suc c) es a),
        )
        (take-take (suc c) es)
  | inr p ↦ rw p (ap (λ r. e ∷ r) (take-delete k c es h.1))
]

length-take-le : (n : ℕ) (es : Entries) → length (take n es) ≤ n
length-take-le zero es = omega arith
length-take-le (suc n) [] = omega arith
length-take-le (suc n) (e ∷ es) = omega (arith, length-take-le n es)

take_of_le : (n : ℕ) (es : Entries) → length es ≤ n → take n es ≡ es
take_of_le zero [] h = refl
take_of_le zero (e ∷ es) h = absurd (omega arith)
take_of_le (suc n) [] h = refl
take_of_le (suc n) (e ∷ es) h = ap (λ r. e ∷ r) (take_of_le n es (omega arith))

last_after :
    (n : ℕ) (es : Entries)
    → length es ≡ suc n
    → (z : String × RunStatus) × (es ≡ take n es ++ z ∷ [])
last_after zero [] h = absurd (omega arith)
last_after zero (e ∷ []) h = (e, refl)
last_after zero (e ∷ f ∷ es) h = absurd (omega arith)
last_after (suc n) [] h = absurd (omega arith)
last_after (suc n) (e ∷ es) h = let (z, p) = last_after n es (omega arith) in (z, ap (λ r. e ∷ r) p)

Distinct-take : (n : ℕ) (es : Entries) → Distinct es → Distinct (take n es)
Distinct-take zero es h = tt
Distinct-take (suc n) [] h = tt
Distinct-take (suc n) (e ∷ es) h = (Absent-take e.0 n es h.0, Distinct-take n es h.1)

Absent-reverse : (k : String) (es : Entries) → Absent k es → Absent k (reverse es)
Absent-reverse k [] h = tt
Absent-reverse k (e ∷ es) h =
    rw (reverse-cons e es) (Absent-snoc k e.0 e.1 (reverse es) (Absent-reverse k es h.1) h.0)

Distinct-reverse : (es : Entries) → Distinct es → Distinct (reverse es)
Distinct-reverse [] h = tt
Distinct-reverse (e ∷ es) h =
    rw (reverse-cons e es)
      (Distinct-snoc e.0 e.1 (reverse es) (Distinct-reverse es h.1) (Absent-reverse e.0 es h.0))

length-reverse : (es : Entries) → length (reverse es) ≡ length es
length-reverse [] = refl
length-reverse (e ∷ es) =
    rw (reverse-cons e es) (omega (arith, length-append (reverse es) (e ∷ []), length-reverse es))

length-take_of_le : (n : ℕ) (es : Entries) → n ≤ length es → length (take n es) ≡ n
length-take_of_le zero es h = refl
length-take_of_le (suc n) [] h = absurd (omega arith)
length-take_of_le (suc n) (e ∷ es) h = ap suc (length-take_of_le n es (omega arith))

evict_room : (c : ℕ) (es : Entries) → Distinct es → length es ≤ c → evict c es ≡ es
evict_room c [] d h = unfold evict in refl
evict_room c (e ∷ es) d h = rw (evict_lem c e es d) (ground arith)

evict_full :
    (c : ℕ) (e : String × RunStatus) (es : Entries)
    → Distinct (e ∷ es)
    → length es ≡ c
    → evict c (e ∷ es) ≡ es
evict_full c e es d h = rw (evict_lem c e es d) (ground arith)

-- Eviction from a list in insertion order keeps the latest entries.
evict-reverse :
    (c : ℕ) (es : Entries)
    → Distinct es
    → length es ≤ suc c
    → evict c (reverse es) ≡ reverse (take c es)
evict-reverse c es d h = elim (Bool-cases (ltb c (length es))) [
  | inr room ↦
      let l : length es ≤ c = ground arith in
      rw (take_of_le c es l)
        (evict_room c (reverse es) (Distinct-reverse es d) (omega (arith, length-reverse es)))
  | inl full ↦
      let l : length es ≡ suc c = ground arith in
      let (z, p) = last_after c es l in
      let q : reverse es ≡ z ∷ reverse (take c es) =
        ap reverse p ∙ reverse-append (take c es) (z ∷ []) in
      let d' : Distinct (z ∷ reverse (take c es)) = rw q at (Distinct-reverse es d) in
      rw q (
        evict_full c z (reverse (take c es)) d'
          (length-reverse (take c es) ∙ length-take_of_le c es (omega arith)))
]

take-cons-delete :
    (c : ℕ) (x : String × RunStatus) (es : Entries)
    → Distinct es
    → take c (x ∷ delete x.0 (take c es)) ≡ take c (x ∷ delete x.0 es)
take-cons-delete zero x es d = refl
take-cons-delete (suc c) x es d = ap (λ r. x ∷ r) (take-delete x.0 c es d)

remember-reverse :
    (c : ℕ) (s : RunStatus) (es : Entries)
    → Distinct es
    → str_eq s.run_id "" ≡ false
    → remember c s (reverse (take c es)) ≡ reverse (take c ((s.run_id, s) ∷ delete s.run_id es))
remember-reverse c s es d p =
    let x : String × RunStatus = (s.run_id, s) in
    let kept = delete s.run_id (take c es) in
    let d' : Distinct (x ∷ kept) = (
      delete-Absent_self s.run_id (take c es),
      delete-Distinct s.run_id (take c es) (Distinct-take c es d),
    ) in
    let l : length (x ∷ kept) ≤ suc c =
      omega (arith, length-delete-le s.run_id (take c es), length-take-le c es) in
    rw (remember_lem, p, delete-reverse, ← reverse-cons x kept, evict-reverse c (x ∷ kept) d' l)
      (ap reverse (take-cons-delete c x es d))

-- A cache holds the latest runs of the last ids that it was given, as many as it has room for, in
-- the order in which they came.
pub remember_all_lem :
    (capacity : ℕ) (history : List RunStatus)
    → remember_all capacity history ≡ reverse (take capacity (recent history))
unfolding remember_all recent
remember_all_lem zero [] = refl
remember_all_lem (suc c) [] = refl
remember_all_lem c (s ∷ h) = elim (Bool-cases (str_eq s.run_id "")) [
  | inl p ↦ rw (p, remember_lem) (rw p (remember_all_lem c h))
  | inr p ↦ rw (p, remember_all_lem c h) (remember-reverse c s (recent h) (recent-Distinct h) p)
]
