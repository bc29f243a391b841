-- ===== src/Runtime/SynchronousRunStore/Invariant.antt =====
-- The cache has no key twice and stays within its capacity.
use cavi_api_client.Base.{
  ℕ, ◌≤◌, ◌<◌, ◌+◌, some, String, str_eq, eq_iff, ◌≡◌, refl, ◌≢◌, false, if◌then◌else◌, sym, [],
  ◌∷◌, ◌++◌, length, length-append, arith, Bool-cases, inl, inr, ltb,
}
use cavi_api_client.Runtime.Run.{RunStatus}
use cavi_api_client.Runtime.SynchronousRunStore.{Entries, has, delete, evict, remember, find, get}

abbrev pub Absent : String → Entries → Type 0
Absent k [] = Unit
Absent k (e ∷ es) = (e.0 ≢ k) × Absent k es

abbrev pub Distinct : Entries → Type 0
Distinct [] = Unit
Distinct (e ∷ es) = Absent e.0 es × Distinct es

pub delete-Absent : (k j : String) (es : Entries) → Absent j es → Absent j (delete k es)
unfolding delete
delete-Absent k j [] h = tt
delete-Absent k j (e ∷ es) h = ground (arith, delete-Absent k j es h.1)

pub delete-Absent_self : (k : String) (es : Entries) → Absent k (delete k es)
unfolding delete
delete-Absent_self k [] = tt
delete-Absent_self k (e ∷ es) = ground (arith, delete-Absent_self k es, eq_iff e.0 k)

pub delete-Distinct : (k : String) (es : Entries) → Distinct es → Distinct (delete k es)
unfolding delete
delete-Distinct k [] h = tt
delete-Distinct k (e ∷ es) h = ground (arith, delete-Distinct k es h.1, delete-Absent k e.0 es h.0)

pub delete_of_Absent : (k : String) (es : Entries) → Absent k es → delete k es ≡ es
unfolding delete
delete_of_Absent k [] h = refl
delete_of_Absent k (e ∷ es) h = ground (arith, delete_of_Absent k es h.1, eq_iff e.0 k)

-- `if (has(key)) delete(key)` is `delete(key)`.
pub delete_if_has : (k : String) (es : Entries) → has k es ≡ false → delete k es ≡ es
unfolding has delete
delete_if_has k [] h = refl
delete_if_has k (e ∷ es) h = ground (arith, delete_if_has k es)

pub length-delete-le : (k : String) (es : Entries) → length (delete k es) ≤ length es
unfolding delete
length-delete-le k [] = omega arith
length-delete-le k (e ∷ es) = ground (arith, length-delete-le k es)

pub Absent-snoc :
    (k j : String) (s : RunStatus) (es : Entries)
    → Absent k es
    → j ≢ k
    → Absent k (es ++ (j, s) ∷ [])
Absent-snoc k j s [] h n = (n, tt)
Absent-snoc k j s (e ∷ es) h n = (h.0, Absent-snoc k j s es h.1 n)

pub Distinct-snoc :
    (k : String) (s : RunStatus) (es : Entries)
    → Distinct es
    → Absent k es
    → Distinct (es ++ (k, s) ∷ [])
Distinct-snoc k s [] h a = (tt, tt)
Distinct-snoc k s (e ∷ es) h a =
    (Absent-snoc e.0 k s es h.0 (λ p. a.0 (sym p)), Distinct-snoc k s es h.1 a.1)

-- The first key occurs once, so one entry goes.
pub evict_lem :
    (c : ℕ) (e : String × RunStatus) (es : Entries)
    → Distinct (e ∷ es)
    → evict c (e ∷ es) ≡ (if ltb c (length (e ∷ es)) then es else e ∷ es)
unfolding evict delete
evict_lem c e es h = ground (arith, eq_iff e.0 e.0, delete_of_Absent e.0 es h.0)

pub remember_lem :
    (c : ℕ) (s : RunStatus) (es : Entries)
    → remember c s es
      ≡ (if str_eq s.run_id "" then es else evict c (delete s.run_id es ++ (s.run_id, s) ∷ []))
unfolding remember
remember_lem c s es = ground (arith, delete_if_has s.run_id es)

pub record IsValid (capacity : ℕ) (es : Entries) : Type 0 where
  pub within : length es ≤ capacity
  pub distinct : Distinct es

evict-IsValid : (c : ℕ) (es : Entries) → Distinct es → length es ≤ c + 1 → IsValid c (evict c es)
unfolding evict
evict-IsValid c [] h l = ground arith
evict-IsValid c (e ∷ es) h l = rw (evict_lem c e es h) (ground arith)

-- Remembering a run keeps every key once and the number of entries within the capacity.
pub remember-IsValid :
    (capacity : ℕ) (status : RunStatus) (entries : Entries)
    → IsValid capacity entries
    → IsValid capacity (remember capacity status entries)
remember-IsValid c s es v =
    let kept = delete s.run_id es in
    let fresh =
      Distinct-snoc s.run_id s kept (delete-Distinct s.run_id es v.distinct)
        (delete-Absent_self s.run_id es) in
    let small : length (kept ++ (s.run_id, s) ∷ []) ≤ c + 1 =
      omega
        (arith, length-append kept ((s.run_id, s) ∷ []), length-delete-le s.run_id es, v.within) in
    rw (remember_lem c s es) (elim (Bool-cases (str_eq s.run_id "")) [
      | inl e ↦ rw e v
      | inr e ↦ rw e (evict-IsValid c (kept ++ (s.run_id, s) ∷ []) fresh small)
    ])

find-snoc :
    (k : String) (s : RunStatus) (es : Entries) → Absent k es → find k (es ++ (k, s) ∷ []) ≡ some s
unfolding find
find-snoc k s [] h = ground (arith, eq_iff k k)
find-snoc k s (e ∷ es) h = ground (arith, eq_iff e.0 k, find-snoc k s es h.1)

find-evict-snoc :
    (c : ℕ) (k : String) (s : RunStatus) (es : Entries)
    → 0 < c
    → Absent k es
    → Distinct (es ++ (k, s) ∷ [])
    → find k (evict c (es ++ (k, s) ∷ [])) ≡ some s
find-evict-snoc c k s [] p a d = rw (evict_lem c (k, s) [] d) (ground (arith, find-snoc k s [] tt))
find-evict-snoc c k s (e ∷ es) p a d =
    rw (evict_lem c e (es ++ (k, s) ∷ []) d)
      (ground (arith, find-snoc k s es a.1, find-snoc k s (e ∷ es) a))

get_lem : (k : String) (es : Entries) → get k es ≡ find k es
unfolding get
get_lem k es = ground arith

-- A cache with room for a run gives back the run that it was last given, whatever it held before,
-- when its keys are distinct and the run has an id.
pub get-remember :
    (capacity : ℕ) (status : RunStatus) (entries : Entries)
    → 0 < capacity
    → status.run_id ≢ ""
    → Distinct entries
    → get status.run_id (remember capacity status entries) ≡ some status
get-remember c s es p named d =
    let a = delete-Absent_self s.run_id es in
    let fresh = Distinct-snoc s.run_id s _ (delete-Distinct s.run_id es d) a in
    let e : str_eq s.run_id "" ≡ false = ground (arith, eq_iff s.run_id "") in
    rw
      (get_lem, remember_lem c s es, e, find-evict-snoc c s.run_id s (delete s.run_id es) p a fresh)
      refl
