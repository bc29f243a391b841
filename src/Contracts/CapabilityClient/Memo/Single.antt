-- ===== src/Contracts/CapabilityClient/Memo/Single.antt =====
-- A memo has at most one pending promise, the current one.
use cavi_api_client.Base.{
  ℕ, zero, suc, ◌<◌, ◌≡◌, refl, ap, none, some, List, [], ◌∷◌, ◌++◌, length, get_elem?, set, ◌==◌,
  ltb, ◌&&◌, if◌then◌else◌, Result, arith, length-append,
}
use cavi_api_client.Errors.{Failure}
use cavi_api_client.Contracts.CapabilityClient.Memo.{Memo, join, settle, forget, result_of}

pub length-set {ℓ} : {A : Type ℓ} (xs : List A) (i : ℕ) (v : A) → length (set xs i v) ≡ length xs
length-set [] i v = refl
length-set (x ∷ xs) zero v = refl
length-set (x ∷ xs) (suc i) v = ap suc (length-set xs i v)

pub get_elem?-set {ℓ} :
    {A : Type ℓ} (xs : List A) (i j : ℕ) (v : A)
    → get_elem? (set xs i v) j ≡ (if i == j && ltb i (length xs) then some v else get_elem? xs j)
get_elem?-set [] i j v = ground arith
get_elem?-set (x ∷ xs) zero zero v = ground arith
get_elem?-set (x ∷ xs) zero (suc j) v = ground arith
get_elem?-set (x ∷ xs) (suc i) zero v = ground arith
get_elem?-set (x ∷ xs) (suc i) (suc j) v = ground (arith, get_elem?-set xs i j v)

-- Behind the end stands what was added.
pub get_elem?-append {ℓ} :
    {A : Type ℓ} (xs : List A) (v : A) (j : ℕ)
    → get_elem? (xs ++ v ∷ []) j
      ≡ (if ltb j (length xs) then get_elem? xs j else if j == length xs then some v else none)
get_elem?-append [] v zero = ground arith
get_elem?-append [] v (suc j) = ground arith
get_elem?-append (x ∷ xs) v zero = ground arith
get_elem?-append (x ∷ xs) v (suc j) = ground (arith, get_elem?-append xs v j)

pub record IsSingle {T : Type 0} (m : Memo T) : Type 0 where
  pub one_pending : (p : ℕ) → get_elem? m.promises p ≡ some none → m.current ≡ some p
  pub made : (p : ℕ) → m.current ≡ some p → p < length m.promises

module _ {T : Type 0} (m : Memo T) where
  pub join-IsSingle : IsSingle m → IsSingle ((join m).1)
  unfolding join
  join-IsSingle v = record {
    one_pending = λ q e. ground (arith, get_elem?-append m.promises none q, v.one_pending q);
    made = λ q e. ground (arith, length-append m.promises (none ∷ []), v.made q);
  }

  pub settle-IsSingle : (p : ℕ) (r : Result Failure T) → IsSingle m → IsSingle (settle p r m)
  unfolding settle
  settle-IsSingle p r v = record {
    one_pending = λ q e. ground (arith, get_elem?-set m.promises p q (some r), v.one_pending q);
    made = λ q e. ground (arith, length-set m.promises p (some r), v.made q);
  }

  -- A settled promise is forgotten.
  pub forget-IsSingle :
      (p : ℕ) (r : Result Failure T) → result_of p m ≡ some r → IsSingle m → IsSingle (forget p m)
  unfolding forget
  forget-IsSingle p r e v = record {
    one_pending = λ q h. ground (arith, v.one_pending q);
    made = λ q h. ground (arith, v.made q);
  }
