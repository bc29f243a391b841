-- ===== src/Contracts/Envelope/Degrade.antt =====
-- When an envelope is live, when it is mock data with a gap, and when the failure is thrown.
use cavi_api_client.Base.{
  ℕ, String, ◌≡◌, ◌↔◌, ◌⊎◌, true, false, [], Result, ok, err, arith, inl, inr, refl, Bool-cases,
}
use cavi_api_client.Errors.{Failure, is_auth_error}
use cavi_api_client.Contracts.Envelope.{
  unknown, classify_fallback_error, gateway, Envelope, with_fallback, is_unknown, MutationError,
  with_mutation_result,
}

-- A failed read throws the failure itself exactly when it is an authentication error or its
-- classification is unknown.
pub with_fallback_throws_iff :
    {A : Type 0} (now : ℕ) (area expected note : String) (fallback : A) (e thrown : Failure)
    → ((with_fallback now area expected note fallback (err e)).0 ≡ err thrown)
      ↔ ((thrown ≡ e) × ((is_auth_error e ≡ true) ⊎ ((classify_fallback_error e).reason ≡ unknown)))
unfolding with_fallback
with_fallback_throws_iff now area expected note fallback e thrown = grind arith

-- A mutation and a read with the same outcome agree: both are live, both fall back to the same
-- envelope, or both throw, and then the mutation's error is the failure or has it as its cause.
pub with_mutation_result_agrees :
    {A : Type 0} (now : ℕ) (area expected note : String) (fallback : A) (r : Result Failure A)
    → ((env : Envelope A) × ((with_fallback now area expected note fallback r).0 ≡ ok env)
        × (with_mutation_result now area expected note (λ _. fallback) r ≡ ok env))
      ⊎ ((e : Failure) × ((with_fallback now area expected note fallback r).0 ≡ err e)
          × (w : MutationError) × (with_mutation_result now area expected note (λ _. fallback) r
              ≡ err w)
          × (w.cause ≡ e))
unfolding with_fallback with_mutation_result
with_mutation_result_agrees now area expected note fallback (ok a) =
    inl (record { value = a; source = gateway; at = now; contract_gaps = [] }, refl, refl)
with_mutation_result_agrees now area expected note fallback (err e) =
    elim (Bool-cases (is_auth_error e)) [
      | inl auth ↦ rw auth (inr (e, refl, record { wrapped = false; cause = e }, refl, refl))
      | inr other ↦ rw other (elim (Bool-cases (is_unknown (classify_fallback_error e).reason)) [
        | inl lost ↦ rw lost (inr (e, refl, record { wrapped = true; cause = e }, refl, refl))
        | inr known ↦ rw known (inl (_, refl, refl))
      ])
    ]
