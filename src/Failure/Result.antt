-- ===== src/Failure/Result.antt =====
-- What a fallible Go function returns: a value, or an error. The functions of the program return
-- the zero value beside an error, and no caller reads it.
use go_max_tech_stack.Failure.{Failure}
use go_max_tech_stack.Prelude.{inl, inr, refl, ◌≡◌, ◌⊎◌}

pub data Result {ℓ} (A : Type ℓ) : Type ℓ where
  ok : A → Result A
  err : Failure → Result A

pub Result-cases {ℓ} :
    {A : Type ℓ} (r : Result A) → ((a : A) × (r ≡ ok a)) ⊎ ((e : Failure) × (r ≡ err e))
Result-cases (ok a) = inl (a, refl)
Result-cases (err e) = inr (e, refl)
