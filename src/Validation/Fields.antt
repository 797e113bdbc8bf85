-- ===== src/Validation/Fields.antt =====
-- Which inputs the validation of internal/httputils/utils.go lets through.
use go_max_tech_stack.Validation.{
  validate_create_user_input, validate_create_user_input_v2, age_details, name_details,
  email_details, cleaned, ErrorDetail,
}
use go_max_tech_stack.Validation.Email.{IsEmail, is_likely_email_exact, IsEmail-ne-nil}
use go_max_tech_stack.Entity.User.{CreateUserInput, CreateUserInputV2, map_create_v2_to_v1}
use go_max_tech_stack.Text.{codes, trim_space, text_eq}
use go_max_tech_stack.Text.Laws.{text_eq_iff}
use go_max_tech_stack.Prelude.{
  ◌++◌, Bool-cases, List, String, [], arith, false, inl, inr, is_neg, negsuc, pos, refl, ℕ, ℤ, ◌↔◌,
  ◌∷◌, ◌≡◌, ◌≢◌,
}

-- What an input must be.
pub record IsAcceptable (lower : ℕ → ℕ) (input : CreateUserInput) : Type 0 where
  pub age : is_neg input.age ≡ false
  pub name : trim_space (codes input.name) ≢ []
  pub email : IsEmail (cleaned lower input.email)

module _ (lower : ℕ → ℕ) where
  -- No detail is appended by a check exactly if its field is right.
  parts-nil : (a n e : List ErrorDetail) → ((a ++ (n ++ e)) ≡ []) ↔ ((a ≡ []) × (n ≡ []) × (e ≡ []))
  parts-nil [] [] [] = ((λ h. (refl, refl, refl)), λ h. refl)
  parts-nil [] [] (x ∷ e) = ((λ h. cc h), λ h. cc (h.2))
  parts-nil [] (x ∷ n) e = ((λ h. cc h), λ h. cc (h.1))
  parts-nil (x ∷ a) n e = ((λ h. cc h), λ h. cc (h.0))

  age-nil : (age : ℤ) → (age_details lower age ≡ []) ↔ (is_neg age ≡ false)
  age-nil (pos n) = ((λ h. refl), λ h. refl)
  age-nil (negsuc n) = ((λ h. cc h), λ h. cc h)

  name-nil :
      (field name : String) → (name_details lower field name ≡ []) ↔ (trim_space (codes name) ≢ [])
  name-nil field name = elim (Bool-cases (text_eq (trim_space (codes name)) [])) [
    | inl e ↦ (
      λ h. ground (arith, e, h),
      λ h. absurd (h ((text_eq_iff (trim_space (codes name)) []).0 e)),
    )
    | inr e ↦
        (λ h x. ground (arith, e, (text_eq_iff (trim_space (codes name)) []).1 x), λ h. rw e refl)
  ]

  IsEmail-nil : (email : String) → (email_details lower email ≡ []) ↔ IsEmail (cleaned lower email)
  IsEmail-nil email =
      let s = cleaned lower email in
      (
        λ h. (is_likely_email_exact s).0 (ground (arith, h)),
        λ m. rw (IsEmail-ne-nil s m, (is_likely_email_exact s).1 m) refl,
      )

  exact :
      (field : String) (input : CreateUserInput)
      → ((age_details lower input.age
            ++ (name_details lower field input.name ++ email_details lower input.email))
          ≡ [])
        ↔ IsAcceptable lower input
  exact field input =
      let parts =
        parts-nil (age_details lower input.age) (name_details lower field input.name)
          (email_details lower input.email) in
      (
        λ h.
            let (a, n, e) = parts.0 h in
            record {
              age = (age-nil input.age).0 a;
              name = (name-nil field input.name).0 n;
              email = (IsEmail-nil input.email).0 e;
            },
        λ m. parts.1 (
          (age-nil input.age).1 m.age,
          (name-nil field input.name).1 m.name,
          (IsEmail-nil input.email).1 m.email,
        ),
      )

  -- The validation finds nothing exactly if the age is not negative, the name is not blank, and the
  -- trimmed email in lower case has one @ alone and a dotted domain; and version 2 of the interface
  -- accepts exactly the inputs whose translation to version 1 is accepted.
  pub validate_exact :
      (input : CreateUserInput) (input_v2 : CreateUserInputV2)
      → ((validate_create_user_input lower input ≡ []) ↔ IsAcceptable lower input)
        × ((validate_create_user_input_v2 lower input_v2 ≡ [])
            ↔ IsAcceptable lower (map_create_v2_to_v1 input_v2))
  unfolding validate_create_user_input validate_create_user_input_v2 map_create_v2_to_v1
  validate_exact input input_v2 =
      (exact "name" input, exact "full_name" (map_create_v2_to_v1 input_v2))
