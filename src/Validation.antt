-- ===== src/Validation.antt =====
-- internal/httputils/utils.go: the validation of a user's fields, ValidateCreateUserInput and its
-- version 2, with isLikelyEmail. `lower` is unicode.ToLower,
-- by which strings.ToLower maps a text, character by character.
-- `Validation.Email` says which emails are accepted, `Validation.Fields` which inputs.
use go_max_tech_stack.Text.{Text, codes, trim_space, text_eq, index_byte, last_index_byte}
use go_max_tech_stack.Entity.User.{CreateUserInput, CreateUserInputV2}
use go_max_tech_stack.Failure.{InvalidParam}
use go_max_tech_stack.Prelude.{
  ◌++◌, ◌-◌, ◌==◌, Bool, List, String, [], drop, false, if◌then◌else◌, is_neg, length, map, none,
  not, some, suc, take, true, ◌||◌, ℕ, ℤ, ◌∷◌,
}
pub mod Email
pub mod Fields
mod Examples

pub record ErrorDetail : Type 0 where
  pub field : String
  pub rule : String

-- The end of isLikelyEmail: a dot in the domain, and not at its ends.
unfoldable pub is_likely_domain : Text → Bool
is_likely_domain domain = elim (last_index_byte b'.' domain) [
  | none ↦ false
  | some dot ↦ if dot == 0 || dot == length domain - 1 then false else true
]

unfoldable pub is_likely_email : Text → Bool
is_likely_email s = if text_eq s [] then false else elim (index_byte b'@' s) [
  | none ↦ false
  | some at ↦
      if at == 0 || at == length s - 1 then false else elim (index_byte b'@' (drop (suc at) s)) [
        | some more ↦ false
        | none ↦
            if text_eq (take at s) [] || text_eq (drop (suc at) s) []
            then false
            else is_likely_domain (drop (suc at) s)
      ]
]

module _ (lower : ℕ → ℕ) where
  -- `strings.ToLower(strings.TrimSpace(email))`.
  abbrev pub cleaned : String → Text
  cleaned email = map lower (trim_space (codes email))

  abbrev pub must_not_be_empty : String
  must_not_be_empty = "must not be empty"

  -- The checks of the three fields; each appends a detail or none.
  abbrev pub age_details : ℤ → List ErrorDetail
  age_details age = if is_neg age then record { field = "age"; rule = "must be >= 0" } ∷ [] else []

  abbrev pub name_details : String → String → List ErrorDetail
  name_details field name =
      if text_eq (trim_space (codes name)) []
      then record { field = field; rule = must_not_be_empty } ∷ []
      else []

  abbrev pub email_details : String → List ErrorDetail
  email_details email =
      if text_eq (cleaned email) []
      then record { field = "email"; rule = must_not_be_empty } ∷ []
      else if not (is_likely_email (cleaned email))
      then record { field = "email"; rule = "email must be valid" } ∷ []
      else []

  unfoldable pub validate_create_user_input : CreateUserInput → List ErrorDetail
  validate_create_user_input input =
      age_details input.age ++ (name_details "name" input.name ++ email_details input.email)

  unfoldable pub validate_create_user_input_v2 : CreateUserInputV2 → List ErrorDetail
  validate_create_user_input_v2 input =
      age_details input.age
      ++ (name_details "full_name" input.full_name ++ email_details input.email)
