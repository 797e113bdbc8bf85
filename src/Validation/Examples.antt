-- ===== src/Validation/Examples.antt =====
-- The validation at concrete inputs; `lower` does here what it does to ASCII letters.
use go_max_tech_stack.Validation.{
  validate_create_user_input, validate_create_user_input_v2, is_likely_email, is_likely_domain,
}
use go_max_tech_stack.Validation.Fields.{IsAcceptable, validate_exact}
use go_max_tech_stack.Entity.User.{CreateUserInput, CreateUserInputV2, map_create_v2_to_v1}
use go_max_tech_stack.Text.{trim_space, trim_left, text_eq, index_byte, last_index_byte}
use go_max_tech_stack.Prelude.{
  ◌&&◌, ◌+◌, [], if◌then◌else◌, leb, length, negsuc, pos, refl, ℕ, ◌↔◌, ◌≡◌,
}

abbrev ascii_lower : ℕ → ℕ
ascii_lower c = if leb b'A' c && leb c b'Z' then c + 32 else c

abbrev padded : CreateUserInput
padded = record { name = "Ann"; age = pos 30; email = " Ann@X.org " }

abbrev headless : CreateUserInput
headless = record { name = " "; age = negsuc 0; email = "@x.org" }

padded_accepted : validate_create_user_input ascii_lower padded ≡ []
unfolding validate_create_user_input is_likely_email is_likely_domain trim_space trim_left text_eq
    index_byte last_index_byte
padded_accepted = refl

headless_refused : length (validate_create_user_input ascii_lower headless) ≡ 3
unfolding validate_create_user_input is_likely_email is_likely_domain trim_space trim_left text_eq
    index_byte last_index_byte
headless_refused = refl

abbrev padded_v2 : CreateUserInputV2
padded_v2 = record { full_name = "Ann"; age = pos 30; email = " Ann@X.org " }

validate_exact_example :
    ((validate_create_user_input ascii_lower padded ≡ []) ↔ IsAcceptable ascii_lower padded)
    × ((validate_create_user_input_v2 ascii_lower padded_v2 ≡ [])
        ↔ IsAcceptable ascii_lower (map_create_v2_to_v1 padded_v2))
validate_exact_example = validate_exact ascii_lower padded padded_v2
