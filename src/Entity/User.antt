-- ===== src/Entity/User.antt =====
-- internal/entity/user.go: users, their inputs and the maps between API versions.
use go_max_tech_stack.Prelude.{ℕ, ℤ, String, List, [], ◌∷◌}

pub record User : Type 0 where
  pub id : ℕ
  pub name : String
  pub age : ℤ
  pub email : String
  pub version : ℕ

pub record UserDto : Type 0 where
  pub id : ℕ
  pub name : String
  pub email : String

pub record CreateUserInput : Type 0 where
  pub name : String
  pub age : ℤ
  pub email : String

pub record UserDtoV2 : Type 0 where
  pub id : ℕ
  pub full_name : String
  pub email : String

pub record CreateUserInputV2 : Type 0 where
  pub full_name : String
  pub age : ℤ
  pub email : String

unfoldable pub map_create_v2_to_v1 : CreateUserInputV2 → CreateUserInput
map_create_v2_to_v1 x = record { name = x.full_name; age = x.age; email = x.email }

unfoldable pub map_user_dto_to_v2 : UserDto → UserDtoV2
map_user_dto_to_v2 u = record { id = u.id; full_name = u.name; email = u.email }

unfoldable pub map_users_to_v2 : List User → List UserDtoV2
map_users_to_v2 [] = []
map_users_to_v2 (u ∷ users) =
    record { id = u.id; full_name = u.name; email = u.email } ∷ map_users_to_v2 users
