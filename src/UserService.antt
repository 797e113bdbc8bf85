-- ===== src/UserService.antt =====
-- internal/service/repository.go and internal/service/service.go: the interface of a user
-- repository, and the service in front of one. `CreateUser` looks for the email and then saves,
-- with no lock in between: `between` is what others do to the repository there.
-- `UserService.Creation` proves what a creation does over the memory repository.
use go_max_tech_stack.UserRepo
use go_max_tech_stack.UserRepo.{UserRepo, Folding}
use go_max_tech_stack.Prelude.{Bool, List, String, false, true, ℕ}
use go_max_tech_stack.Entity.User.{CreateUserInput, User, UserDto}
use go_max_tech_stack.Failure.Result.{Result, err, ok}
use go_max_tech_stack.Failure.{conflict, sentinel, wrapped}
pub mod Creation
mod Examples

pub record UserRepository (R : Type 0) : Type 0 where
  pub get_all : R → Result (List User)
  pub get_by_id : ℕ → R → Result User
  pub save : User → R → R × Result User
  pub delete : ℕ → R → R × Result (Unit {0})
  pub exists_by_email : String → R → Result Bool

abbrev pub memory_users : Folding → UserRepository UserRepo
memory_users folding = record {
  get_all = UserRepo.get_all;
  get_by_id = UserRepo.get_by_id;
  save = UserRepo.save folding;
  delete = UserRepo.delete;
  exists_by_email = UserRepo.exists_by_email folding;
}

-- `entity.User{Name: …, Age: …, Email: …}`: the other fields are Go's zero values.
abbrev pub new_user : CreateUserInput → User
new_user x = record { id = 0; name = x.name; age = x.age; email = x.email; version = 0 }

module _ {R : Type 0} (repo : UserRepository R) where
  unfoldable pub get_all_users : R → Result (List User)
  get_all_users = repo.get_all

  unfoldable pub get_by_id : ℕ → R → Result User
  get_by_id = repo.get_by_id

  unfoldable pub save : User → R → R × Result User
  save = repo.save

  unfoldable pub delete : ℕ → R → R × Result (Unit {0})
  delete = repo.delete

  unfoldable pub save_new : User → R → R × Result UserDto
  save_new u r =
      let (r', saved) = repo.save u r in
      (
        r',
        elim saved [
          | err e ↦ err (wrapped "save user" e)
          | ok stored ↦ ok (record { id = stored.id; name = stored.name; email = stored.email })
        ],
      )

  unfoldable pub create_user : (R → R) → CreateUserInput → R → R × Result UserDto
  unfolding save_new
  create_user between input r = elim (repo.exists_by_email input.email r) [
    | err e ↦ (r, err (wrapped "check email" e))
    | ok true ↦ (r, err (wrapped "email already exists" (sentinel conflict)))
    | ok false ↦ save_new (new_user input) (between r)
  ]
