-- ===== src/UserService/Examples.antt =====
-- The creation of a user in a concrete repository, while another goroutine creates one too.
use go_max_tech_stack.UserService.{create_user, save_new, memory_users}
use go_max_tech_stack.UserRepo.{UserRepo, exists_by_email, has_email}
use go_max_tech_stack.Entity.User.{CreateUserInput, User}
use go_max_tech_stack.Prelude.{pos, ◌≡◌, ◌⊎◌, ◌∷◌, [], refl, arith}
use go_max_tech_stack.UserService.Creation.{IsConflict, Stores, IsOrderly, create_user_outcome}
use go_max_tech_stack.UserRepo.Examples.{exact, two_users, ann, bob}
use go_max_tech_stack.Prelude.Assoc.{lookup, insert}
use go_max_tech_stack.UserRepo

abbrev input : CreateUserInput
input = record { name = "Cid"; age = pos 50; email = "cid@x.org" }

abbrev dan : User
dan = record { id = 3; name = "Dan"; age = pos 60; email = "dan@x.org"; version = 1 }

abbrev three_users : UserRepo
three_users = record { users = (1, ann) ∷ (2, bob) ∷ (3, dan) ∷ []; next_id = 4 }

-- Another request creates a user in between.
abbrev overtaken : UserRepo → UserRepo
overtaken r =
    (create_user (memory_users exact) (λ s. s)
      (record { name = "Dan"; age = pos 60; email = "dan@x.org" }) r).0

overtaken_users : overtaken two_users ≡ three_users
unfolding create_user save_new UserRepo.save UserRepo.exists_by_email UserRepo.has_email insert
overtaken_users = refl

three_users-IsOrderly : IsOrderly three_users
unfolding lookup
three_users-IsOrderly = record { unused = λ k. ground arith; room = omega arith }

overtaken-IsOrderly : IsOrderly (overtaken two_users)
overtaken-IsOrderly = rw overtaken_users three_users-IsOrderly

create_user_outcome_example :
    let out = create_user (memory_users exact) overtaken input two_users in
    (IsConflict out.1 × ((out.0 ≡ two_users) ⊎ (out.0 ≡ overtaken two_users)))
    ⊎ Stores exact input (overtaken two_users) out
create_user_outcome_example =
    create_user_outcome exact overtaken input two_users overtaken-IsOrderly
