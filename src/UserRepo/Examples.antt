-- ===== src/UserRepo/Examples.antt =====
-- Runs of the user repository, and its theorems at them. Here emails are compared exactly.
use go_max_tech_stack.UserRepo.{Folding, UserRepo, new_memory_user_repository, save, has_email}
use go_max_tech_stack.Entity.User.{User}
use go_max_tech_stack.Prelude.{pos, [], refl, str_eq, str_eq_iff, sym, ◌∙◌, ◌∷◌, ◌≡◌}
use go_max_tech_stack.UserRepo.Emails.{Unique}
use go_max_tech_stack.Prelude.Assoc.{insert}

abbrev pub exact : Folding
exact = record {
  equal_fold = str_eq;
  reflexive = λ s. (str_eq_iff s s).1 refl;
  symmetric = λ s t h. (str_eq_iff t s).1 (sym ((str_eq_iff s t).0 h));
  transitive = λ s t u h h'. (str_eq_iff s u).1 ((str_eq_iff s t).0 h ∙ (str_eq_iff t u).0 h');
}

abbrev pub ann : User
ann = record { id = 1; name = "Ann"; age = pos 30; email = "ann@x.org"; version = 1 }

abbrev pub bob : User
bob = record { id = 2; name = "Bob"; age = pos 40; email = "bob@x.org"; version = 1 }

abbrev pub two_users : UserRepo
two_users = record { users = (1, ann) ∷ (2, bob) ∷ []; next_id = 3 }

two_users_saved :
    (save exact
      (record bob { id = 0; version = 0 })
      (save exact (record ann { id = 0; version = 0 }) new_memory_user_repository).0).0
    ≡ two_users
unfolding save new_memory_user_repository has_email insert
two_users_saved = refl

two_users-Unique : Unique exact two_users.users
unfolding has_email
two_users-Unique = (refl, (refl, tt))
