-- ===== src/UserRepo.antt =====
-- internal/store/userrepo/memory_user_repo.go: the users in memory, behind a lock. Each method
-- holds the lock from first to last, so it is one step. Emails are compared by `strings.EqualFold`,
-- equality under Unicode case folding: the parameter `Folding` is that comparison, with the fact
-- that it is an equivalence.
-- `UserRepo.Emails` is about which emails the users may have after each method.
use go_max_tech_stack.Prelude.{
  ◌+◌, ◌==◌, Bool, List, String, [], false, if◌then◌else◌, map, none, some, true, u64, ℕ, ◌∷◌, ◌≡◌,
}
use go_max_tech_stack.Failure.Result.{Result, err, ok}
use go_max_tech_stack.Entity.User.{User}
use go_max_tech_stack.Failure.{conflict, sentinel, user_already_exists, user_not_found}
use go_max_tech_stack.Prelude.Assoc.{insert, lookup, remove}
use go_max_tech_stack.Entity.Edges.{next}
pub mod Emails
pub mod Examples

pub record Folding : Type 0 where
  pub equal_fold : String → String → Bool
  pub reflexive : (s : String) → equal_fold s s ≡ true
  pub symmetric : (s t : String) → equal_fold s t ≡ true → equal_fold t s ≡ true
  pub transitive :
      (s t u : String) → equal_fold s t ≡ true → equal_fold t u ≡ true → equal_fold s u ≡ true

pub record UserRepo : Type 0 where
  pub users : List (ℕ × User)
  pub next_id : ℕ

unfoldable pub new_memory_user_repository : UserRepo
new_memory_user_repository = record { users = []; next_id = 1 }

abbrev values : List (ℕ × User) → List User
values = map (λ e. e.1)

unfoldable pub get_all : UserRepo → Result (List User)
get_all r = ok (values r.users)

unfoldable pub get_by_id : ℕ → UserRepo → Result User
get_by_id id r = elim (lookup id r.users) [ none ↦ err (sentinel user_not_found) | some u ↦ ok u ]

unfoldable pub delete : ℕ → UserRepo → UserRepo × Result (Unit {0})
delete id r = elim (lookup id r.users) [
  | none ↦ (r, err (sentinel user_not_found))
  | some u ↦ (record r { users = remove id r.users }, ok tt)
]

-- `Update` writes the caller's fields under the id, with the next version.
unfoldable pub update : ℕ → User → UserRepo → UserRepo × Result User
update id u r = elim (lookup id r.users) [
  | none ↦ (r, err (sentinel user_not_found))
  | some prev ↦
      let next : User = record {
        id = id;
        name = u.name;
        age = u.age;
        email = u.email;
        version = u64 (prev.version + 1);
      } in
      (record r { users = insert id next r.users }, ok next)
]

abbrev pub with_version : User → User
with_version u = if u.version == 0 then record u { version = 1 } else u

module _ (folding : Folding) where
  open folding use {equal_fold}

  -- The loops over the users in `Save` and `ExistsByEmail`.
  unfoldable pub has_email : String → List (ℕ × User) → Bool
  has_email email [] = false
  has_email email ((k, u) ∷ rest) = if equal_fold u.email email then true else has_email email rest

  unfoldable pub exists_by_email : String → UserRepo → Result Bool
  unfolding has_email
  exists_by_email email r = ok (has_email email r.users)

  -- `Save` writes the id and the version that it picks into the caller's user, the second result.
  unfoldable pub save : User → UserRepo → UserRepo × Result User
  save user r =
      if has_email user.email r.users
      then (r, err (sentinel conflict))
      else if user.id == 0
      then (let stored = with_version (record user { id = r.next_id }) in
          (
            record r { users = insert r.next_id stored r.users; next_id = u64 (r.next_id + 1) },
            ok stored,
          ))
      else elim (lookup user.id r.users) [
        | some u ↦ (r, err (sentinel user_already_exists))
        | none ↦ (
          record r { users = insert user.id (with_version user) r.users },
          ok (with_version user),
        )
      ]
