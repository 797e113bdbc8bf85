-- ===== src/UserService/Creation.antt =====
-- What a creation of internal/service/service.go does over the memory repository.
use go_max_tech_stack.UserRepo
use go_max_tech_stack.UserService.{create_user, save_new, memory_users, new_user}
use go_max_tech_stack.UserRepo.{has_email, Folding, UserRepo, exists_by_email}
use go_max_tech_stack.Prelude.{
  ◌==◌, Bool-cases, false, if◌then◌else◌, inl, inr, refl, some, true, ℕ, ◌≡◌, ◌⊎◌, ◌+◌, ◌<◌, List,
  [], arith, length, none, suc, ◌∷◌, ap, ◌∙◌,
}
use go_max_tech_stack.Entity.User.{CreateUserInput, UserDto, User}
use go_max_tech_stack.Failure.Result.{Result, err, ok}
use go_max_tech_stack.Failure.{conflict, is}
use go_max_tech_stack.Prelude.Assoc.{lookup, lookup-insert, insert}

-- A failure that `errors.Is` finds a conflict in.
abbrev pub IsConflict {ℓ} : {A : Type ℓ} → Result A → Type 0
IsConflict (ok a) = ⊥
IsConflict (err e) = is e conflict ≡ true

-- A repository whose own ids come next: no user is stored at the next one or above it, and an int64
-- has room for one id more. A call of `Save` with an id of the caller's can break this.
pub record IsOrderly (r : UserRepo) : Type 0 where
  pub unused : (k : ℕ) → lookup (r.next_id + k) r.users ≡ none
  pub room : r.next_id < 9223372036854775807

length-insert_fresh :
    (k : ℕ) (u : User) (m : List (ℕ × User))
    → lookup k m ≡ none
    → length (insert k u m) ≡ suc (length m)
unfolding lookup insert
length-insert_fresh k u [] h = refl
length-insert_fresh k u ((j, w) ∷ m) h = ground (arith, h, length-insert_fresh k u m)

module _ (folding : Folding) where
  open folding use {equal_fold, transitive, symmetric}

  -- A call of the creation that stores a user, with `r` what it meets at its save.
  pub record Stores (input : CreateUserInput) (r : UserRepo) (out : UserRepo × Result UserDto)
      : Type 0 where
    pub free : has_email folding input.email r.users ≡ false
    pub answer : out.1 ≡ ok (record { id = r.next_id; name = input.name; email = input.email })
    -- The id was free, one user more is there, and later ids are free still.
    pub id_free : lookup r.next_id r.users ≡ none
    pub one_more : length out.0.users ≡ suc (length r.users)
    pub next : out.0.next_id ≡ r.next_id + 1
    pub later : (k : ℕ) → lookup (r.next_id + 1 + k) out.0.users ≡ none
    pub stored :
        (k : ℕ)
        → lookup k out.0.users ≡ (
            if r.next_id == k
            then some (record {
              id = r.next_id;
              name = input.name;
              age = input.age;
              email = input.email;
              version = 1;
            })
            else lookup k r.users)

  above :
      (u : User) (r : UserRepo)
      → IsOrderly r
      → (k : ℕ) → lookup (r.next_id + 1 + k) (insert r.next_id u r.users) ≡ none
  above u r o k =
      let old : lookup (r.next_id + 1 + k) r.users ≡ none =
        ap (λ j. lookup j r.users) (omega arith) ∙ o.unused (1 + k) in
      ground (arith, lookup-insert r.next_id (r.next_id + 1 + k) u r.users, old)

  next_free : (r : UserRepo) → IsOrderly r → lookup r.next_id r.users ≡ none
  next_free r o = ap (λ j. lookup j r.users) (omega arith) ∙ o.unused 0

  save_new_outcome :
      (input : CreateUserInput) (r : UserRepo)
      → IsOrderly r
      → let out = save_new (memory_users folding) (new_user input) r in
        (IsConflict out.1 × (out.0 ≡ r)) ⊎ Stores input r out
  unfolding save_new UserRepo.save is
  save_new_outcome input r o = elim (Bool-cases (has_email folding input.email r.users)) [
    | inl e ↦ inl (rw (e, save_new, IsConflict) (refl, refl))
    | inr e ↦ inr (record {
      free = e;
      id_free = next_free r o;
      one_more = rw (e, save_new) (length-insert_fresh r.next_id _ r.users (next_free r o));
      next = rw (e, save_new) (omega (arith, o.room));
      later = λ k. rw (e, save_new) (above _ r o k);
      answer = rw (e, save_new) refl;
      stored = λ k. rw (e, save_new) (lookup-insert r.next_id k _ r.users);
    })
  ]

  -- A creation over the memory repository, whatever other goroutines do between its look-up and its
  -- save, either answers a conflict and changes nothing itself, or stores one user more, with version 1
  -- and an email that nobody has at that moment, and answers that user. Its id was free, no other user
  -- changes, and the next id moves on to one that is free as well. The repository that the save meets
  -- has no user at its next id or above, as where ids are given by the repository alone.
  pub create_user_outcome :
      (between : UserRepo → UserRepo) (input : CreateUserInput) (r : UserRepo)
      → IsOrderly (between r)
      → let out = create_user (memory_users folding) between input r in
        (IsConflict out.1 × ((out.0 ≡ r) ⊎ (out.0 ≡ between r))) ⊎ Stores input (between r) out
  unfolding create_user UserRepo.exists_by_email is
  create_user_outcome between input r o =
      elim (Bool-cases (has_email folding input.email r.users)) [
        | inl e ↦ inl (rw (e, create_user) (refl, inl refl))
        | inr e ↦
            rw (e, create_user)
              (elim (save_new_outcome input (between r) o) [
                | inl (c, h) ↦ inl (c, inr h)
                | inr s ↦ inr s
              ])
      ]
