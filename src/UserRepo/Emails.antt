-- ===== src/UserRepo/Emails.antt =====
-- Emails of internal/store/userrepo/memory_user_repo.go, up to case.
use go_max_tech_stack.Prelude.{
  Bool-cases, List, String, [], arith, false, inl, inr, some, refl, ℕ, ◌∷◌, ◌≡◌, ◌≢◌, ◌==◌, ◌↔◌,
  ◌+◌, Option-cases, u64,
}
use go_max_tech_stack.UserRepo.{Folding, has_email, UserRepo, delete, save, update, with_version}
use go_max_tech_stack.Entity.User.{User}
use go_max_tech_stack.Prelude.Assoc.{insert, lookup, remove, lookup-insert}

module _ (folding : Folding) where
  open folding use {equal_fold, reflexive, symmetric, transitive}

  -- No two users have emails that are equal up to case.
  abbrev pub Unique : List (ℕ × User) → Type 0
  Unique [] = Unit
  Unique ((k, u) ∷ rest) = (has_email folding u.email rest ≡ false) × Unique rest

  has_email-insert :
      (email : String) (k : ℕ) (u : User) (m : List (ℕ × User))
      → equal_fold u.email email ≡ false
      → has_email folding email m ≡ false
      → has_email folding email (insert k u m) ≡ false
  unfolding has_email insert
  has_email-insert email k u [] h free = rw h refl
  has_email-insert email k u ((j, w) ∷ m) h free = ground (arith, has_email-insert email k u m)

  swap_false : (s t : String) → equal_fold s t ≡ false → equal_fold t s ≡ false
  swap_false s t h = elim (Bool-cases (equal_fold t s)) [ inl e ↦ cc (symmetric t s e) | inr e ↦ e ]

  insert-Unique :
      (k : ℕ) (u : User) (m : List (ℕ × User))
      → has_email folding u.email m ≡ false
      → Unique m
      → Unique (insert k u m)
  unfolding insert has_email
  insert-Unique k u [] free v = (refl, tt)
  insert-Unique k u ((j, w) ∷ m) free v =
      ground
        (arith, has_email-insert w.email k u m, swap_false w.email u.email, insert-Unique k u m)

  has_email-remove :
      (email : String) (k : ℕ) (m : List (ℕ × User))
      → has_email folding email m ≡ false
      → has_email folding email (remove k m) ≡ false
  unfolding has_email remove
  has_email-remove email k [] free = refl
  has_email-remove email k ((j, w) ∷ m) free = ground (arith, has_email-remove email k m)

  remove-Unique : (k : ℕ) (m : List (ℕ × User)) → Unique m → Unique (remove k m)
  unfolding remove
  remove-Unique k [] v = tt
  remove-Unique k ((j, w) ∷ m) v = ground (arith, has_email-remove w.email k m, remove-Unique k m)

  has_email-lookup :
      (email : String) (k : ℕ) (u : User) (m : List (ℕ × User))
      → lookup k m ≡ some u
      → has_email folding email m ≡ false
      → equal_fold u.email email ≡ false
  unfolding has_email lookup
  has_email-lookup email k u [] e free = cc
  has_email-lookup email k u ((j, w) ∷ m) e free = ground (arith, has_email-lookup email k u m)

  -- What `Unique` says of the map: two users under different ids have different emails.
  Unique-lookup :
      (i j : ℕ) (a b : User) (m : List (ℕ × User))
      → Unique m
      → lookup i m ≡ some a
      → lookup j m ≡ some b
      → i ≢ j
      → equal_fold a.email b.email ≡ false
  unfolding lookup
  Unique-lookup i j a b [] v e f ne = cc
  Unique-lookup i j a b ((k, w) ∷ m) v e f ne = ground (
    arith,
    Unique-lookup i j a b m,
    has_email-lookup w.email i a m,
    has_email-lookup w.email j b m,
    swap_false b.email a.email,
  )

  insert-Unique-remove :
      (k : ℕ) (u : User) (m : List (ℕ × User))
      → Unique m
      → has_email folding u.email (remove k m) ≡ false
      → Unique (insert k u m)
  unfolding insert remove has_email
  insert-Unique-remove k u [] v free = (refl, tt)
  insert-Unique-remove k u ((j, w) ∷ m) v free = ground (
    arith,
    has_email-insert w.email k u m,
    swap_false w.email u.email,
    insert-Unique-remove k u m,
  )

  remove-insert-Unique :
      (k : ℕ) (u : User) (m : List (ℕ × User))
      → Unique (insert k u m)
      → has_email folding u.email (remove k m) ≡ false
  unfolding insert remove has_email
  remove-insert-Unique k u [] v = refl
  remove-insert-Unique k u ((j, w) ∷ m) v = ground (
    arith,
    lookup-insert k k u m,
    has_email-lookup w.email k u (insert k u m),
    swap_false u.email w.email,
    remove-insert-Unique k u m,
  )

  with_version-Unique :
      (k : ℕ) (u : User) (m : List (ℕ × User))
      → has_email folding u.email m ≡ false
      → Unique m
      → Unique (insert k (with_version u) m)
  with_version-Unique k u m free v = elim (Bool-cases (u.version == 0)) [
    | inl z ↦ rw z (insert-Unique k (record u { version = 1 }) m free v)
    | inr z ↦ rw z (insert-Unique k u m free v)
  ]

  save-Unique : (user : User) (r : UserRepo) → Unique r.users → Unique (save folding user r).0.users
  unfolding save
  save-Unique user r v = elim (Bool-cases (has_email folding user.email r.users)) [
    | inl e ↦ rw e v
    | inr e ↦ elim (Bool-cases (user.id == 0)) [
      | inl z ↦
          rw (e, z) (with_version-Unique r.next_id (record user { id = r.next_id }) r.users e v)
      | inr z ↦ elim (Option-cases (lookup user.id r.users)) [
        | inl f ↦ rw (e, z, f) (with_version-Unique user.id user r.users e v)
        | inr (w, f) ↦ rw (e, z, f) v
      ]
    ]
  ]

  delete-Unique : (id : ℕ) (r : UserRepo) → Unique r.users → Unique (delete id r).0.users
  unfolding delete
  delete-Unique id r v = elim (Option-cases (lookup id r.users)) [
    | inl f ↦ rw (f, delete) v
    | inr (w, f) ↦ rw (f, delete) (remove-Unique id r.users v)
  ]

  -- However a save ends, and whatever a delete removes, no two users of the repository have emails
  -- that are equal up to case, if none had before.
  save-delete-Unique :
      (user : User) (id : ℕ) (r : UserRepo)
      → Unique r.users
      → Unique (save folding user r).0.users × Unique (delete id r).0.users
  save-delete-Unique user id r v = (save-Unique user r v, delete-Unique id r v)

  -- `Update` of a user that exists keeps the emails unique exactly if no other user has the new
  -- email: it does not look itself.
  update-Unique :
      (id : ℕ) (u prev : User) (r : UserRepo)
      → Unique r.users
      → lookup id r.users ≡ some prev
      → Unique (update id u r).0.users ↔ (has_email folding u.email (remove id r.users) ≡ false)
  unfolding update
  update-Unique id u prev r v found =
      rw (found, update) (remove-insert-Unique id _ r.users, insert-Unique-remove id _ r.users v)

  same_email-Unique :
      (i j : ℕ) (a b : User) (m : List (ℕ × User))
      → lookup i m ≡ some a
      → lookup j m ≡ some b
      → i ≢ j
      → a.email ≡ b.email
      → ¬ Unique m
  same_email-Unique i j a b m e f ne h v =
      ground (arith, h, reflexive b.email, Unique-lookup i j a b m v e f ne)

  -- A user can be updated to the email that another user has, and then two users have it: a look-up
  -- of the email finds either.
  update_duplicates :
      (i j : ℕ) (a b : User) (r : UserRepo)
      → lookup i r.users ≡ some a
      → lookup j r.users ≡ some b
      → i ≢ j
      → ¬ Unique (update i (record a { email = b.email }) r).0.users
  unfolding update
  update_duplicates i j a b r e f ne =
      let next : User = record {
        id = i;
        name = a.name;
        age = a.age;
        email = b.email;
        version = u64 (a.version + 1);
      } in
      rw (e, update)
        (same_email-Unique i j next b (insert i next r.users)
          (ground (arith, lookup-insert i i next r.users))
          (ground (arith, lookup-insert i j next r.users)) ne refl)
