-- ===== src/Handlers/Reading.antt =====
-- Who may read what through the handlers of internal/routes, and when a client is told that its copy
-- of a user is current.
use go_max_tech_stack.Handlers.{
  Response, response, no_body, job_body, export_body, negotiated_body, user_body,
}
use go_max_tech_stack.Handlers.Lookup.{
  permit_user, get_user, get_user_v2, export_user, get_job, find_readable_job, write_user, etag_of,
  cached, dto, export_headers,
}
use go_max_tech_stack.JobService.{JobRepository}
use go_max_tech_stack.UserService.{UserRepository}
use go_max_tech_stack.Entity.Job.{Job}
use go_max_tech_stack.Entity.User.{User}
use go_max_tech_stack.Security.{Principal, admin, is_admin, can_read_user, can_read_job}
use go_max_tech_stack.Security.Guarded.{Role-cases}
use go_max_tech_stack.Failure.Result.{Result-cases, ok, err, Result}
use go_max_tech_stack.Etag.{user_etag, if_none_match_matches}
use go_max_tech_stack.Etag.Matching.{if_none_match_exact}
use go_max_tech_stack.Decimal.{fits_int}
use go_max_tech_stack.Failure.{Failure}
use go_max_tech_stack.Text.{Text}
use go_max_tech_stack.Prelude.{
  ◌<◌, ◌==◌, Bool-cases, Option, Option-cases, [], ap, arith, inl, inr, int64, ltb, none, refl,
  some, subst, true, ◌||◌, ℕ, ◌∙◌, ◌≡◌, ◌⊎◌, ==_iff, if◌then◌else◌, List, String,
}
use go_max_tech_stack.HttpErrors.{answer}
use go_max_tech_stack.Negotiation.{MediaType, accept_header}
use go_max_tech_stack.JobService
use go_max_tech_stack.UserService

-- An administrator, or the one that it is about.
abbrev pub MayRead : Option Principal → ℕ → Type 0
MayRead principal owner =
    (p : Principal) × (principal ≡ some p) × ((p.role ≡ admin) ⊎ (p.user_id ≡ owner))

may_read :
    (p : Principal) (owner : ℕ)
    → (is_admin p.role || p.user_id == owner) ≡ true
    → (p.role ≡ admin) ⊎ (p.user_id ≡ owner)
may_read p owner h = elim (Bool-cases (is_admin p.role)) [
  | inl b ↦ inl (Role-cases p.role b)
  | inr b ↦ inr (ground (arith, b, h))
]

permit_user-MayRead :
    (principal : Option Principal) (id : ℕ)
    → permit_user principal id ≡ ok tt
    → MayRead principal id
unfolding can_read_user
permit_user-MayRead none id h = cc
permit_user-MayRead (some p) id h = elim (Bool-cases (can_read_user p id)) [
  | inl b ↦ (p, refl, may_read p id b)
  | inr b ↦ ground (arith, b, h)
]

module _ {U : Type 0} (users : UserRepository U) {R : Type 0} (jobs : JobRepository R) where
  find_readable_job-MayRead :
      (principal : Option Principal) (id : ℕ) (r : R) (job : Job)
      → find_readable_job jobs principal id r ≡ ok job
      → (JobService.get_by_id jobs id r ≡ ok job) × MayRead principal job.owner_user_id
  unfolding find_readable_job can_read_job
  find_readable_job-MayRead principal id r job h =
      elim (Result-cases (JobService.get_by_id jobs id r)) [
        | inr (e, q) ↦ ground (arith, q, h)
        | inl (found, q) ↦ elim (Option-cases principal) [
          | inl n ↦ ground (arith, q, n, h)
          | inr (p, n) ↦ elim (Bool-cases (can_read_job p found.owner_user_id)) [
            | inr b ↦ ground (arith, q, n, b, h)
            | inl b ↦
                let same : found ≡ job = ground (arith, q, n, b, h) in
                (
                  q ∙ ap (λ (x : Job). ok x) same,
                  subst (λ (x : Job). MayRead principal x.owner_user_id) same
                      (p, n, may_read p found.owner_user_id b),
                )
          ]
        ]
      ]

  -- An error, or what the answer tells.
  abbrev pub Tells {ℓ} : Result Response → Type ℓ → Type ℓ
  Tells answer P = ((e : Failure) × (answer ≡ err e)) ⊎ P

  -- The user that is stored under the id of the request, whom the principal may read, and what the
  -- answer says of it.
  abbrev pub TellsUser {ℓ} : Option Principal → ℕ → U → Result Response → (User → Type ℓ) → Type ℓ
  TellsUser principal id r answer Says =
      Tells answer
        ((u : User) × (UserService.get_by_id users id r ≡ ok u) × MayRead principal id × Says u)

  after_permit {ℓ} :
      (principal : Option Principal) (id : ℕ) (r : U) (answer : Result Response)
      (Says : User → Type ℓ)
      → ((e : Failure) → permit_user principal id ≡ err e → answer ≡ err e)
      → ((e : Failure)
          → permit_user principal id ≡ ok tt
          → UserService.get_by_id users id r ≡ err e
          → answer ≡ err e)
      → ((u : User)
          → permit_user principal id ≡ ok tt
          → UserService.get_by_id users id r ≡ ok u
          → Tells answer (Says u))
      → TellsUser principal id r answer Says
  after_permit principal id r answer Says refuses misses tells =
      elim (Result-cases (permit_user principal id)) [
        | inr (e, q) ↦ inl (e, refuses e q)
        | inl (ok_, q) ↦ elim (Result-cases (UserService.get_by_id users id r)) [
          | inr (e, n) ↦ inl (e, misses e q n)
          | inl (u, n) ↦ elim (tells u q n) [
            | inl refused ↦ inl refused
            | inr says ↦ inr (u, n, permit_user-MayRead principal id q, says)
          ]
        ]
      ]

  -- What each of the three handlers may say of a user: the user itself, or that a copy is current.
  abbrev pub Negotiated : Result Response → User → Type 0
  Negotiated answer u =
      (answer ≡ ok (response 304 (cached u) no_body))
      ⊎ ((t : MediaType) × (answer ≡ ok (response 200 (cached u) (negotiated_body t (dto u)))))

  abbrev pub Exported : Result Response → User → Type 0
  Exported answer u =
      (headers : List (String × Text)) × (answer
        ≡ ok (
            response 200 headers
              (export_body (record { id = u.id; name = u.name; email = u.email; age = u.age }))))

  Negotiated-Tells :
      (media : Text → Option Text) (copy accept : Text) (u : User)
      → let answer : Result Response =
          if if_none_match_matches copy (etag_of u)
          then ok (response 304 (cached u) no_body)
          else write_user media accept u in
        Tells answer (Negotiated answer u)
  unfolding write_user
  Negotiated-Tells media copy accept u =
      elim (Bool-cases (if_none_match_matches copy (etag_of u))) [
        | inl b ↦ rw b (inr (inl refl))
        | inr b ↦ elim (Result-cases (accept_header media accept)) [
          | inr (e, q) ↦ rw b (rw (q, write_user) (inl (e, refl)))
          | inl (t, q) ↦ rw b (rw (q, write_user) (inr (inr (t, refl))))
        ]
      ]

  -- The four handlers that answer a request for one user or one job: GetByID for users in either
  -- version, Export, and GetByID for jobs. An answer of the first three that is not an error is
  -- about the user stored under the id of the request, and the principal is an administrator or has
  -- that id; one of the last is the job stored under the id, and the principal is an administrator
  -- or its owner.
  pub answers-MayRead :
      (media : Text → Option Text) (principal : Option Principal) (copy accept : Text) (id : ℕ)
      → (r : U) (s : R)
      → let read = get_user users media principal copy accept id r in
        let read_v2 = get_user_v2 users principal id r in
        let export = export_user users principal id r in
        TellsUser principal id r read (Negotiated read)
        × TellsUser principal id r read_v2 (λ u. read_v2 ≡ ok (response 200 [] (user_body (dto u))))
        × TellsUser principal id r export (Exported export)
        × Tells (get_job jobs principal id s) (
            (job : Job) × (JobService.get_by_id jobs id s ≡ ok job)
            × (get_job jobs principal id s ≡ ok (response 200 [] (job_body job)))
            × MayRead principal job.owner_user_id)
  unfolding get_user get_user_v2 export_user get_job
  answers-MayRead media principal copy accept id r s = (
    after_permit principal id r _ _ (λ e q. rw (q, get_user) refl)
        (λ e q n. rw (q, get_user) (rw (n, get_user) refl))
        (λ u q n. rw (q, get_user) (rw (n, get_user) (Negotiated-Tells media copy accept u))),
    after_permit principal id r _ _ (λ e q. rw (q, get_user_v2) refl)
        (λ e q n. rw (q, get_user_v2) (rw (n, get_user_v2) refl))
        (λ u q n. inr (rw (q, get_user_v2) (rw (n, get_user_v2) refl))),
    after_permit principal id r _ _ (λ e q. rw (q, export_user) refl)
        (λ e q n. rw (q, export_user) (rw (n, export_user) refl))
        (λ u q n. inr (export_headers id, rw (q, export_user) (rw (n, export_user) refl))),
    elim (Result-cases (find_readable_job jobs principal id s)) [
      | inr (e, q) ↦ inl (e, rw (q, get_job) refl)
      | inl (job, q) ↦
          let (found, may) = find_readable_job-MayRead principal id s job q in
          inr (job, found, rw (q, get_job) refl, may)
    ],
  )

int64-fits : (n : ℕ) → n < 18446744073709551616 → fits_int (int64 n) ≡ true
int64-fits n h = elim (Bool-cases (ltb n 9223372036854775808)) [
  | inl b ↦ rw b b
  | inr b ↦ rw b (ground (arith, h, b))
]

int64_inj :
    (n m : ℕ) → n < 18446744073709551616 → m < 18446744073709551616 → int64 n ≡ int64 m → n ≡ m
int64_inj n m h k e = ground (arith, h, k, e)

-- A client who may read a user, and sends the tag of a version of it, is told that nothing changed
-- exactly if that is the current version, and gets the user anew otherwise, in the form it accepts.
pub get_user_fresh :
    {U : Type 0} (users : UserRepository U) (media : Text → Option Text) (p : Principal)
    (accept : Text)
    → (id version : ℕ) (r : U) (u : User) → can_read_user p id ≡ true
    → UserService.get_by_id users id r ≡ ok u
    → u.id < 18446744073709551616
    → u.version < 18446744073709551616
    → version < 18446744073709551616
    → get_user users media (some p) (user_etag (int64 u.id) (int64 version)) accept id r ≡ (
        if version == u.version
        then ok (response 304 (cached u) no_body)
        else write_user media accept u)
unfolding get_user
get_user_fresh users media p accept id version r u may found i v w =
    let exact =
      if_none_match_exact (int64 u.id) (int64 version) (int64 u.id) (int64 u.version)
        (int64-fits u.id i) (int64-fits version w) (int64-fits u.id i) (int64-fits u.version v) in
    elim (Bool-cases (if_none_match_matches (user_etag (int64 u.id) (int64 version)) (etag_of u))) [
      | inl b ↦
          let same = (==_iff version u.version).1 (int64_inj version u.version w v (exact.0 b).1) in
          rw (may, get_user) (rw (found, get_user) (rw (b, same) refl))
      | inr b ↦ elim (Bool-cases (version == u.version)) [
        | inl q ↦ ground (arith, b, exact.1 (refl, ap int64 ((==_iff version u.version).0 q)))
        | inr q ↦ rw (may, get_user) (rw (found, get_user) (rw (b, q) refl))
      ]
    ]
