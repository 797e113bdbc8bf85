-- ===== src/WorkerPool/Problem.antt =====
-- `ToJobProblem` of internal/workerpool/workerpool.go: the problem that a job carries whose user
-- could not be created.
use go_max_tech_stack.Failure.{
  Failure, find, is, InvalidParam, sentinel, wrapped, conflict, context_canceled,
  context_deadline_exceeded, forbidden,
}
use go_max_tech_stack.Entity.Job.{JobProblem, JobInvalidParam}
use go_max_tech_stack.HttpErrors.{as_validation}
use go_max_tech_stack.JobService.{shutdown_job_problem}
use go_max_tech_stack.UserService.{create_user, memory_users, save_new}
use go_max_tech_stack.UserRepo.{UserRepo, Folding, has_email, exists_by_email}
use go_max_tech_stack.Prelude.{
  Bool-cases, List, String, [], arith, if◌then◌else◌, inl, inr, none, some, ◌||◌, ℕ, ◌∷◌, ◌≡◌, ◌⊎◌,
  ap,
}
use go_max_tech_stack.Entity.User.{CreateUserInput}
use go_max_tech_stack.Failure.Result.{err}
use go_max_tech_stack.UserRepo

unfoldable pub to_job_invalid_params : List InvalidParam → List JobInvalidParam
to_job_invalid_params [] = []
to_job_invalid_params (v ∷ rest) =
    record { name = v.name; reason = v.reason } ∷ to_job_invalid_params rest

-- `entity.JobProblem{Title: …, Detail: …, Status: …}`, both texts the same.
abbrev pub titled : String → ℕ → List JobInvalidParam → JobProblem
titled text status params = record {
  type = "";
  title = text;
  status = status;
  detail = text;
  instance_uri = "";
  request_id = "";
  invalid_params = params;
}

-- The second switch, and what is left.
unfoldable pub other_problem : Failure → JobProblem
unfolding is
other_problem e =
    if is e conflict
    then titled "conflict" 409 []
    else if is e forbidden
    then titled "forbidden" 403 []
    else titled "internal server error" 500 []

unfoldable pub to_job_problem : Failure → JobProblem
unfolding is find shutdown_job_problem to_job_invalid_params other_problem
to_job_problem e =
    if is e context_canceled || is e context_deadline_exceeded
    then shutdown_job_problem
    else elim (find as_validation e) [
      | some params ↦ titled "validation failed" 422 (to_job_invalid_params params)
      | none ↦ other_problem e
    ]

module _ (folding : Folding) where
  creation_failures :
      (between : UserRepo → UserRepo) (input : CreateUserInput) (r : UserRepo) (e : Failure)
      → (create_user (memory_users folding) between input r).1 ≡ err e
      → (e ≡ wrapped "email already exists" (sentinel conflict))
        ⊎ (e ≡ wrapped "save user" (sentinel conflict))
  unfolding create_user save_new UserRepo.save UserRepo.exists_by_email
  creation_failures between input r e h =
      elim (Bool-cases (has_email folding input.email r.users)) [
        | inl b ↦ inl (ground (arith, b, h))
        | inr b ↦ elim (Bool-cases (has_email folding input.email (between r).users)) [
          | inl c ↦ inr (ground (arith, b, c, h))
          | inr c ↦ ground (arith, b, c, h)
        ]
      ]

  -- Over the memory repository the one problem that a failed creation leaves on its job is a
  -- conflict, with the status 409, whatever other goroutines do to the users meanwhile.
  failed_creation :
      (between : UserRepo → UserRepo) (input : CreateUserInput) (r : UserRepo) (e : Failure)
      → (create_user (memory_users folding) between input r).1 ≡ err e
      → to_job_problem e ≡ titled "conflict" 409 []
  unfolding to_job_problem is find other_problem
  failed_creation between input r e h = elim (creation_failures between input r e h) [
    | inl k ↦ ap to_job_problem k
    | inr k ↦ ap to_job_problem k
  ]
