-- ===== src/JobService/Examples.antt =====
-- The contract's theorems at the memory repository.
use go_max_tech_stack.JobService
use go_max_tech_stack.JobRepo.{JobRepo, to_running, to_failed, to_succeeded}
use go_max_tech_stack.JobService.{
  memory_repository, shutdown_job_problem, set_failed, set_running, set_succeeded,
}
use go_max_tech_stack.JobService.Contract.{Agrees, cas}
use go_max_tech_stack.Entity.Job.{JobResult, fail, queued, start, succeed}
use go_max_tech_stack.Prelude.{[], none, refl, ◌∷◌}
use go_max_tech_stack.JobService.Refinement.{
  memory_repository-Contract, memory_view, service_refines,
}

abbrev waiting : JobRepo
waiting = record {
  jobs =
      (1, record { id = 1; status = queued; result = none; error = none; owner_user_id = 7 }) ∷ [];
  next_id = 2;
}

abbrev five : JobResult
five = record { user_id = 5 }

service_refines_example :
    let v = memory_view in
    let id = λ (r : JobRepo). r in
    Agrees v
      (JobService.set_running memory_repository id 1 waiting)
      (cas 1 start to_running (v waiting))
    × Agrees v
        (JobService.set_succeeded memory_repository id 1 five waiting)
        (cas 1 succeed (to_succeeded five) (v waiting))
    × Agrees v
        (JobService.set_failed memory_repository id 1 shutdown_job_problem waiting)
        (cas 1 fail (to_failed shutdown_job_problem) (v waiting))
service_refines_example =
    service_refines memory_repository memory_view memory_repository-Contract (λ r. r) 1 five
      shutdown_job_problem waiting (λ k. refl)
