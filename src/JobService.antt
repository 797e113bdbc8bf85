-- ===== src/JobService.antt =====
-- internal/service/jobRepository.go and internal/service/jobService.go: the interface of a job
-- repository, and the service in front of one. Between its look-up and its call the service holds
-- no lock, so other goroutines may change the repository there: `between` is what they do.
-- `JobService.Contract` states what the interface promises, `JobService.Refinement` proves that
-- the memory repository and the service keep it.
use go_max_tech_stack.JobRepo
use go_max_tech_stack.JobRepo.{JobRepo, new_job_transition_conflict, bare_spec}
use go_max_tech_stack.Entity.Job.{
  Job, JobProblem, JobResult, JobTransition, can_transition_job, fail, job_transition_for, start,
  succeed,
}
use go_max_tech_stack.Prelude.{List, [], if◌then◌else◌, none, not, some, ℕ}
use go_max_tech_stack.Failure.Result.{Result, err, ok}
pub mod Contract
pub mod Refinement
mod Examples

pub record JobRepository (R : Type 0) : Type 0 where
  pub get_all : R → Result (List Job)
  pub get_by_id : ℕ → R → Result Job
  pub save : Job → R → R × Result Job
  pub delete : ℕ → R → R × Result (Unit {0})
  pub set_running : ℕ → R → R × Result (Unit {0})
  pub set_succeeded : ℕ → JobResult → R → R × Result (Unit {0})
  pub set_failed : ℕ → JobProblem → R → R × Result (Unit {0})
  pub fail_active : JobProblem → R → R × Result ℕ

abbrev pub memory_repository : JobRepository JobRepo
memory_repository = record {
  get_all = JobRepo.get_all;
  get_by_id = JobRepo.get_by_id;
  save = JobRepo.save;
  delete = JobRepo.delete;
  set_running = JobRepo.set_running;
  set_succeeded = JobRepo.set_succeeded;
  set_failed = JobRepo.set_failed;
  fail_active = JobRepo.fail_active;
}

unfoldable pub shutdown_job_problem : JobProblem
shutdown_job_problem = record {
  type = "";
  title = "service unavailable";
  status = 503;
  detail = "job canceled: server shutting down";
  instance_uri = "";
  request_id = "";
  invalid_params = [];
}

module _ {R : Type 0} (repo : JobRepository R) where
  unfoldable pub save : Job → R → R × Result Job
  save = repo.save

  unfoldable pub delete : ℕ → R → R × Result (Unit {0})
  delete = repo.delete

  unfoldable pub get_all : R → Result (List Job)
  get_all = repo.get_all

  unfoldable pub get_by_id : ℕ → R → Result Job
  get_by_id = repo.get_by_id

  unfoldable pub transition :
      (R → R) → ℕ → JobTransition → (R → R × Result (Unit {0})) → R → R × Result (Unit {0})
  transition between id intent apply r = elim (repo.get_by_id id r) [
    | err e ↦ (r, err e)
    | ok job ↦ elim (job_transition_for intent) [
      | none ↦ (r, err (new_job_transition_conflict id job.status (bare_spec intent)))
      | some spec ↦
          if not (can_transition_job job.status intent)
          then (r, err (new_job_transition_conflict id job.status spec))
          else apply (between r)
    ]
  ]

  unfoldable pub set_running : (R → R) → ℕ → R → R × Result (Unit {0})
  unfolding transition
  set_running between id = transition between id start (repo.set_running id)

  unfoldable pub set_succeeded : (R → R) → ℕ → JobResult → R → R × Result (Unit {0})
  unfolding transition
  set_succeeded between id res = transition between id succeed (repo.set_succeeded id res)

  unfoldable pub set_failed : (R → R) → ℕ → JobProblem → R → R × Result (Unit {0})
  unfolding transition
  set_failed between id p = transition between id fail (repo.set_failed id p)

  unfoldable pub fail_active_on_shutdown : R → R × Result ℕ
  fail_active_on_shutdown = repo.fail_active shutdown_job_problem
