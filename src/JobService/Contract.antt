-- ===== src/JobService/Contract.antt =====
-- The contract of internal/service/jobRepository.go: a repository is a map from ids to jobs, and
-- the transition methods are compare-and-set operations on it.
use go_max_tech_stack.Prelude.{◌==◌, Option, if◌then◌else◌, none, some, ℕ, ◌≡◌}
use go_max_tech_stack.Entity.Job.{
  Job, JobProblem, JobResult, JobTransition, can_transition_job, fail, job_transition_for, start,
  succeed,
}
use go_max_tech_stack.JobService.{JobRepository}
use go_max_tech_stack.Failure.Result.{Result, err, ok}
use go_max_tech_stack.JobRepo.{
  bare_spec, new_job_transition_conflict, to_failed, to_running, to_succeeded,
}
use go_max_tech_stack.Failure.{job_not_found, sentinel}
use go_max_tech_stack.JobRepo.Shutdown.{map_option, repaired}

abbrev pub Store : Type 0
Store = ℕ → Option Job

-- A compare-and-set of one job, on the map: the result is the new map and the outcome.
unfoldable pub cas : ℕ → JobTransition → (Job → Job) → Store → Store × Result (Unit {0})
cas id i f store = elim (store id) [
  | none ↦ (store, err (sentinel job_not_found))
  | some job ↦ elim (job_transition_for i) [
    | none ↦ (store, err (new_job_transition_conflict id job.status (bare_spec i)))
    | some spec ↦
        if can_transition_job job.status i
        then (λ k. if id == k then some (f job) else store k, ok tt)
        else (store, err (new_job_transition_conflict id job.status spec))
  ]
]

unfoldable pub look_up : ℕ → Store → Result Job
look_up id store = elim (store id) [ none ↦ err (sentinel job_not_found) | some job ↦ ok job ]

-- A method's result, seen through the view, is what the specification says.
pub record Agrees {R : Type 0} (view : R → Store) (out : R × Result (Unit {0}))
    (spec : Store × Result (Unit {0})) : Type 0 where
  pub outcome : out.1 ≡ spec.1
  pub store : (k : ℕ) → view out.0 k ≡ spec.0 k

pub record Contract {R : Type 0} (repo : JobRepository R) (view : R → Store) : Type 0 where
  pub looks_up : (id : ℕ) (r : R) → repo.get_by_id id r ≡ look_up id (view r)
  pub runs :
      (id : ℕ) (r : R) → Agrees view (repo.set_running id r) (cas id start to_running (view r))
  pub succeeds :
      (id : ℕ) (res : JobResult) (r : R)
      → Agrees view (repo.set_succeeded id res r) (cas id succeed (to_succeeded res) (view r))
  pub fails :
      (id : ℕ) (p : JobProblem) (r : R)
      → Agrees view (repo.set_failed id p r) (cas id fail (to_failed p) (view r))
  pub fails_active :
      (p : JobProblem) (r : R) (k : ℕ)
      → view (repo.fail_active p r).0 k ≡ map_option (repaired p) (view r k)
