-- ===== src/JobRepo/Shutdown.antt =====
-- FailActive of internal/store/jobrepo/memory_job_repo.go: the repair of what a shutdown leaves.
use go_max_tech_stack.Prelude.{
  ◌&&◌, List, Option, [], ap, arith, if◌then◌else◌, none, not, refl, some, ◌||◌, ℕ, ◌∷◌, ◌≡◌,
}
use go_max_tech_stack.Entity.Job.{Job, JobProblem, queued, running, status_eq}
use go_max_tech_stack.JobRepo.{JobRepo, fail_active, fail_entries, to_failed}
use go_max_tech_stack.Prelude.Assoc.{lookup, weight}
use go_max_tech_stack.Failure.Result.{ok}

-- What the loop does to one job.
abbrev pub repaired : JobProblem → Job → Job
unfolding status_eq
repaired p job =
    if not (status_eq job.status queued) && not (status_eq job.status running)
    then job
    else to_failed p job

abbrev pub map_option : (Job → Job) → Option Job → Option Job
map_option f none = none
map_option f (some job) = some (f job)

lookup-fail_entries :
    (p : JobProblem) (k : ℕ) (m : List (ℕ × Job))
    → lookup k (fail_entries p m).0 ≡ map_option (repaired p) (lookup k m)
unfolding fail_entries lookup
lookup-fail_entries p k [] = refl
lookup-fail_entries p k ((j, job) ∷ m) = ground (arith, lookup-fail_entries p k m)

pub lookup-fail_active :
    (p : JobProblem) (k : ℕ) (r : JobRepo)
    → lookup k (fail_active p r).0.jobs ≡ map_option (repaired p) (lookup k r.jobs)
unfolding fail_active
lookup-fail_active p k r = lookup-fail_entries p k r.jobs

-- 1 for a job that is queued or running.
abbrev pub active : Job → ℕ
unfolding status_eq
active job = if status_eq job.status queued || status_eq job.status running then 1 else 0

fail_entries-weight :
    (p : JobProblem) (m : List (ℕ × Job))
    → (weight active (fail_entries p m).0 ≡ 0) × ((fail_entries p m).1 ≡ weight active m)
unfolding fail_entries weight status_eq
fail_entries-weight p [] = (refl, refl)
fail_entries-weight p ((k, record_job) ∷ m) = ground (arith, fail_entries-weight p m)

-- The repair never fails, leaves no job queued or running, reports how many there were, marks each
-- of those as failed with the given problem, and leaves every other job as it was.
pub fail_active_repairs :
    (p : JobProblem) (r : JobRepo)
    → let (r', outcome) = fail_active p r in
      (outcome ≡ ok (weight active r.jobs))
      × (weight active r'.jobs ≡ 0)
      × ((k : ℕ) → lookup k r'.jobs ≡ map_option (repaired p) (lookup k r.jobs))
unfolding fail_active
fail_active_repairs p r = (
  ap ok (fail_entries-weight p r.jobs).1,
  (fail_entries-weight p r.jobs).0,
  λ k. lookup-fail_entries p k r.jobs,
)
