-- ===== src/JobRepo.antt =====
-- internal/store/jobrepo/memory_job_repo.go: the jobs in memory, behind a lock. Each method holds
-- the lock from its first line to its last, so it is one step here. A stored job is a copy of the
-- caller's (`cloneJob`), which a value of a record is by itself.
-- `JobRepo.Step` are the calls as one relation, `JobRepo.Invariant` the well-formedness,
-- `JobRepo.Lifecycle` what a call does to each job, `JobRepo.Shutdown` the bulk repair,
-- `JobRepo.Ids` the ids that `Save` gives out.
use go_max_tech_stack.Prelude.{
  ℕ, ◌+◌, suc, String, Bool, true, false, not, ◌&&◌, Option, none, some, List, [], ◌∷◌, map, ◌==◌,
  if◌then◌else◌, u64,
}
use go_max_tech_stack.Prelude.Assoc.{lookup, insert, remove}
use go_max_tech_stack.Entity.Job.{
  JobStatus, queued, running, succeeded, failed, other, status_eq, JobTransition, start, succeed,
  fail, JobTransitionSpec, job_transition_for, can_transition_job, JobProblem, JobResult, Job,
}
use go_max_tech_stack.Failure.{Failure, sentinel, job_not_found, transition_conflict}
use go_max_tech_stack.Failure.Result.{Result, ok, err}
pub mod Step
pub mod Invariant
pub mod Lifecycle
pub mod Shutdown
pub mod Ids
pub mod Examples

pub record JobRepo : Type 0 where
  pub jobs : List (ℕ × Job)
  pub next_id : ℕ

unfoldable pub new_memory_job_repository : JobRepo
new_memory_job_repository = record { jobs = []; next_id = 1 }

-- `Save` writes the id that it picks into the caller's job, which is the second result.
unfoldable pub save : Job → JobRepo → JobRepo × Result Job
save job r =
    if job.id == 0
    then (
      record r {
        jobs = insert r.next_id (record job { id = r.next_id }) r.jobs;
        next_id = u64 (r.next_id + 1);
      },
      ok (record job { id = r.next_id }),
    )
    else (record r { jobs = insert job.id job r.jobs }, ok job)

abbrev values : List (ℕ × Job) → List Job
values = map (λ e. e.1)

unfoldable pub get_all : JobRepo → Result (List Job)
get_all r = ok (values r.jobs)

unfoldable pub get_by_id : ℕ → JobRepo → Result Job
get_by_id id r = elim (lookup id r.jobs) [ none ↦ err (sentinel job_not_found) | some j ↦ ok j ]

unfoldable pub delete : ℕ → JobRepo → JobRepo × Result (Unit {0})
delete id r = elim (lookup id r.jobs) [
  | none ↦ (r, err (sentinel job_not_found))
  | some j ↦ (record r { jobs = remove id r.jobs }, ok tt)
]

-- NewJobTransitionConflict.
abbrev pub new_job_transition_conflict : ℕ → JobStatus → JobTransitionSpec → Failure
new_job_transition_conflict id from spec = transition_conflict id from spec.to spec.intent

-- `JobTransitionSpec{Intent: intent}`: the other fields have Go's zero values.
abbrev pub bare_spec : JobTransition → JobTransitionSpec
bare_spec intent = record { intent = intent; from = []; to = other "" }

unfoldable pub transition : ℕ → JobTransition → (Job → Job) → JobRepo → JobRepo × Result (Unit {0})
transition id intent apply r = elim (lookup id r.jobs) [
  | none ↦ (r, err (sentinel job_not_found))
  | some job ↦ elim (job_transition_for intent) [
    | none ↦ (r, err (new_job_transition_conflict id job.status (bare_spec intent)))
    | some spec ↦
        if not (can_transition_job job.status intent)
        then (r, err (new_job_transition_conflict id job.status spec))
        else (record r { jobs = insert id (apply job) r.jobs }, ok tt)
  ]
]

abbrev pub to_running : Job → Job
to_running job = record job { status = running; result = none; error = none }

abbrev pub to_succeeded : JobResult → Job → Job
to_succeeded res job = record job { status = succeeded; result = some res; error = none }

abbrev pub to_failed : JobProblem → Job → Job
to_failed p job = record job { status = failed; error = some p; result = none }

unfoldable pub set_running : ℕ → JobRepo → JobRepo × Result (Unit {0})
unfolding transition
set_running id = transition id start to_running

unfoldable pub set_succeeded : ℕ → JobResult → JobRepo → JobRepo × Result (Unit {0})
unfolding transition
set_succeeded id res = transition id succeed (to_succeeded res)

unfoldable pub set_failed : ℕ → JobProblem → JobRepo → JobRepo × Result (Unit {0})
unfolding transition
set_failed id p = transition id fail (to_failed p)

-- The loop of `FailActive` over the entries of the map, with the count of those that it fails.
unfoldable pub fail_entries : JobProblem → List (ℕ × Job) → List (ℕ × Job) × ℕ
unfolding status_eq
fail_entries p [] = ([], 0)
fail_entries p ((k, job) ∷ rest) =
    let (rest', failed_count) = fail_entries p rest in
    if not (status_eq job.status queued) && not (status_eq job.status running)
    then ((k, job) ∷ rest', failed_count)
    else ((k, to_failed p job) ∷ rest', suc failed_count)

unfoldable pub fail_active : JobProblem → JobRepo → JobRepo × Result ℕ
unfolding fail_entries
fail_active p r =
    let (jobs', count) = fail_entries p r.jobs in (record r { jobs = jobs' }, ok count)
