-- ===== src/JobRepo/Step.antt =====
-- The calls that change the memory repository as one data type, and histories of calls.
use go_max_tech_stack.Prelude.{
  ℕ, List, [], ◌∷◌, Option-cases, inl, inr, Bool-cases, ◌≡◌, some, true,
}
use go_max_tech_stack.Entity.Job.{
  Job, JobProblem, JobResult, JobTransition, job_transition_for, can_transition_job,
}
use go_max_tech_stack.JobRepo.{
  JobRepo, save, delete, set_running, set_succeeded, set_failed, fail_active, transition,
}
use go_max_tech_stack.Failure.{Failure}
use go_max_tech_stack.Prelude.Assoc.{lookup, insert}
use go_max_tech_stack.Failure.Result.{Result, err, ok}

pub data Call : Type 0 where
  saves : Job → Call
  deletes : ℕ → Call
  starts : ℕ → Call
  succeeds : ℕ → JobResult → Call
  fails : ℕ → JobProblem → Call
  fails_active : JobProblem → Call

unfoldable pub step : JobRepo → Call → JobRepo
step r (saves job) = (save job r).0
step r (deletes id) = (delete id r).0
step r (starts id) = (set_running id r).0
step r (succeeds id res) = (set_succeeded id res r).0
step r (fails id p) = (set_failed id p r).0
step r (fails_active p) = (fail_active p r).0

unfoldable pub run : JobRepo → List Call → JobRepo
run r [] = r
run r (c ∷ cs) = run (step r c) cs

-- What a transition does: it refuses and leaves the repository alone, or it moves one job along.
pub data Moved (id : ℕ) (i : JobTransition) (f : Job → Job) (r : JobRepo)
    : JobRepo × Result (Unit {0}) → Type 0 where
  refused : (e : Failure) → Moved id i f r (r, err e)
  moved :
      (job : Job)
      → lookup id r.jobs ≡ some job
      → can_transition_job job.status i ≡ true
      → Moved id i f r (record r { jobs = insert id (f job) r.jobs }, ok tt)

pub transition-Moved :
    (id : ℕ) (i : JobTransition) (f : Job → Job) (r : JobRepo)
    → Moved id i f r (transition id i f r)
unfolding transition
transition-Moved id i f r = elim (Option-cases (lookup id r.jobs)) [
  | inl e ↦ rw (e, transition) (refused _)
  | inr (job, e) ↦ elim (Option-cases (job_transition_for i)) [
    | inl e' ↦ rw (e, transition) (rw (e', transition) (refused _))
    | inr (spec, e') ↦ elim (Bool-cases (can_transition_job job.status i)) [
      | inl c ↦ rw (e, transition) (rw (e', transition) (rw c (moved job e c)))
      | inr c ↦ rw (e, transition) (rw (e', transition) (rw c (refused _)))
    ]
  ]
]
