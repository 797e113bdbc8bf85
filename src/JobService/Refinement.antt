-- ===== src/JobService/Refinement.antt =====
-- The memory repository and the job service keep the contract of internal/service/jobRepository.go.

use go_max_tech_stack.JobService.{JobRepository, memory_repository}
use go_max_tech_stack.JobService.Contract.{Agrees, Contract, Store, cas, look_up}
use go_max_tech_stack.Entity.Job.{
  Job, JobTransition, fail, start, succeed, can_transition_job, job_transition_for, JobProblem,
  JobResult, JobTransitionSpec,
}
use go_max_tech_stack.JobRepo.{
  JobRepo, to_failed, to_running, to_succeeded, new_job_transition_conflict, bare_spec,
}
use go_max_tech_stack.Failure.Result.{Result, err, ok}
use go_max_tech_stack.Prelude.{
  refl, ℕ, ◌≡◌, Bool-cases, Option-cases, inl, inr, ◌∙◌, ◌⊎◌, ◌==◌, Bool, false, fun_ext,
  if◌then◌else◌, not, some, subst, true,
}
use go_max_tech_stack.Prelude.Assoc.{lookup, lookup-insert, insert}
use go_max_tech_stack.JobRepo.Shutdown.{lookup-fail_active}
use go_max_tech_stack.Failure.{Failure, job_not_found, sentinel}
use go_max_tech_stack.JobService
use go_max_tech_stack.JobRepo

abbrev pub memory_view : JobRepo → Store
memory_view r k = lookup k r.jobs

transition-Agrees :
    (id : ℕ) (i : JobTransition) (f : Job → Job) (r : JobRepo)
    → Agrees memory_view (JobRepo.transition id i f r) (cas id i f (memory_view r))
unfolding cas JobRepo.transition
transition-Agrees id i f r = elim (Option-cases (lookup id r.jobs)) [
  | inl e ↦ rw (e, JobRepo.transition, cas) record { outcome = refl; store = λ k. refl }
  | inr (job, e) ↦ elim (Option-cases (job_transition_for i)) [
    | inl e' ↦
        rw (e, JobRepo.transition, cas)
          (rw (e', JobRepo.transition, cas) (record { outcome = refl; store = λ k. refl }))
    | inr (spec, e') ↦
        rw (e, JobRepo.transition, cas)
          (rw (e', JobRepo.transition, cas) (decided job spec (can_transition_job job.status i)))
  ]
]
  where
    decided :
        (job : Job) (spec : JobTransitionSpec) (b : Bool)
        → let refusal = new_job_transition_conflict id job.status spec in
          Agrees memory_view
            (if not b
              then (r, err refusal)
              else (record r { jobs = insert id (f job) r.jobs }, ok tt))
            (if b
              then (λ k. if id == k then some (f job) else memory_view r k, ok tt)
              else (memory_view r, err refusal))
    decided job spec true = record {
      outcome = refl;
      store = λ k. lookup-insert id k (f job) r.jobs;
    }
    decided job spec false = record { outcome = refl; store = λ k. refl }

-- The memory repository implements the contract: seen as a map from ids to jobs, its look-up is
-- the map's, its three transitions are compare-and-set operations that name the same errors, and
-- its bulk repair fails exactly the active jobs.
pub memory_repository-Contract : Contract memory_repository memory_view
unfolding JobRepo.set_running JobRepo.set_succeeded JobRepo.set_failed JobRepo.get_by_id look_up
memory_repository-Contract = record {
  looks_up = λ id r. refl;
  runs = λ id r. transition-Agrees id start to_running r;
  succeeds = λ id res r. transition-Agrees id succeed (to_succeeded res) r;
  fails = λ id p r. transition-Agrees id fail (to_failed p) r;
  fails_active = λ p r k. lookup-fail_active p k r;
}

module _ {R : Type 0} (repo : JobRepository R) (v : R → Store) (c : Contract repo v) where
  -- The service either refuses, as the compare-and-set would at the state that it looked up, and
  -- changes nothing; or it passes the call on to the repository as others have left it by then.
  pub transition_guards :
      (between : R → R) (id : ℕ) (i : JobTransition) (f : Job → Job)
      (apply : R → R × Result (Unit {0})) (r : R)
      → let out = JobService.transition repo between id i apply r in
        ((e : Failure) × (out ≡ (r, err e)) × (cas id i f (v r) ≡ (v r, err e)))
        ⊎ (out ≡ apply (between r))
  unfolding JobService.transition cas look_up
  transition_guards between id i f apply r = elim (Option-cases (v r id)) [
    | inl e ↦
        let g : repo.get_by_id id r ≡ err (sentinel job_not_found) =
          c.looks_up id r ∙ rw (e, look_up) refl in
        inl (sentinel job_not_found, rw (g, JobService.transition) refl, rw (e, cas) refl)
    | inr (job, e) ↦
        let g : repo.get_by_id id r ≡ ok job = c.looks_up id r ∙ rw (e, look_up) refl in
        elim (Option-cases (job_transition_for i)) [
          | inl e' ↦ inl (
            new_job_transition_conflict id job.status (bare_spec i),
            rw (g, JobService.transition) (rw e' refl),
            rw (e, cas) (rw e' refl),
          )
          | inr (spec, e') ↦ elim (Bool-cases (can_transition_job job.status i)) [
            | inl ok' ↦ inr (rw (g, JobService.transition) (rw e' (rw ok' refl)))
            | inr no' ↦ inl (
              new_job_transition_conflict id job.status spec,
              rw (g, JobService.transition) (rw e' (rw no' refl)),
              rw (e, cas) (rw e' (rw no' refl)),
            )
          ]
        ]
  ]

  Agrees-undisturbed :
      (between : R → R) (id : ℕ) (i : JobTransition) (f : Job → Job)
      (apply : R → R × Result (Unit {0})) (r : R)
      → ((s : R) → Agrees v (apply s) (cas id i f (v s)))
      → ((k : ℕ) → v (between r) k ≡ v r k)
      → Agrees v (JobService.transition repo between id i apply r) (cas id i f (v r))
  Agrees-undisturbed between id i f apply r h quiet =
      elim (transition_guards between id i f apply r) [
        | inl (e, out, spec) ↦ rw (out, spec) record { outcome = refl; store = λ k. refl }
        | inr out ↦ rw out (
            subst (λ s. Agrees v (apply (between r)) (cas id i f s)) (fun_ext quiet)
              (h (between r)))
      ]

  -- In front of any repository that keeps the contract, the service's three transitions are the
  -- same compare-and-set operations, with the same errors, whenever nobody changes a job between
  -- the service's look-up and its call.
  pub service_refines :
      (between : R → R) (id : ℕ) (res : JobResult) (p : JobProblem) (r : R)
      → ((k : ℕ) → v (between r) k ≡ v r k)
      → Agrees v (JobService.set_running repo between id r) (cas id start to_running (v r))
        × Agrees v
            (JobService.set_succeeded repo between id res r)
            (cas id succeed (to_succeeded res) (v r))
        × Agrees v (JobService.set_failed repo between id p r) (cas id fail (to_failed p) (v r))
  unfolding JobService.set_running JobService.set_succeeded JobService.set_failed
  service_refines between id res p r quiet = (
    Agrees-undisturbed between id start to_running (repo.set_running id) r (c.runs id) quiet,
    Agrees-undisturbed between id succeed (to_succeeded res) (repo.set_succeeded id res) r
        (c.succeeds id res) quiet,
    Agrees-undisturbed between id fail (to_failed p) (repo.set_failed id p) r (c.fails id p) quiet,
  )
