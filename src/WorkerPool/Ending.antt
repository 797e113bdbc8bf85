-- ===== src/WorkerPool/Ending.antt =====
-- How the job of an item of internal/workerpool/workerpool.go ends, over the memory repositories.
use go_max_tech_stack.JobService
use go_max_tech_stack.JobService.{memory_repository, shutdown_job_problem}
use go_max_tech_stack.JobRepo.{JobRepo, to_running, to_succeeded, to_failed}
use go_max_tech_stack.Prelude.Assoc.{lookup, insert, lookup-insert}
use go_max_tech_stack.Entity.Job.{
  Job, JobTransition, JobTransitionSpec, can_transition_job, job_transition_for, JobProblem, fail,
  failed, JobResult, allowed_from, queued, running, start, status_eq, succeed, succeeded, JobStatus,
}
use go_max_tech_stack.Failure.Result.{ok, Result, err}
use go_max_tech_stack.Prelude.{
  refl, some, true, ℕ, ◌≡◌, ◌++◌, [], if-==, ◌∙◌, ◌∷◌, false, inl, inr, ◌⊎◌, ap, append_assoc,
}
use go_max_tech_stack.WorkerPool.Item.{
  Others, World, mark_job_failed, begin_item, fail_item, succeed_item, run_item, process_item,
}
use go_max_tech_stack.UserService.{UserRepository, create_user}
use go_max_tech_stack.Event.{Event, event, problem, nothing, result}
use go_max_tech_stack.Queue.{WorkItem}
use go_max_tech_stack.Entity.User.{CreateUserInput, UserDto}
use go_max_tech_stack.WorkerPool.Problem.{to_job_problem}
use go_max_tech_stack.JobRepo

-- A transition that the job's status allows goes through, if others leave the job alone meanwhile.
transition-moved :
    (between : JobRepo → JobRepo) (id : ℕ) (i : JobTransition) (f : Job → Job) (r : JobRepo)
    (job : Job) (spec : JobTransitionSpec)
    → lookup id r.jobs ≡ some job
    → lookup id (between r).jobs ≡ some job
    → job_transition_for i ≡ some spec
    → can_transition_job job.status i ≡ true
    → JobService.transition memory_repository between id i (JobRepo.transition id i f) r
      ≡ (record (between r) { jobs = insert id (f job) (between r).jobs }, ok tt)
unfolding JobService.transition JobRepo.transition JobRepo.get_by_id
transition-moved between id i f r job spec e e' s c =
    rw (e, JobService.transition) (rw (s, c) (rw (e', JobRepo.transition) (rw (s, c) refl)))

-- The three calls of the service that a worker makes.
module _ (between : JobRepo → JobRepo) (id : ℕ) (r : JobRepo) (job : Job)
    (e : lookup id r.jobs ≡ some job) (quiet : lookup id (between r).jobs ≡ lookup id r.jobs) where
  set_running-moved :
      job.status ≡ queued
      → JobService.set_running memory_repository between id r
        ≡ (record (between r) { jobs = insert id (to_running job) (between r).jobs }, ok tt)
  unfolding JobService.set_running JobRepo.set_running job_transition_for can_transition_job
      allowed_from status_eq
  set_running-moved q =
      transition-moved between id start to_running r job _ e (quiet ∙ e) refl (rw q refl)

  set_succeeded-moved :
      (res : JobResult)
      → job.status ≡ running
      → JobService.set_succeeded memory_repository between id res r
        ≡ (record (between r) { jobs = insert id (to_succeeded res job) (between r).jobs }, ok tt)
  unfolding JobService.set_succeeded JobRepo.set_succeeded job_transition_for can_transition_job
      allowed_from status_eq
  set_succeeded-moved res q =
      transition-moved between id succeed (to_succeeded res) r job _ e (quiet ∙ e) refl (rw q refl)

  set_failed-moved :
      (p : JobProblem)
      → can_transition_job job.status fail ≡ true
      → JobService.set_failed memory_repository between id p r
        ≡ (record (between r) { jobs = insert id (to_failed p job) (between r).jobs }, ok tt)
  unfolding JobService.set_failed JobRepo.set_failed job_transition_for
  set_failed-moved p c = transition-moved between id fail (to_failed p) r job _ e (quiet ∙ e) refl c

-- The other goroutines leave one job alone.
pub record Leaves {U : Type 0} (id : ℕ) (others : Others JobRepo U) : Type 0 where
  pub at_start : (r : JobRepo) → lookup id (others.in_start r).jobs ≡ lookup id r.jobs
  pub before_end : (r : JobRepo) → lookup id (others.before_end r).jobs ≡ lookup id r.jobs
  pub at_end : (r : JobRepo) → lookup id (others.in_end r).jobs ≡ lookup id r.jobs

-- What a piece leaves of the job, and the event that it publishes last.
pub record Leads {U : Type 0} (id : ℕ) (job : Job) (e : Event) (w w' : World JobRepo U)
    : Type 0 where
  pub found : lookup id w'.jobs.jobs ≡ some job
  pub told : w'.published ≡ w.published ++ (e ∷ [])
  pub users : w'.users ≡ w.users

pub lookup-insert_self :
    (id : ℕ) (job : Job) (r : JobRepo) → lookup id (insert id job r.jobs) ≡ some job
lookup-insert_self id job r =
    lookup-insert id id job r.jobs ∙ if-== id (some job) (lookup id r.jobs)

can_fail :
    (status : JobStatus)
    → (status ≡ queued) ⊎ (status ≡ running)
    → can_transition_job status fail ≡ true
unfolding can_transition_job job_transition_for allowed_from status_eq
can_fail status (inl e) = rw e refl
can_fail status (inr e) = rw e refl

module _ {U : Type 0} (users : UserRepository U) (others : Others JobRepo U) (id : ℕ)
    (leaves : Leaves id others) where
  mark_job_failed-Leads :
      (p : JobProblem) (w : World JobRepo U) (job : Job)
      → lookup id w.jobs.jobs ≡ some job
      → can_transition_job job.status fail ≡ true
      → let out = mark_job_failed memory_repository users others id p w in
        Leads id (to_failed p job) (event failed id (problem p)) w out.0 × (out.1 ≡ ok tt)
  unfolding mark_job_failed
  mark_job_failed-Leads p w job e c =
      let r = others.before_end w.jobs in
      let moved =
        set_failed-moved others.in_end id r job (leaves.before_end w.jobs ∙ e) (leaves.at_end r) p
          c in
      rw (moved, mark_job_failed)
        (rw moved (
          record {
            found = lookup-insert_self id (to_failed p job) (others.in_end r);
            told = refl;
            users = refl;
          },
          refl,
        ))

  begin_item-Leads :
      (payload : CreateUserInput) (w : World JobRepo U) (job : Job)
      → lookup id w.jobs.jobs ≡ some job
      → job.status ≡ queued
      → let out =
          begin_item memory_repository users others (record { job_id = id; payload = payload }) w in
        Leads id (to_running job) (event running id nothing) w out.0 × (out.1 ≡ ok tt)
  unfolding begin_item
  begin_item-Leads payload w job e q =
      let moved = set_running-moved others.in_start id w.jobs job e (leaves.at_start w.jobs) q in
      rw (moved, begin_item)
        (rw moved (
          record {
            found = lookup-insert_self id (to_running job) (others.in_start w.jobs);
            told = refl;
            users = refl;
          },
          refl,
        ))

  succeed_item-Leads :
      (res : JobResult) (w : World JobRepo U) (job : Job)
      → lookup id w.jobs.jobs ≡ some job
      → job.status ≡ running
      → Leads id
          (to_succeeded res job)
          (event succeeded id (result res))
          w
          (succeed_item memory_repository users others id res w)
  unfolding succeed_item
  succeed_item-Leads res w job e q =
      let r = others.before_end w.jobs in
      let moved =
        set_succeeded-moved others.in_end id r job (leaves.before_end w.jobs ∙ e) (leaves.at_end r)
          res q in
      rw (moved, succeed_item)
        (rw moved record {
          found = lookup-insert_self id (to_succeeded res job) (others.in_end r);
          told = refl;
          users = refl;
        })

  fail_item-Leads :
      (p : JobProblem) (w : World JobRepo U) (job : Job)
      → lookup id w.jobs.jobs ≡ some job
      → can_transition_job job.status fail ≡ true
      → Leads id
          (to_failed p job)
          (event failed id (problem p))
          w
          (fail_item memory_repository users others id p w)
  unfolding fail_item
  fail_item-Leads p w job e c =
      let led = mark_job_failed-Leads p w job e c in
      rw (led.1, fail_item) (record { found = led.0.found; told = led.0.told; users = led.0.users })

  -- How a queued job ends, by what the creation of its user answers.
  abbrev pub ending : Result UserDto → Job → Job
  ending (ok user) job = to_succeeded (record { user_id = user.id }) (to_running job)
  ending (err e) job = to_failed (to_job_problem e) (to_running job)

  abbrev pub last_event : Result UserDto → Event
  last_event (ok user) = event succeeded id (result (record { user_id = user.id }))
  last_event (err e) = event failed id (problem (to_job_problem e))

  run_item-Leads :
      (payload : CreateUserInput) (w : World JobRepo U) (job : Job)
      → lookup id w.jobs.jobs ≡ some (to_running job)
      → let created = create_user users others.in_create payload w.users in
        let out =
          run_item memory_repository users others (record { job_id = id; payload = payload }) w in
        (lookup id out.jobs.jobs ≡ some (ending created.1 job))
        × (out.published ≡ w.published ++ (last_event created.1 ∷ []))
        × (out.users ≡ created.0)
  unfolding run_item
  run_item-Leads payload w job e = end_with (create_user users others.in_create payload w.users)
    where
      end_with :
          (created : U × Result UserDto)
          → let w' : World JobRepo U = record w { users = created.0 } in
            let out : World JobRepo U = elim created.1 [
              | err e ↦ fail_item memory_repository users others id (to_job_problem e) w'
              | ok user ↦
                  succeed_item memory_repository users others id (record { user_id = user.id }) w'
            ] in
            (lookup id out.jobs.jobs ≡ some (ending created.1 job))
            × (out.published ≡ w.published ++ (last_event created.1 ∷ []))
            × (out.users ≡ created.0)
      end_with (us, ok user) =
          let led =
            succeed_item-Leads (record { user_id = user.id }) (record w { users = us })
              (to_running job) e refl in
          (led.found, led.told, led.users)
      end_with (us, err x) =
          let led =
            fail_item-Leads (to_job_problem x) (record w { users = us }) (to_running job) e
              (can_fail running (inr refl)) in
          (led.found, led.told, led.users)

  -- An item whose job is queued is brought to its end, over the memory repository of jobs and any
  -- repository of users, as long as others leave that job alone: the job ends succeeded with the id
  -- of the created user, or failed with the problem of the creation's error, its two events are
  -- published in order, and the worker goes on. If the worker's context has ended when it receives
  -- the item, the job ends failed with the shutdown problem, no user is created, and the worker
  -- leaves its loop.
  pub process_item_ends :
      (payload : CreateUserInput) (w : World JobRepo U) (job : Job)
      → lookup id w.jobs.jobs ≡ some job
      → job.status ≡ queued
      → let item : WorkItem = record { job_id = id; payload = payload } in
        let created = create_user users others.in_create payload w.users in
        let (live, on) = process_item memory_repository users others false item w in
        let (cut, on') = process_item memory_repository users others true item w in
        (lookup id live.jobs.jobs ≡ some (ending created.1 job))
        × (live.published ≡ w.published ++ (event running id nothing ∷ last_event created.1 ∷ []))
        × (live.users ≡ created.0)
        × (on ≡ true)
        × (lookup id cut.jobs.jobs ≡ some (to_failed shutdown_job_problem job))
        × (cut.published ≡ w.published ++ (event failed id (problem shutdown_job_problem) ∷ []))
        × (cut.users ≡ w.users)
        × (on' ≡ false)
  unfolding process_item
  process_item_ends payload w job e q =
      let begun = begin_item-Leads payload w job e q in
      let w' =
        (begin_item memory_repository users others (record { job_id = id; payload = payload })
          w).0 in
      let ran = run_item-Leads payload w' job begun.0.found in
      let cut = mark_job_failed-Leads shutdown_job_problem w job e (can_fail job.status (inl q)) in
      let users_then = ap (λ us. create_user users others.in_create payload us) begun.0.users in
      rw (begun.1, process_item)
        (
          ran.0 ∙ ap (λ c. some (ending c.1 job)) users_then,
          ran.1 ∙ (rw (begun.0.told, users_then) (append_assoc w.published _ _)),
          ran.2 ∙ ap (λ c. c.0) users_then,
          refl,
          cut.0.found,
          cut.0.told,
          cut.0.users,
          refl,
        )
