-- ===== src/WorkerPool/Item.antt =====
-- What a worker of internal/workerpool/workerpool.go does with one item. The calls of
-- `eventHub.Publish`, which neither block nor fail, are the list `published`. `Others` is what other
-- goroutines do to the repositories at the moments when this one holds no lock of theirs.
use go_max_tech_stack.JobService
use go_max_tech_stack.JobService.{
  JobRepository, shutdown_job_problem, set_failed, set_running, set_succeeded,
}
use go_max_tech_stack.UserService.{UserRepository, create_user}
use go_max_tech_stack.Queue.{WorkItem}
use go_max_tech_stack.Event.{Event, event, JobsObserver, problem, nothing, result}
use go_max_tech_stack.WorkerPool.Problem.{to_job_problem}
use go_max_tech_stack.Failure.Result.{Result, ok, err}
use go_max_tech_stack.Entity.Job.{JobProblem, JobResult, running, succeeded, failed}
use go_max_tech_stack.Prelude.{◌+◌, ◌++◌, Bool, List, [], false, true, ℕ, ◌∷◌}

pub record World (R U : Type 0) : Type 0 where
  pub jobs : R
  pub users : U
  pub published : List Event
  pub observer : JobsObserver

pub record Others (R U : Type 0) : Type 0 where
  pub in_start : R → R
  pub in_create : U → U
  pub before_end : R → R
  pub in_end : R → R

module _ {R U : Type 0} (repo : JobRepository R) (users : UserRepository U)
    (others : Others R U) where
  abbrev publish : Event → World R U → World R U
  publish e w = record w { published = w.published ++ (e ∷ []) }

  unfoldable pub mark_job_failed : ℕ → JobProblem → World R U → World R U × Result (Unit {0})
  mark_job_failed id p w =
      let (jobs', out) = JobService.set_failed repo others.in_end id p (others.before_end w.jobs) in
      elim out [
        | err e ↦ (record w { jobs = jobs' }, err e)
        | ok u ↦ (publish (event failed id (problem p)) (record w { jobs = jobs' }), ok tt)
      ]

  abbrev inc_failed : World R U → World R U
  inc_failed w = record w {
    observer = record {
      queued = w.observer.queued;
      running = w.observer.running;
      succeeded = w.observer.succeeded;
      failed = w.observer.failed + 1;
    };
  }

  abbrev inc_running : World R U → World R U
  inc_running w = record w {
    observer = record {
      queued = w.observer.queued;
      running = w.observer.running + 1;
      succeeded = w.observer.succeeded;
      failed = w.observer.failed;
    };
  }

  abbrev inc_succeeded : World R U → World R U
  inc_succeeded w = record w {
    observer = record {
      queued = w.observer.queued;
      running = w.observer.running;
      succeeded = w.observer.succeeded + 1;
      failed = w.observer.failed;
    };
  }

  -- `SetRunning`, with what follows its success.
  unfoldable pub begin_item : WorkItem → World R U → World R U × Result (Unit {0})
  begin_item item w =
      let (jobs', out) = JobService.set_running repo others.in_start item.job_id w.jobs in
      elim out [
        | err e ↦ (record w { jobs = jobs' }, err e)
        | ok u ↦ (
          publish (event running item.job_id nothing) (inc_running (record w { jobs = jobs' })),
          ok tt,
        )
      ]

  -- The end of an item whose user is there, and of one whose user could not be created.
  unfoldable pub succeed_item : ℕ → JobResult → World R U → World R U
  succeed_item id res w =
      let (jobs', out) =
        JobService.set_succeeded repo others.in_end id res (others.before_end w.jobs) in
      elim out [
        | err e ↦ record w { jobs = jobs' }
        | ok u ↦
            publish (event succeeded id (result res)) (inc_succeeded (record w { jobs = jobs' }))
      ]

  unfoldable pub fail_item : ℕ → JobProblem → World R U → World R U
  fail_item id p w =
      let (w', out) = mark_job_failed id p w in elim out [ err e ↦ w' | ok u ↦ inc_failed w' ]

  unfoldable pub run_item : WorkItem → World R U → World R U
  run_item item w =
      let (users', out) = create_user users others.in_create item.payload w.users in
      let w' : World R U = record w { users = users' } in
      elim out [
        | err e ↦ fail_item item.job_id (to_job_problem e) w'
        | ok user ↦ succeed_item item.job_id (record { user_id = user.id }) w'
      ]

  -- An item that has been received: `cancelled` is whether the worker's context has ended by then.
  -- The second result is whether the loop goes on.
  unfoldable pub process_item : Bool → WorkItem → World R U → World R U × Bool
  process_item cancelled item w = elim cancelled [
    | true ↦ ((mark_job_failed item.job_id shutdown_job_problem w).0, false)
    | false ↦
        let (w', out) = begin_item item w in
        elim out [ err e ↦ (w', true) | ok u ↦ (run_item item w', true) ]
  ]
