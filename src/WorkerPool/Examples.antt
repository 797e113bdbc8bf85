-- ===== src/WorkerPool/Examples.antt =====
-- An interleaving of two calls of `Stop` with two workers, and the theorems at it.
use go_max_tech_stack.WorkerPool.Steps.{Action, run, step, starts, calls, advances, ends, stop_step}
use go_max_tech_stack.WorkerPool.{
  Moment, start, new_worker_pool, settle_stopped_locked, worker_done, cancel, complete_once,
  repair_active_on_shutdown, returned, start_settled,
}
use go_max_tech_stack.WorkerPool.Safety.{initial, one_generation, repair_alone, Repairs}
use go_max_tech_stack.JobRepo.{JobRepo, fail_active, to_failed}
use go_max_tech_stack.JobRepo.Examples.{one_job}
use go_max_tech_stack.JobService.{memory_repository, shutdown_job_problem}
use go_max_tech_stack.Prelude.{
  ◌++◌, List, [], arith, none, pos, refl, some, true, ℕ, ◌∷◌, ◌≡◌, ◌≢◌, ◌⊎◌, false,
}
use go_max_tech_stack.Prelude.Assoc.{insert, lookup}
use go_max_tech_stack.WorkerPool.Invariant.{live_at, is_repaired}
use go_max_tech_stack.Failure.Result.{ok}
use go_max_tech_stack.UserRepo.Examples.{exact, two_users}
use go_max_tech_stack.Entity.User.{CreateUserInput}
use go_max_tech_stack.UserService.{create_user, memory_users}
use go_max_tech_stack.UserRepo.{UserRepo}
use go_max_tech_stack.WorkerPool.Item.{Others, World, process_item}
use go_max_tech_stack.WorkerPool.Ending.{Leaves, ending, last_event, process_item_ends}
use go_max_tech_stack.Entity.Job.{Job, queued, running, failed}
use go_max_tech_stack.Event.{event, nothing, problem}
use go_max_tech_stack.Queue.{WorkItem}
use go_max_tech_stack.JobRepo

abbrev unhurried : Moment
unhurried = record { expired = none; choose_done = true }

-- Two workers run, and two goroutines stop them.
abbrev halting : List (Action JobRepo)
halting =
    starts (pos 2)
    ∷ calls 0
    ∷ calls 1
    ∷ advances 0 unhurried
    ∷ advances 1 unhurried
    ∷ advances 0 unhurried
    ∷ ends 0
    ∷ []

-- The last worker ends, and both calls go on to the end.
abbrev halted : List (Action JobRepo)
halted =
    ends 0
    ∷ advances 0 unhurried
    ∷ advances 1 unhurried
    ∷ advances 1 unhurried
    ∷ advances 0 unhurried
    ∷ []

one_left : live_at (lookup 0 (run memory_repository halting (initial one_job)).pool.gens) ≡ 1
unfolding run step start settle_stopped_locked start_settled worker_done stop_step lookup insert
    new_worker_pool cancel
one_left = refl

one_left-live : live_at (lookup 0 (run memory_repository halting (initial one_job)).pool.gens) ≢ 0
one_left-live e = omega (arith, e, one_left)

one_generation_example :
    let here : ℕ = 0 in
    (here ≡ here) × ((run memory_repository halting (initial one_job)).pool.generation ≡ some 0)
one_generation_example =
    one_generation memory_repository halting one_job 0 0 one_left-live one_left-live

-- The first call is about to repair.
abbrev about_to_repair : List (Action JobRepo)
about_to_repair = halting ++ (ends 0 ∷ advances 0 unhurried ∷ [])

repair_alone_example :
    let s = run memory_repository about_to_repair (initial one_job) in
    ((step memory_repository (advances 0 unhurried) s).jobs ≡ s.jobs)
    ⊎ ((g : ℕ) × Repairs memory_repository g s (step memory_repository (advances 0 unhurried) s))
repair_alone_example = repair_alone memory_repository about_to_repair one_job 0 unhurried

repaired :
    is_repaired (lookup 0 (run memory_repository (halting ++ halted) (initial one_job)).pool.gens)
    ≡ true
unfolding run step start settle_stopped_locked start_settled worker_done stop_step lookup insert
    new_worker_pool cancel complete_once
repaired = refl

-- Both calls have returned, and the job that was queued is repaired once.
abbrev finished : List (Action JobRepo)
finished =
    halting ++ halted ++ (advances 1 unhurried ∷ advances 0 unhurried ∷ advances 1 unhurried ∷ [])

finished_state :
    lookup 0 (run memory_repository finished (initial one_job)).stops ≡ some (returned (ok tt))
unfolding run step start settle_stopped_locked start_settled worker_done stop_step lookup insert
    new_worker_pool cancel complete_once repair_active_on_shutdown JobRepo.fail_active
finished_state = refl

-- A job whose user has an email that is taken.
abbrev taken_input : CreateUserInput
taken_input = record { name = "Ann"; age = pos 31; email = "ann@x.org" }

-- The first job is queued, and nobody else is at work.
abbrev quiet : Others JobRepo UserRepo
quiet = record { in_start = λ r. r; in_create = λ u. u; before_end = λ r. r; in_end = λ r. r }

quiet-Leaves : Leaves 1 quiet
quiet-Leaves = record { at_start = λ r. refl; before_end = λ r. refl; at_end = λ r. refl }

abbrev world : World JobRepo UserRepo
world = record {
  jobs = one_job;
  users = two_users;
  published = [];
  observer = record { queued = 1; running = 0; succeeded = 0; failed = 0 };
}

abbrev waiting_job : Job
waiting_job = record { id = 1; status = queued; result = none; error = none; owner_user_id = 7 }

one_job_waits : lookup 1 one_job.jobs ≡ some waiting_job
unfolding lookup
one_job_waits = refl

abbrev taken_item : WorkItem
taken_item = record { job_id = 1; payload = taken_input }

process_item_ends_example :
    let created = create_user (memory_users exact) quiet.in_create taken_input two_users in
    let (live, on) =
      process_item memory_repository (memory_users exact) quiet false taken_item world in
    let (cut, on') =
      process_item memory_repository (memory_users exact) quiet true taken_item world in
    (lookup 1 live.jobs.jobs
      ≡ some (ending (memory_users exact) quiet 1 quiet-Leaves created.1 waiting_job))
    × (live.published
        ≡ event running 1 nothing
          ∷ last_event (memory_users exact) quiet 1 quiet-Leaves created.1
          ∷ [])
    × (live.users ≡ created.0)
    × (on ≡ true)
    × (lookup 1 cut.jobs.jobs ≡ some (to_failed shutdown_job_problem waiting_job))
    × (cut.published ≡ event failed 1 (problem shutdown_job_problem) ∷ [])
    × (cut.users ≡ two_users)
    × (on' ≡ false)
process_item_ends_example =
    process_item_ends (memory_users exact) quiet 1 quiet-Leaves taken_input world waiting_job
      one_job_waits refl
