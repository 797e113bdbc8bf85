-- ===== src/JobRepo/Examples.antt =====
-- Runs of the memory repository, and its theorems at them.
use go_max_tech_stack.Prelude.{List, [], arith, none, refl, some, ◌∷◌, ◌≡◌}
use go_max_tech_stack.JobRepo.Lifecycle.{Lived, run-Lived}
use go_max_tech_stack.JobRepo.Step.{Call, fails, fails_active, run, saves, starts, step, succeeds}
use go_max_tech_stack.JobRepo.Invariant.{IsNew, IsValid, step-IsValid}
use go_max_tech_stack.Entity.Job.{Job, JobProblem, can_transition_job, queued, succeeded}
use go_max_tech_stack.JobRepo.{
  JobRepo, fail_active, new_memory_job_repository, save, set_failed, set_running, set_succeeded,
}
use go_max_tech_stack.JobRepo.Shutdown.{active, fail_active_repairs}
use go_max_tech_stack.Prelude.Assoc.{insert, lookup, weight}
use go_max_tech_stack.Failure.Result.{ok}

abbrev fresh_job : Job
fresh_job = record { id = 0; status = queued; result = none; error = none; owner_user_id = 7 }

abbrev shutdown : JobProblem
shutdown = record {
  type = "";
  title = "service unavailable";
  status = 503;
  detail = "shutdown";
  instance_uri = "";
  request_id = "";
  invalid_params = [];
}

abbrev pub one_job : JobRepo
one_job = record { jobs = (1, record fresh_job { id = 1 }) ∷ []; next_id = 2 }

one_job_saved : (save fresh_job new_memory_job_repository).0 ≡ one_job
unfolding save new_memory_job_repository insert
one_job_saved = refl

pub one_job-IsValid : IsValid one_job
unfolding lookup
one_job-IsValid = record {
  distinct = (refl, tt);
  entries = (record { stamped = refl; nonzero = λ e. omega arith; shaped = (refl, refl) }, tt);
  fresh = (omega arith, tt);
  positive = omega arith;
}

fresh_job-IsNew : IsNew one_job fresh_job
fresh_job-IsNew = record {
  no_id = refl;
  queued_status = refl;
  no_result = refl;
  no_error = refl;
  room = omega arith;
}

abbrev life : List Call
life =
    starts 1 ∷ succeeds 1 (record { user_id = 5 }) ∷ fails 1 shutdown ∷ fails_active shutdown ∷ []

-- The failure after the success is refused, and the repair passes the job over.
life_succeeds :
    lookup 1 (run one_job life).jobs
    ≡ some (record {
      id = 1;
      status = succeeded;
      result = some (record { user_id = 5 });
      error = none;
      owner_user_id = 7;
    })
unfolding run step set_running set_succeeded set_failed fail_active lookup insert can_transition_job
life_succeeds = refl

run-Lived_example : Lived 1 (record fresh_job { id = 1 }) (run one_job life)
unfolding lookup
run-Lived_example =
    run-Lived 1 (record fresh_job { id = 1 }) one_job life one_job-IsValid
      (tt, (tt, (tt, (tt, tt)))) (tt, (tt, (tt, (tt, tt)))) refl

step-IsValid_example : IsValid (step one_job (saves fresh_job))
step-IsValid_example = step-IsValid one_job (saves fresh_job) fresh_job-IsNew one_job-IsValid

fail_active_repairs_example : (fail_active shutdown one_job).1 ≡ ok (weight active one_job.jobs)
fail_active_repairs_example = (fail_active_repairs shutdown one_job).0
