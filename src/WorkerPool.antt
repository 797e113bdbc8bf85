-- ===== src/WorkerPool.antt =====
-- internal/workerpool/workerpool.go: the lifecycle of the worker pool. Each `Start` that finds no
-- workers makes a generation of them; the generations are shared by reference, so they stand in a
-- store. The code between two locked sections is a step of its own: `Stop` enters, cancels, waits,
-- repairs the jobs and publishes the outcome. `live` counts the goroutines that a generation's
-- `go` statements started and that have not finished.
-- The count of a generation never wraps around: it starts at the number of its workers, and only
-- they lower it.
-- `WorkerPool.Steps` interleaves these pieces, `WorkerPool.Invariant` and `WorkerPool.Safety` prove
-- what no interleaving breaks; `WorkerPool.Problem` is the problem that a failed job carries.
use go_max_tech_stack.Prelude.{
  ℤ, rounds, is_le_zero, pred_ℤ, is_zero, ◌&&◌, ◌+◌, ◌-◌, ◌==◌, Bool, List, Option, [], false,
  if◌then◌else◌, ltb, none, not, some, true, ◌||◌, ℕ,
}
use go_max_tech_stack.Failure.Result.{Result, ok, err}
use go_max_tech_stack.Failure.{Failure, sentinel, pool_stopping, pool_not_running, expired}
use go_max_tech_stack.JobService.{JobRepository, fail_active_on_shutdown}
use go_max_tech_stack.Prelude.Assoc.{lookup, insert}
pub mod Steps
pub mod Invariant
pub mod Moves
pub mod Stopping
pub mod Safety
pub mod Problem
pub mod Item
pub mod Ending
mod Examples

pub record StopOutcome : Type 0 where
  pub workers_stopped : Bool
  pub repair_attempted : Bool
  pub repaired_active_jobs : ℕ
  pub repair_err : Option Failure

-- The zero value `StopOutcome{}`.
abbrev pub no_outcome : StopOutcome
no_outcome = record {
  workers_stopped = false;
  repair_attempted = false;
  repaired_active_jobs = 0;
  repair_err = none;
}

abbrev pub outcome_err : StopOutcome → Result (Unit {0})
outcome_err o = elim o.repair_err [ none ↦ ok tt | some e ↦ err e ]

-- `workerGeneration`; `outcome` is there once its `stopOnce` has run.
pub record Generation : Type 0 where
  pub cancelled : Bool
  pub done : Bool
  pub remaining : ℤ
  pub outcome : Option StopOutcome
  pub live : ℕ

pub record WorkerPool : Type 0 where
  pub generation : Option ℕ
  pub stopping : Bool
  pub last_outcome : StopOutcome
  pub has_outcome : Bool
  pub gens : List (ℕ × Generation)
  pub next_ref : ℕ

unfoldable pub new_worker_pool : WorkerPool
new_worker_pool = record {
  generation = none;
  stopping = false;
  last_outcome = no_outcome;
  has_outcome = false;
  gens = [];
  next_ref = 0;
}

-- `<-gen.done` is ready.
abbrev pub is_done : Option Generation → Bool
is_done none = false
is_done (some gen) = gen.done

unfoldable pub settle_stopped_locked : WorkerPool → WorkerPool
settle_stopped_locked wp = elim wp.generation [
  | none ↦ wp
  | some g ↦
      if is_done (lookup g wp.gens) && not wp.stopping
      then record wp { generation = none; stopping = false }
      else wp
]

-- A generation of so many workers; with none its `done` is closed at once.
abbrev pub new_generation : ℤ → Generation
new_generation workers = record {
  cancelled = false;
  done = is_le_zero workers;
  remaining = workers;
  outcome = none;
  live = rounds workers;
}

unfoldable pub start_settled : ℤ → WorkerPool → WorkerPool × Result (Unit {0})
start_settled workers wp = elim wp.generation [
  | some g ↦ if wp.stopping then (wp, err (sentinel pool_stopping)) else (wp, ok tt)
  | none ↦ (
    record wp {
      generation = some wp.next_ref;
      stopping = false;
      last_outcome = no_outcome;
      has_outcome = false;
      gens = insert wp.next_ref (new_generation workers) wp.gens;
      next_ref = wp.next_ref + 1;
    },
    ok tt,
  )
]

unfoldable pub start : ℤ → WorkerPool → WorkerPool × Result (Unit {0})
unfolding settle_stopped_locked start_settled
start workers wp = start_settled workers (settle_stopped_locked wp)

unfoldable pub is_running : WorkerPool → Bool
is_running wp = elim wp.generation [
  | none ↦ false
  | some g ↦ if wp.stopping then false else not (is_done (lookup g wp.gens))
]

unfoldable pub check_running : WorkerPool → Result (Unit {0})
unfolding is_running
check_running wp = if not (is_running wp) then err (sentinel pool_not_running) else ok tt

-- `workerDone`, as a worker's goroutine ends.
abbrev pub finish : Generation → Generation
finish gen = record gen {
  remaining = pred_ℤ gen.remaining;
  done = gen.done || is_zero (pred_ℤ gen.remaining);
  live = gen.live - 1;
}

unfoldable pub worker_done : ℕ → WorkerPool → WorkerPool
worker_done g wp = elim (lookup g wp.gens) [
  | none ↦ wp
  | some gen ↦ if ltb 0 gen.live then record wp { gens = insert g (finish gen) wp.gens } else wp
]

unfoldable pub cancel : ℕ → WorkerPool → WorkerPool
cancel g wp = elim (lookup g wp.gens) [
  | none ↦ wp
  | some gen ↦ record wp { gens = insert g (record gen { cancelled = true }) wp.gens }
]

-- Where a call of `Stop` stands: before it, or between two of its pieces, or at its return.
pub data Stage : Type 0 where
  entering : Stage
  cancelling : ℕ → Stage
  checking : ℕ → Stage
  waiting : ℕ → Stage
  repairing : ℕ → Stage
  publishing : ℕ → Stage
  returned : Result (Unit {0}) → Stage

-- The first locked section of `Stop`.
unfoldable pub stop_enter : WorkerPool → WorkerPool × Stage
stop_enter wp = elim wp.generation [
  | none ↦ (wp, returned (if wp.has_outcome then outcome_err wp.last_outcome else ok tt))
  | some g ↦ (record wp { stopping = true }, if not wp.stopping then cancelling g else checking g)
]

-- The first select of `Stop`, which does not wait.
unfoldable pub stop_check : ℕ → WorkerPool → Stage
stop_check g wp = if is_done (lookup g wp.gens) then repairing g else waiting g

-- What a call's second select finds: the error of its own context, if that has finished, and which
-- case Go picks if both are ready.
pub record Moment : Type 0 where
  pub expired : Option Failure
  pub choose_done : Bool

unfoldable pub stop_wait : Moment → ℕ → WorkerPool → Stage
stop_wait m g wp = elim m.expired [
  | none ↦ if is_done (lookup g wp.gens) then repairing g else waiting g
  | some e ↦ if is_done (lookup g wp.gens) && m.choose_done then repairing g else returned (err e)
]

-- Whether the pool's generation is that one.
abbrev pub owns : ℕ → Option ℕ → Bool
owns g none = false
owns g (some g') = g' == g

-- The locked section of `completeStop`.
unfoldable pub complete_publish : ℕ → StopOutcome → WorkerPool → WorkerPool
complete_publish g outcome wp =
    if owns g wp.generation
    then record wp {
      generation = none;
      stopping = false;
      last_outcome = outcome;
      has_outcome = true;
    }
    else wp

module _ {R : Type 0} (repo : JobRepository R) where
  unfoldable pub repair_active_on_shutdown : R → R × StopOutcome
  unfolding fail_active_on_shutdown
  repair_active_on_shutdown jobs =
      let (jobs', count) = fail_active_on_shutdown repo jobs in
      (
        jobs',
        elim count [
          | err e ↦ record {
            workers_stopped = true;
            repair_attempted = true;
            repaired_active_jobs = 0;
            repair_err = some e;
          }
          | ok n ↦ record {
            workers_stopped = true;
            repair_attempted = true;
            repaired_active_jobs = n;
            repair_err = none;
          }
        ],
      )

  -- `stopOnce.Do` of `completeStop`: a caller that comes while it runs waits for it.
  unfoldable pub complete_once : ℕ → WorkerPool × R → WorkerPool × R
  unfolding repair_active_on_shutdown
  complete_once g (wp, jobs) = elim (lookup g wp.gens) [
    | none ↦ (wp, jobs)
    | some gen ↦ elim gen.outcome [
      | some o ↦ (wp, jobs)
      | none ↦
          let (jobs', o) = repair_active_on_shutdown jobs in
          (record wp { gens = insert g (record gen { outcome = some o }) wp.gens }, jobs')
    ]
  ]
