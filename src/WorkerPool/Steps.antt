-- ===== src/WorkerPool/Steps.antt =====
-- The interleavings of internal/workerpool/workerpool.go: any number of calls of `Stop`, each
-- at its own stage, beside calls of `Start`, workers that end and other use of the jobs.
use go_max_tech_stack.WorkerPool.{
  WorkerPool, Stage, stop_enter, Generation, StopOutcome, cancel, cancelling, complete_once,
  complete_publish, entering, no_outcome, outcome_err, publishing, repairing, returned, start,
  stop_wait, waiting, worker_done, Moment, checking, stop_check,
}
use go_max_tech_stack.JobService.{JobRepository}
use go_max_tech_stack.Prelude.{List, Option, [], none, some, ℕ, ℤ, ◌∷◌}
use go_max_tech_stack.Prelude.Assoc.{insert, lookup}

pub record System (R : Type 0) : Type 0 where
  pub pool : WorkerPool
  pub jobs : R
  pub stops : List (ℕ × Stage)

pub data Action (R : Type 0) : Type 0 where
  starts : ℤ → Action R
  -- A new goroutine that calls `Stop`; the next piece of its call, with what it finds.
  calls : ℕ → Action R
  advances : ℕ → Moment → Action R
  -- A worker of a generation ends, as it may at any time.
  ends : ℕ → Action R
  uses : (R → R) → Action R

module _ {R : Type 0} (repo : JobRepository R) where
  abbrev pub published : Option Generation → StopOutcome
  published none = no_outcome
  published (some gen) = elim gen.outcome [ none ↦ no_outcome | some o ↦ o ]

  -- The next piece of a call of `Stop`.
  unfoldable pub stop_step : Moment → Stage → WorkerPool × R → (WorkerPool × R) × Stage
  unfolding stop_enter stop_check stop_wait cancel complete_once complete_publish
  stop_step m entering (wp, jobs) = let (wp', at) = stop_enter wp in ((wp', jobs), at)
  stop_step m (cancelling g) (wp, jobs) = ((cancel g wp, jobs), checking g)
  stop_step m (checking g) (wp, jobs) = ((wp, jobs), stop_check g wp)
  stop_step m (waiting g) (wp, jobs) = ((wp, jobs), stop_wait m g wp)
  stop_step m (repairing g) s = (complete_once repo g s, publishing g)
  stop_step m (publishing g) (wp, jobs) =
      let o = published (lookup g wp.gens) in
      ((complete_publish g o wp, jobs), returned (outcome_err o))
  stop_step m (returned r) s = (s, returned r)

  unfoldable pub step : Action R → System R → System R
  unfolding start worker_done stop_step
  step (starts workers) s = record s { pool = (start workers s.pool).0 }
  step (calls i) s = elim (lookup i s.stops) [
    | none ↦ record s { stops = insert i entering s.stops }
    | some at ↦ s
  ]
  step (advances i m) s = elim (lookup i s.stops) [
    | none ↦ s
    | some at ↦
        let ((wp', jobs'), at') = stop_step m at (s.pool, s.jobs) in
        record { pool = wp'; jobs = jobs'; stops = insert i at' s.stops }
  ]
  step (ends g) s = record s { pool = worker_done g s.pool }
  step (uses f) s = record s { jobs = f s.jobs }

  unfoldable pub run : List (Action R) → System R → System R
  unfolding step
  run [] s = s
  run (a ∷ rest) s = run rest (step a s)
