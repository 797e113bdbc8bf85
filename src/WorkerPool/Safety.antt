-- ===== src/WorkerPool/Safety.antt =====
-- What no interleaving of the calls of internal/workerpool/workerpool.go breaks.
use go_max_tech_stack.WorkerPool.{
  WorkerPool, Stage, new_worker_pool, entering, Moment, is_done, owns, repair_active_on_shutdown,
  repairing, Generation, cancelling, checking, publishing, returned, waiting,
}
use go_max_tech_stack.WorkerPool.Moves.{IsAt, IsAt-Keeps, start-Good, worker_done-Good}
use go_max_tech_stack.WorkerPool.Steps.{
  System, Action, step, run, advances, calls, ends, starts, stop_step, uses,
}
use go_max_tech_stack.WorkerPool.Invariant.{
  IsValid, Good, Keeps, Keeps-refl, Keeps-trans, done-live, held, is_repaired, live_at,
}
use go_max_tech_stack.Prelude.Assoc.{
  Entries, Entries-insert, Entries-lookup, Entries-map, lookup, lookup-insert,
}
use go_max_tech_stack.JobService.{JobRepository}
use go_max_tech_stack.Prelude.{
  List, Option-cases, [], inl, inr, refl, ℕ, ◌∷◌, ◌==◌, ==_iff, Bool-cases, ap, arith, false, some,
  subst, true, ◌∙◌, ◌≡◌, ◌≢◌, ◌⊎◌,
}
use go_max_tech_stack.WorkerPool.Stopping.{stop_step-Stepped, once-cases, repaired-done}

abbrev pub IsPlaced : WorkerPool → List (ℕ × Stage) → Type 0
IsPlaced wp = Entries (λ i at. IsAt wp at)

-- The pool is well-formed, and every call of `Stop` is where its stage says.
pub record IsSafe {R : Type 0} (s : System R) : Type 0 where
  pub valid : IsValid s.pool
  pub placed : IsPlaced s.pool s.stops

abbrev pub initial : {R : Type 0} → R → System R
initial jobs = record { pool = new_worker_pool; jobs = jobs; stops = [] }

initial-IsSafe : {R : Type 0} (jobs : R) → IsSafe (initial jobs)
unfolding new_worker_pool lookup
initial-IsSafe jobs = record {
  valid = record { counted = tt; current = λ g h. refl; fresh = tt };
  placed = tt;
}

moved-IsPlaced :
    (wp wp' : WorkerPool) (stops : List (ℕ × Stage))
    → Keeps wp wp'
    → IsPlaced wp stops
    → IsPlaced wp' stops
moved-IsPlaced wp wp' stops k = Entries-map stops (λ i at. IsAt-Keeps wp wp' at k)

module _ {R : Type 0} (repo : JobRepository R) where
  -- A step keeps the system safe, and the pool's past.
  abbrev Safely : System R → System R → Type 0
  Safely s s' = IsSafe s' × Keeps s.pool s'.pool

  moved :
      (s : System R) (wp' : WorkerPool)
      → IsSafe s
      → Good s.pool wp'
      → Safely s (record s { pool = wp' })
  moved s wp' safe good = (
    record {
      valid = good.valid;
      placed = moved-IsPlaced s.pool wp' s.stops good.keeps safe.placed;
    },
    good.keeps,
  )

  step-IsSafe : (a : Action R) (s : System R) → IsSafe s → Safely s (step repo a s)
  unfolding step
  step-IsSafe (starts workers) s safe = moved s _ safe (start-Good workers s.pool safe.valid)
  step-IsSafe (ends g) s safe = moved s _ safe (worker_done-Good g s.pool safe.valid)
  step-IsSafe (uses f) s safe =
      (record { valid = safe.valid; placed = safe.placed }, Keeps-refl s.pool)
  step-IsSafe (calls i) s safe = elim (Option-cases (lookup i s.stops)) [
    | inl e ↦
        rw (e, step)
          (
            record {
              valid = safe.valid;
              placed = Entries-insert (λ k at. IsAt s.pool at) i entering s.stops tt safe.placed;
            },
            Keeps-refl s.pool,
          )
    | inr (at, e) ↦ rw (e, step) (safe, Keeps-refl s.pool)
  ]
  step-IsSafe (advances i m) s safe = elim (Option-cases (lookup i s.stops)) [
    | inl e ↦ rw (e, step) (safe, Keeps-refl s.pool)
    | inr (at, e) ↦
        let stepped =
          stop_step-Stepped repo m at s.pool s.jobs safe.valid
            (Entries-lookup (λ k at'. IsAt s.pool at') i at s.stops safe.placed e) in
        rw (e, step)
          (
            record {
              valid = stepped.0.valid;
              placed =
                  Entries-insert (λ k at'. IsAt (stop_step repo m at (s.pool, s.jobs)).0.0 at') i
                    (stop_step repo m at (s.pool, s.jobs)).1 s.stops stepped.1
                    (moved-IsPlaced s.pool (stop_step repo m at (s.pool, s.jobs)).0.0 s.stops
                      stepped.0.keeps safe.placed);
            },
            stepped.0.keeps,
          )
  ]

  run-Safely : (actions : List (Action R)) (s : System R) → IsSafe s → Safely s (run repo actions s)
  unfolding run
  run-Safely [] s safe = (safe, Keeps-refl s.pool)
  run-Safely (a ∷ rest) s safe =
      let first = step-IsSafe a s safe in
      let last = run-Safely rest (step repo a s) first.0 in (last.0, Keeps-trans first.1 last.1)

  pub reached-IsSafe :
      (actions : List (Action R)) (jobs : R) → IsSafe (run repo actions (initial jobs))
  reached-IsSafe actions jobs = (run-Safely actions (initial jobs) (initial-IsSafe jobs)).0

  live-owns :
      (g : ℕ) (wp : WorkerPool)
      → IsValid wp
      → live_at (lookup g wp.gens) ≢ 0
      → wp.generation ≡ some g
  live-owns g wp v l = elim (Option-cases wp.generation) [
    | inl e ↦ ground (arith, e, v.current g, l)
    | inr (k, e) ↦ elim (Bool-cases (k == g)) [
      | inl hit ↦ e ∙ ap some ((==_iff k g).0 hit)
      | inr miss ↦ ground (arith, e, miss, v.current g, l)
    ]
  ]

  -- However calls of `Start` and `Stop`, their pieces and the ends of workers interleave, at most
  -- one generation has workers that have not ended, and it is the pool's own.
  pub one_generation :
      (actions : List (Action R)) (jobs : R) (g k : ℕ)
      → live_at (lookup g (run repo actions (initial jobs)).pool.gens) ≢ 0
      → live_at (lookup k (run repo actions (initial jobs)).pool.gens) ≢ 0
      → (g ≡ k) × ((run repo actions (initial jobs)).pool.generation ≡ some g)
  one_generation actions jobs g k l l' =
      let safe = reached-IsSafe actions jobs in
      let mine = live-owns g (run repo actions (initial jobs)).pool safe.valid l in
      let yours = live-owns k (run repo actions (initial jobs)).pool safe.valid l' in
      (cc (mine, yours), mine)

  -- A repair of the jobs by a piece of `Stop`: no generation has a worker that could still change
  -- a job, and this generation was not repaired before and now is.
  pub record Repairs (g : ℕ) (s s' : System R) : Type 0 where
    pub quiet : (k : ℕ) → live_at (lookup k s.pool.gens) ≡ 0
    pub held_here : held g s.pool ≡ true
    pub before : is_repaired (lookup g s.pool.gens) ≡ false
    pub after : is_repaired (lookup g s'.pool.gens) ≡ true
    pub effect : s'.jobs ≡ (repair_active_on_shutdown repo s.jobs).0

  quiet_held :
      (g : ℕ) (wp : WorkerPool)
      → IsValid wp
      → is_done (lookup g wp.gens) ≡ true
      → held g wp ≡ true
      → (k : ℕ) → live_at (lookup k wp.gens) ≡ 0
  quiet_held g wp v d h k = elim (Bool-cases (owns k wp.generation)) [
    | inr miss ↦ v.current k miss
    | inl hit ↦ elim (Option-cases wp.generation) [
      | inl e ↦ ground (arith, e, hit)
      | inr (j, e) ↦
          subst (λ x. live_at (lookup x wp.gens) ≡ 0) (ground (arith, e, hit, h))
            (done-live g wp v d)
    ]
  ]

  repairing-Repairs :
      (g i : ℕ) (m : Moment) (s : System R)
      → IsSafe s
      → lookup i s.stops ≡ some (repairing g)
      → ((step repo (advances i m) s).jobs ≡ s.jobs) ⊎ Repairs g s (step repo (advances i m) s)
  unfolding step stop_step
  repairing-Repairs g i m s safe e =
      let at : IsAt s.pool (repairing g) =
        Entries-lookup (λ k at'. IsAt s.pool at') i (repairing g) s.stops safe.placed e in
      elim (once-cases repo g s.pool s.jobs (at.0)) [
        | inl (r, eq) ↦ inl (rw (e, step, eq) refl)
        | inr (gen, found, o, d, eq) ↦
            let gen' : Generation = record gen {
              outcome = some (repair_active_on_shutdown repo s.jobs).1;
            } in
            let mine : held g s.pool ≡ true = elim (at.1) [
              | inl h ↦ h
              | inr r ↦ ground (arith, found, o, r)
            ] in
            inr (record {
              held_here = mine;
              quiet = quiet_held g s.pool safe.valid (at.0) mine;
              before = ground (arith, found, o);
              after = rw (e, step, eq) (ground (arith, lookup-insert g g gen' s.pool.gens));
              effect = rw (e, step, eq) refl;
            })
      ]

  idle_piece :
      (at : Stage) (i : ℕ) (m : Moment) (s : System R)
      → lookup i s.stops ≡ some at
      → ((stop_step repo m at (s.pool, s.jobs)).0.1 ≡ s.jobs)
      → (step repo (advances i m) s).jobs ≡ s.jobs
  unfolding step
  idle_piece at i m s e h = rw (e, step) h

  piece-cases :
      (at : Stage) (i : ℕ) (m : Moment) (s : System R)
      → IsSafe s
      → lookup i s.stops ≡ some at
      → ((step repo (advances i m) s).jobs ≡ s.jobs)
        ⊎ ((g : ℕ) × Repairs g s (step repo (advances i m) s))
  unfolding stop_step
  piece-cases entering i m s safe e = inl (idle_piece entering i m s e refl)
  piece-cases (cancelling g) i m s safe e = inl (idle_piece (cancelling g) i m s e refl)
  piece-cases (checking g) i m s safe e = inl (idle_piece (checking g) i m s e refl)
  piece-cases (waiting g) i m s safe e = inl (idle_piece (waiting g) i m s e refl)
  piece-cases (repairing g) i m s safe e = elim (repairing-Repairs g i m s safe e) [
    | inl same_jobs ↦ inl same_jobs
    | inr r ↦ inr (g, r)
  ]
  piece-cases (publishing g) i m s safe e = inl (idle_piece (publishing g) i m s e refl)
  piece-cases (returned r) i m s safe e = inl (idle_piece (returned r) i m s e refl)

  -- At any moment of any interleaving, the next piece of a call of `Stop` leaves the jobs alone, or
  -- it is the first repair of the pool's own generation, made while no worker of any generation is
  -- left and the pool refuses to start others.
  pub repair_alone :
      (actions : List (Action R)) (jobs : R) (i : ℕ) (m : Moment)
      → let s = run repo actions (initial jobs) in
        ((step repo (advances i m) s).jobs ≡ s.jobs)
        ⊎ ((g : ℕ) × Repairs g s (step repo (advances i m) s))
  unfolding step
  repair_alone actions jobs i m =
      let s = run repo actions (initial jobs) in
      elim (Option-cases (lookup i s.stops)) [
        | inl e ↦ inl (rw (e, step) refl)
        | inr (at, e) ↦ piece-cases at i m s (reached-IsSafe actions jobs) e
      ]

  -- A generation that has been repaired stays repaired, with no workers, whatever follows.
  repair_lasts :
      (before after : List (Action R)) (jobs : R) (g : ℕ)
      → is_repaired (lookup g (run repo before (initial jobs)).pool.gens) ≡ true
      → let s = run repo after (run repo before (initial jobs)) in
        (is_repaired (lookup g s.pool.gens) ≡ true) × (live_at (lookup g s.pool.gens) ≡ 0)
  repair_lasts before after jobs g h =
      let s = run repo before (initial jobs) in
      let safely = run-Safely after s (reached-IsSafe before jobs) in
      let still = safely.1.repair_stays g h in
      let there = (run repo after s).pool in
      (still, done-live g there safely.0.valid (repaired-done g there safely.0.valid still))
