-- ===== src/WorkerPool/Stopping.antt =====
-- The pieces of `Stop` of internal/workerpool/workerpool.go, at any moment between other calls.
use go_max_tech_stack.WorkerPool.{
  WorkerPool, Stage, stop_enter, stop_check, stop_wait, complete_once, complete_publish,
  StopOutcome, is_done, Generation, Moment, cancel, cancelling, checking, entering, publishing,
  repair_active_on_shutdown, repairing, returned, waiting,
}
use go_max_tech_stack.WorkerPool.Moves.{IsAt, enter-cases, Good-refl, IsAt-Keeps, cancel-Good}
use go_max_tech_stack.WorkerPool.Steps.{stop_step}
use go_max_tech_stack.WorkerPool.Invariant.{
  IsValid, Good, is_repaired, IsGen, done-live, live_at, insert-Good,
}
use go_max_tech_stack.Prelude.{
  ◌==◌, ==_iff, Bool-cases, Option-cases, arith, false, inl, inr, none, some, subst, sym, true, ℕ,
  ◌≡◌, ◌⊎◌, refl, ◌&&◌,
}
use go_max_tech_stack.Prelude.Assoc.{Entries-lookup, lookup, insert, lookup-insert}
use go_max_tech_stack.JobService.{JobRepository}

stopping-Good : (wp : WorkerPool) → IsValid wp → Good wp (record wp { stopping = true })
stopping-Good wp v = record {
  valid = record { counted = v.counted; current = v.current; fresh = v.fresh };
  keeps = record {
    done_stays = λ g h. h;
    repair_stays = λ g h. h;
    hold_stays = λ g h. inl (ground (arith, h));
  };
}

-- A piece of `Stop` keeps the pool, and leaves the call where its stage says.
abbrev pub Stepped : WorkerPool → WorkerPool → Stage → Type 0
Stepped wp wp' at = Good wp wp' × IsAt wp' at

enter-Stepped : (wp : WorkerPool) → IsValid wp → Stepped wp (stop_enter wp).0 (stop_enter wp).1
enter-Stepped wp v = elim (enter-cases wp) [
  | inl (e, r, f) ↦ rw (e, f) (Good-refl wp v, tt)
  | inr (g, e, f, at) ↦ elim at [
    | inl h ↦ rw (f, h) (stopping-Good wp v, inl (ground (arith, e)))
    | inr h ↦ rw (f, h) (stopping-Good wp v, inl (ground (arith, e)))
  ]
]

publish-cases :
    (g : ℕ) (o : StopOutcome) (wp : WorkerPool)
    → (complete_publish g o wp ≡ wp)
      ⊎ ((wp.generation ≡ some g)
          × (complete_publish g o wp ≡ record wp {
            generation = none;
            stopping = false;
            last_outcome = o;
            has_outcome = true;
          }))
unfolding complete_publish
publish-cases g o wp = elim (Option-cases wp.generation) [
  | inl e ↦ inl (ground (arith, e))
  | inr (k, e) ↦ elim (Bool-cases (k == g)) [
    | inl b ↦ inr (ground (arith, e, b), ground (arith, e, b))
    | inr b ↦ inl (ground (arith, e, b))
  ]
]

pub repaired-done :
    (g : ℕ) (wp : WorkerPool)
    → IsValid wp
    → is_repaired (lookup g wp.gens) ≡ true
    → is_done (lookup g wp.gens) ≡ true
repaired-done g wp v r = elim (Option-cases (lookup g wp.gens)) [
  | inl e ↦ ground (arith, e, r)
  | inr (gen, e) ↦ ground (arith, e, r, Entries-lookup IsGen g gen wp.gens v.counted e)
]

pub publish-Good :
    (g : ℕ) (o : StopOutcome) (wp : WorkerPool)
    → IsValid wp
    → is_repaired (lookup g wp.gens) ≡ true
    → Good wp (complete_publish g o wp)
publish-Good g o wp v r = elim (publish-cases g o wp) [
  | inl e ↦ subst (Good wp) (sym e) (Good-refl wp v)
  | inr (e, eq) ↦ subst (Good wp) (sym eq) (record {
    valid = record {
      counted = v.counted;
      current = λ k h. elim (Bool-cases (g == k)) [
        | inl hit ↦
            subst (λ j. live_at (lookup j wp.gens) ≡ 0) ((==_iff g k).0 hit)
              (done-live g wp v (repaired-done g wp v r))
        | inr miss ↦ v.current k (ground (arith, e, miss))
      ];
      fresh = v.fresh;
    };
    keeps = record {
      done_stays = λ k h. h;
      repair_stays = λ k h. h;
      hold_stays = λ k h. inr (
          subst (λ j. is_repaired (lookup j wp.gens) ≡ true) ((==_iff g k).0 (ground (arith, e, h)))
            r);
    };
  })
]

wait-IsAt :
    (m : Moment) (g : ℕ) (wp : WorkerPool) → IsAt wp (waiting g) → IsAt wp (stop_wait m g wp)
unfolding stop_wait
wait-IsAt m g wp h = elim (Option-cases m.expired) [
  | inl e ↦ elim (Bool-cases (is_done (lookup g wp.gens))) [
    | inl d ↦ rw (e, stop_wait, d) (d, h)
    | inr d ↦ rw (e, stop_wait, d) h
  ]
  | inr (f, e) ↦ elim (Bool-cases (is_done (lookup g wp.gens) && m.choose_done)) [
    | inl d ↦ rw (e, stop_wait, d) (ground (arith, d), h)
    | inr d ↦ rw (e, stop_wait, d) tt
  ]
]

module _ {R : Type 0} (repo : JobRepository R) where
  -- What the once of a generation does: nothing if it ran, or the repair, alone.
  pub once-cases :
      (g : ℕ) (wp : WorkerPool) (jobs : R)
      → is_done (lookup g wp.gens) ≡ true
      → ((is_repaired (lookup g wp.gens) ≡ true) × (complete_once repo g (wp, jobs) ≡ (wp, jobs)))
        ⊎ ((gen : Generation) × (lookup g wp.gens ≡ some gen)
            × (gen.outcome ≡ none)
            × (gen.done ≡ true)
            × (complete_once repo g (wp, jobs) ≡ (
              record wp {
                gens =
                    insert g
                      (record gen { outcome = some (repair_active_on_shutdown repo jobs).1 })
                      wp.gens;
              },
              (repair_active_on_shutdown repo jobs).0,
            )))
  unfolding complete_once
  once-cases g wp jobs d = elim (Option-cases (lookup g wp.gens)) [
    | inl e ↦ ground (arith, e, d)
    | inr (gen, e) ↦ elim (Option-cases gen.outcome) [
      | inl o ↦ inr (gen, e, o, ground (arith, e, d), ground (arith, e, o))
      | inr (x, o) ↦ inl (ground (arith, e, o), ground (arith, e, o))
    ]
  ]

  pub once-Stepped :
      (g : ℕ) (wp : WorkerPool) (jobs : R)
      → IsValid wp
      → is_done (lookup g wp.gens) ≡ true
      → Stepped wp (complete_once repo g (wp, jobs)).0 (publishing g)
  once-Stepped g wp jobs v d = elim (once-cases g wp jobs d) [
    | inl (r, e) ↦ rw e (Good-refl wp v, r)
    | inr (gen, e, o, d', eq) ↦
        let gen' : Generation = record gen {
          outcome = some (repair_active_on_shutdown repo jobs).1;
        } in
        rw eq (
          insert-Good g gen gen' wp v e ((Entries-lookup IsGen g gen wp.gens v.counted e).0, inr d')
              (omega arith) (λ h. h) (λ h. refl),
          ground (arith, lookup-insert g g gen' wp.gens),
        )
  ]

  -- Any piece of a `Stop`.
  pub stop_step-Stepped :
      (m : Moment) (at : Stage) (wp : WorkerPool) (jobs : R)
      → IsValid wp
      → IsAt wp at
      → let out = stop_step repo m at (wp, jobs) in Stepped wp out.0.0 out.1
  unfolding stop_step stop_check stop_wait
  stop_step-Stepped m entering wp jobs v h = enter-Stepped wp v
  stop_step-Stepped m (cancelling g) wp jobs v h =
      let moved = cancel-Good g wp v in
      (moved, IsAt-Keeps wp (cancel g wp) (cancelling g) moved.keeps h)
  stop_step-Stepped m (checking g) wp jobs v h = elim (Bool-cases (is_done (lookup g wp.gens))) [
    | inl d ↦ rw (d, stop_check) (Good-refl wp v, (d, h))
    | inr d ↦ rw (d, stop_check) (Good-refl wp v, h)
  ]
  stop_step-Stepped m (waiting g) wp jobs v h = (Good-refl wp v, wait-IsAt m g wp h)
  stop_step-Stepped m (repairing g) wp jobs v h = once-Stepped g wp jobs v (h.0)
  stop_step-Stepped m (publishing g) wp jobs v h = (publish-Good g _ wp v h, tt)
  stop_step-Stepped m (returned r) wp jobs v h = (Good-refl wp v, tt)
