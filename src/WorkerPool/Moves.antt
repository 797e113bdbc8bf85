-- ===== src/WorkerPool/Moves.antt =====
-- Each piece of internal/workerpool/workerpool.go keeps the pool well-formed and takes nothing back.
use go_max_tech_stack.WorkerPool.{
  WorkerPool, Stage, Generation, is_done, finish, new_generation, start_settled, start, worker_done,
  cancel, stop_enter, no_outcome, settle_stopped_locked, cancelling, checking, entering, publishing,
  repairing, returned, waiting, outcome_err,
}
use go_max_tech_stack.WorkerPool.Invariant.{
  IsGen, IsValid, Good, Keeps, held, insert-Good, Keeps-refl, Keeps-trans, settle-Good, is_repaired,
}
use go_max_tech_stack.Prelude.Assoc.{
  lookup, insert, Entries-insert, Entries-lookup, KeysBelow-mono, lookup-insert, lookup_above,
}
use go_max_tech_stack.Prelude.{
  ◌+◌, ◌<◌, Bool-cases, Option-cases, arith, false, inl, inr, ltb, negsuc, none, pos, refl, some,
  subst, suc, sym, true, ℕ, ℤ, ◌≡◌, ◌⊎◌, ◌-◌, ap, is_zero, pred_ℤ, zero, ◌∙◌, if◌then◌else◌,
}
use go_max_tech_stack.Failure.Result.{Result, ok}

new_generation-IsGen : (g : ℕ) (workers : ℤ) → IsGen g (new_generation workers)
new_generation-IsGen g (pos zero) = (inl (refl, refl), inl refl)
new_generation-IsGen g (pos (suc n)) = (inr (refl, omega arith, refl), inl refl)
new_generation-IsGen g (negsuc n) = (inl (refl, refl), inl refl)

-- A new generation in an empty place.
abbrev begun : ℤ → WorkerPool → WorkerPool
begun workers wp = record wp {
  generation = some wp.next_ref;
  stopping = false;
  last_outcome = no_outcome;
  has_outcome = false;
  gens = insert wp.next_ref (new_generation workers) wp.gens;
  next_ref = wp.next_ref + 1;
}

start-cases :
    (workers : ℤ) (wp : WorkerPool)
    → ((start_settled workers wp).0 ≡ wp)
      ⊎ ((wp.generation ≡ none) × ((start_settled workers wp).0 ≡ begun workers wp))
unfolding start_settled
start-cases workers wp = elim (Option-cases wp.generation) [
  | inl e ↦ inr (e, ground (arith, e))
  | inr (g, e) ↦ inl (ground (arith, e))
]

begun-Good :
    (workers : ℤ) (wp : WorkerPool) → IsValid wp → wp.generation ≡ none → Good wp (begun workers wp)
begun-Good workers wp v e =
    let gen = new_generation workers in
    let absent : lookup wp.next_ref wp.gens ≡ none =
      lookup_above wp.next_ref wp.next_ref wp.gens v.fresh (omega arith) in
    record {
      valid = record {
        counted =
            Entries-insert IsGen wp.next_ref gen wp.gens (new_generation-IsGen wp.next_ref workers)
              v.counted;
        current = λ k h. ground (arith, h, e, lookup-insert wp.next_ref k gen wp.gens, v.current k);
        fresh =
            Entries-insert (λ k _. k < wp.next_ref + 1) wp.next_ref gen wp.gens (omega arith)
              (KeysBelow-mono wp.gens (omega arith) v.fresh);
      };
      keeps = record {
        done_stays = λ k h. ground (arith, h, lookup-insert wp.next_ref k gen wp.gens, absent);
        repair_stays = λ k h. ground (arith, h, lookup-insert wp.next_ref k gen wp.gens, absent);
        hold_stays = λ k h. ground (arith, e, h);
      };
    }

pub Good-trans : {a b c : WorkerPool} → Good a b → Good b c → Good a c
Good-trans f k = record { valid = k.valid; keeps = Keeps-trans f.keeps k.keeps }

pub Good-refl : (wp : WorkerPool) → IsValid wp → Good wp wp
Good-refl wp v = record { valid = v; keeps = Keeps-refl wp }

start_settled-Good :
    (workers : ℤ) (wp : WorkerPool) → IsValid wp → Good wp (start_settled workers wp).0
start_settled-Good workers wp v = elim (start-cases workers wp) [
  | inl e ↦ subst (Good wp) (sym e) (Good-refl wp v)
  | inr (e, eq) ↦ subst (Good wp) (sym eq) (begun-Good workers wp v e)
]

pub start-Good : (workers : ℤ) (wp : WorkerPool) → IsValid wp → Good wp (start workers wp).0
unfolding start
start-Good workers wp v =
    let settled = settle-Good wp v in
    Good-trans settled (start_settled-Good workers (settle_stopped_locked wp) settled.valid)

pred_pos : (n : ℕ) → 0 < n → pred_ℤ (pos n) ≡ pos (n - 1)
pred_pos zero h = ground (arith, h)
pred_pos (suc n) h = ap pos (omega arith)

zero_pos : (n : ℕ) → ((is_zero (pos n) ≡ true) × (n ≡ 0)) ⊎ ((is_zero (pos n) ≡ false) × (0 < n))
zero_pos zero = inl (refl, refl)
zero_pos (suc n) = inr (refl, omega arith)

-- The last worker of a generation, and no other, makes it done.
finish-IsGen : (g : ℕ) (gen : Generation) → IsGen g gen → 0 < gen.live → IsGen g (finish gen)
finish-IsGen g gen h l = elim (h.0) [
  | inl (d, none_live) ↦ ground (arith, none_live, l)
  | inr (d, l', counts) ↦
      let left : pred_ℤ gen.remaining ≡ pos (gen.live - 1) =
        ap pred_ℤ counts ∙ pred_pos gen.live l in
      rw left (ground (arith, d, h.1, zero_pos (gen.live - 1)))
]

pub worker_done-Good : (g : ℕ) (wp : WorkerPool) → IsValid wp → Good wp (worker_done g wp)
unfolding worker_done
worker_done-Good g wp v = elim (Option-cases (lookup g wp.gens)) [
  | inl e ↦ subst (Good wp) (ground (arith, e)) (Good-refl wp v)
  | inr (gen, e) ↦ elim (Bool-cases (ltb 0 gen.live)) [
    | inl l ↦ subst (Good wp) (ground (arith, e, l)) (
        insert-Good g gen (finish gen) wp v e
          (finish-IsGen g gen (Entries-lookup IsGen g gen wp.gens v.counted e) (ground arith))
          (omega arith) (λ d. ground (arith, d)) (λ r. r))
    | inr l ↦ subst (Good wp) (ground (arith, e, l)) (Good-refl wp v)
  ]
]

pub cancel-Good : (g : ℕ) (wp : WorkerPool) → IsValid wp → Good wp (cancel g wp)
unfolding cancel
cancel-Good g wp v = elim (Option-cases (lookup g wp.gens)) [
  | inl e ↦ subst (Good wp) (ground (arith, e)) (Good-refl wp v)
  | inr (gen, e) ↦ subst (Good wp) (ground (arith, e)) (
      insert-Good g gen (record gen { cancelled = true }) wp v e
        (Entries-lookup IsGen g gen wp.gens v.counted e) (omega arith) (λ d. d) (λ r. r))
]

-- What holds of a call of `Stop` at its stage.
abbrev pub IsAt : WorkerPool → Stage → Type 0
IsAt wp entering = Unit
IsAt wp (cancelling g) = (held g wp ≡ true) ⊎ (is_repaired (lookup g wp.gens) ≡ true)
IsAt wp (checking g) = (held g wp ≡ true) ⊎ (is_repaired (lookup g wp.gens) ≡ true)
IsAt wp (waiting g) = (held g wp ≡ true) ⊎ (is_repaired (lookup g wp.gens) ≡ true)
IsAt wp (repairing g) =
    (is_done (lookup g wp.gens) ≡ true)
    × ((held g wp ≡ true) ⊎ (is_repaired (lookup g wp.gens) ≡ true))
IsAt wp (publishing g) = is_repaired (lookup g wp.gens) ≡ true
IsAt wp (returned r) = Unit

Held-Keeps :
    (g : ℕ) (wp wp' : WorkerPool)
    → Keeps wp wp'
    → (held g wp ≡ true) ⊎ (is_repaired (lookup g wp.gens) ≡ true)
    → (held g wp' ≡ true) ⊎ (is_repaired (lookup g wp'.gens) ≡ true)
Held-Keeps g wp wp' k (inl h) = k.hold_stays g h
Held-Keeps g wp wp' k (inr h) = inr (k.repair_stays g h)

pub IsAt-Keeps : (wp wp' : WorkerPool) (at : Stage) → Keeps wp wp' → IsAt wp at → IsAt wp' at
IsAt-Keeps wp wp' entering k h = tt
IsAt-Keeps wp wp' (cancelling g) k h = Held-Keeps g wp wp' k h
IsAt-Keeps wp wp' (checking g) k h = Held-Keeps g wp wp' k h
IsAt-Keeps wp wp' (waiting g) k h = Held-Keeps g wp wp' k h
IsAt-Keeps wp wp' (repairing g) k h = (k.done_stays g h.0, Held-Keeps g wp wp' k h.1)
IsAt-Keeps wp wp' (publishing g) k h = k.repair_stays g h
IsAt-Keeps wp wp' (returned r) k h = tt

pub enter-cases :
    (wp : WorkerPool)
    → (((stop_enter wp).0 ≡ wp) × (r : Result (Unit {0})) × ((stop_enter wp).1 ≡ returned r))
      ⊎ ((g : ℕ) × (wp.generation ≡ some g)
          × ((stop_enter wp).0 ≡ record wp { stopping = true })
          × (((stop_enter wp).1 ≡ cancelling g) ⊎ ((stop_enter wp).1 ≡ checking g)))
unfolding stop_enter
enter-cases wp = elim (Option-cases wp.generation) [
  | inl e ↦ inl (
    ground (arith, e),
    (if wp.has_outcome then outcome_err wp.last_outcome else ok tt),
    ground (arith, e),
  )
  | inr (g, e) ↦ elim (Bool-cases wp.stopping) [
    | inl b ↦ inr (g, e, ground (arith, e), inr (ground (arith, e, b)))
    | inr b ↦ inr (g, e, ground (arith, e), inl (ground (arith, e, b)))
  ]
]
