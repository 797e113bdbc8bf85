-- ===== src/Stream/Safety.antt =====
-- No history of the hub of internal/stream/stream.go panics or waits under the lock.
use go_max_tech_stack.Prelude.{
  ◌+◌, ◌<◌, List, [], ap, arith, length, pos, refl, suc, word_size, ℕ, ◌∙◌, ◌∷◌, ◌≡◌,
}
use go_max_tech_stack.Stream.{◌>>=◌, Hub, Vars, done, new_hub}
use go_max_tech_stack.Stream.History.{
  Call, IsSafe, System, drains, leaves, marks, publishes, reads, run, serving, step, subscribes,
  with_hub,
}
use go_max_tech_stack.Stream.Steps.{
  Returns, drain_in-Returns, leaves-Returns, marks-Returns, publishes-Returns, reads-Returns,
  subscribes-Returns,
}
use go_max_tech_stack.Prelude.Assoc.{weight}

step-Returns :
    {E : Type 0} (c : Call E) (s : System E)
    → IsSafe s
    → s.hub.next_id + 1 < word_size
    → Returns s (step c s)
unfolding step
step-Returns (subscribes job_id) s f room = subscribes-Returns job_id s f room
step-Returns (publishes job_id ev) s f room = publishes-Returns job_id ev s f
step-Returns (leaves job_id id) s f room = leaves-Returns job_id id s f
step-Returns (reads ref) s f room = reads-Returns ref s f
step-Returns marks s f room = marks-Returns s f
step-Returns drains s f room = drain_in-Returns s.phase s.hub f.valid f.fitting

-- No history of calls, by any number of goroutines and with a `Close` anywhere in it, ever panics
-- or leaves a caller waiting under the lock: every call returns, and the hub stays valid, its flag
-- and its map in step with the phase of `Close`. The history must start at such a state, and not
-- use up the 2^64 ids of subscribers.
pub run_returns :
    {E : Type 0} (cs : List (Call E)) (s : System E)
    → IsSafe s
    → s.hub.next_id + length cs < word_size
    → (s' : System E) × (run cs s ≡ done s') × IsSafe s'
unfolding run
run_returns [] s f room = (s, refl, f)
run_returns (c ∷ cs) s f room =
    let one_step = step-Returns c s f (omega arith) in
    let (s2, out, f2) = run_returns cs one_step.state one_step.safe (omega (arith, one_step.ids)) in
    (s2, ap (λ m. m >>= λ t. run cs t) one_step.equal ∙ out, f2)

-- A new hub is safe, if the published gauge of subscribers starts at 0.
pub new_hub-IsSafe :
    {E : Type 0} (n : ℕ) (vars : Vars)
    → vars.subscribers ≡ 0
    → (h : Hub E) × (new_hub (pos (suc n)) vars ≡ done h) × IsSafe (with_hub serving h)
unfolding new_hub
new_hub-IsSafe n vars zeroed = (
  _,
  refl,
  record {
    valid = record {
      positive = omega arith;
      known = tt;
      single = λ ref. unfold weight in (omega arith);
      counted = unfold weight in refl;
      bounded = unfold weight in (omega arith);
      small = omega arith;
      trimmed = tt;
      metered = zeroed;
    };
    fitting = refl;
  },
)
