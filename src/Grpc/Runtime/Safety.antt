-- ===== src/Grpc/Runtime/Safety.antt =====
-- Any interleaving of the calls of internal/transport/grpcserver/runtime.go is safe.
use go_max_tech_stack.Grpc.Runtime.{
  Runtime, RuntimeState, state_new, state_running, state_stopping, state_stopped, finish_graceful,
  finish_serve, start,
}
use go_max_tech_stack.Grpc.Runtime.Steps.{
  returned, World, Action, step, run, initial, starts, serve_returns, graceful_returns, calls,
  starts_graceful, sees_graceful, context_ends, sees_done,
}
use go_max_tech_stack.Grpc.Runtime.Sound.{
  IsSound, is_stopped, count, Phase, either, finish_graceful-IsSound, finish_serve-IsSound,
  start-IsSound, at_state, is_early,
}
use go_max_tech_stack.Grpc.Runtime.Callers.{
  IsValid, placed, IsPlaced-Later, finish_graceful-Later, finish_serve-Later, start_in-Later, Later,
  Next, stays,
}
use go_max_tech_stack.Failure.{Failure}
use go_max_tech_stack.Prelude.Assoc.{lookup}
use go_max_tech_stack.Prelude.{
  Bool, List, Option, Option-cases, [], arith, false, inl, inr, refl, some, true, ℕ, ◌∷◌, ◌≡◌, ◌≤◌,
  ap, none, ◌∙◌,
}
use go_max_tech_stack.Grpc.Runtime.Calls.{
  begin_graceful-Next, begun-Next, end_context-Next, see_done-Next, see_graceful-Next,
}

pub step-Next : (w : World) (a : Action) → IsValid w → Next w (step w a)
unfolding step
step-Next w starts v =
    let r : Runtime = (start w.runtime).0 in
    let l : Later w.runtime r = start_in-Later w.runtime.state w.runtime refl in
    ((start-IsSound w.runtime v.0, IsPlaced-Later w r l v), l)
step-Next w (serve_returns e) v =
    either (Next w) w.runtime.serving
      (λ s.
        let l = finish_serve-Later e w.runtime in
        (
          (
            finish_serve-IsSound e w.runtime s v.0,
            IsPlaced-Later w (finish_serve e w.runtime).0 l v,
          ),
          l,
        ))
      (λ s. stays w v)
step-Next w graceful_returns v =
    either (Next w) w.runtime.graceful_runs
      (λ g.
        let l = finish_graceful-Later w.runtime in
        (
          (
            finish_graceful-IsSound w.runtime g v.0,
            IsPlaced-Later w (finish_graceful w.runtime) l v,
          ),
          l,
        ))
      (λ g. stays w v)
step-Next w (calls i) v = elim (Option-cases (lookup i w.callers)) [
  | inl e ↦ rw (e, step) (begun-Next w.runtime.state i w refl v)
  | inr (c, e) ↦ rw (e, step) (stays w v)
]
step-Next w (starts_graceful i) v = elim (Option-cases (lookup i w.callers)) [
  | inl e ↦ rw (e, step) (stays w v)
  | inr (c, e) ↦ rw (e, step) (begin_graceful-Next i w c (placed i c w e v) v)
]
step-Next w (sees_graceful i) v = elim (Option-cases (lookup i w.callers)) [
  | inl e ↦ rw (e, step) (stays w v)
  | inr (c, e) ↦ rw (e, step) (see_graceful-Next i w c v)
]
step-Next w (context_ends i f) v = elim (Option-cases (lookup i w.callers)) [
  | inl e ↦ rw (e, step) (stays w v)
  | inr (c, e) ↦ rw (e, step) (end_context-Next i f w c (placed i c w e v) v)
]
step-Next w (sees_done i) v = elim (Option-cases (lookup i w.callers)) [
  | inl e ↦ rw (e, step) (stays w v)
  | inr (c, e) ↦ rw (e, step) (see_done-Next i w c (placed i c w e v) v)
]

run-IsValid : (actions : List Action) (w : World) → IsValid w → IsValid (run w actions)
unfolding run
run-IsValid [] w v = v
run-IsValid (a ∷ rest) w v = run-IsValid rest (step w a) (step-Next w a v).0

initial-IsValid : IsValid initial
initial-IsValid = (((refl, refl), (refl, refl, refl, refl, refl)), tt)

pub reached-IsValid : (actions : List Action) → IsValid (run initial actions)
reached-IsValid actions = run-IsValid actions initial initial-IsValid

served_once : (s : RuntimeState) (r : Runtime) → Phase s r → r.served ≤ 1
served_once state_new r p = omega (arith, p.0)
served_once state_running r p = omega (arith, p.0)
served_once state_stopping r p = omega (arith, p.0)
served_once state_stopped r p = elim p.1 [
  | inl never ↦ omega (arith, never.0)
  | inr once ↦ omega (arith, once.0)
]

count-le : (b : Bool) → count b ≤ 1
count-le true = omega arith
count-le false = omega arith

-- In any interleaving of Start, of calls of Shutdown and of the goroutines, the server serves at most
-- once, and neither of its channels is closed twice.
pub run_closes_once :
    (actions : List Action)
    → let r = (run initial actions).runtime in
      (r.served ≤ 1) × (r.done_closed ≤ 1) × (r.graceful_closed ≤ 1)
run_closes_once actions =
    let r : Runtime = (run initial actions).runtime in
    let v : IsSound r = (reached-IsValid actions).0 in
    (
      served_once r.state r v.1,
      omega (arith, v.0.0, count-le r.done_once),
      omega (arith, v.0.1, count-le r.shutdown_once),
    )

stopped-idle :
    (s : RuntimeState) (r : Runtime) → is_stopped s ≡ true → Phase s r → r.serving ≡ false
stopped-idle state_new r h p = cc
stopped-idle state_running r h p = cc
stopped-idle state_stopping r h p = cc
stopped-idle state_stopped r h p = p.0

-- When a call of Shutdown has returned, with or without an error, the server is stopped and no
-- goroutine serves.
pub returned_stopped :
    (actions : List Action) (i : ℕ) (result : Option Failure)
    → lookup i (run initial actions).callers ≡ some (returned result)
    → let r = (run initial actions).runtime in (is_stopped r.state ≡ true) × (r.serving ≡ false)
returned_stopped actions i result e =
    let w : World = run initial actions in
    let v : IsValid w = reached-IsValid actions in
    let h : is_stopped w.runtime.state ≡ true = placed i (returned result) w e v in
    (h, stopped-idle w.runtime.state w.runtime h v.0.1)

run-quiet :
    (actions : List Action) (w : World)
    → IsValid w
    → is_early w.runtime.state ≡ false
    → (run w actions).runtime.err ≡ w.runtime.err
unfolding run
run-quiet [] w v h = refl
run-quiet (a ∷ rest) w v h =
    let (v', l) = step-Next w a v in
    elim l.1 [
      | inl early ↦ absurd (ground (arith, early, h))
      | inr kept ↦ run-quiet rest (step w a) v' kept.0 ∙ kept.2
    ]

-- Once a call of Shutdown has told a server that serves to stop, no error of it is ever recorded,
-- whatever Serve returns then.
pub stopping_is_orderly :
    (before after : List Action)
    → (run initial before).runtime.state ≡ state_stopping
    → (run (run initial before) after).runtime.err ≡ none
stopping_is_orderly before after e =
    let w : World = run initial before in
    let v : IsValid w = reached-IsValid before in
    run-quiet after w v (ap is_early e) ∙ (at_state state_stopping w.runtime e v.0).2
