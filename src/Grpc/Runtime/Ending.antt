-- ===== src/Grpc/Runtime/Ending.antt =====
-- What GracefulStop and Serve leave when they have returned, after a call of Shutdown in
-- internal/transport/grpcserver/runtime.go has told the server to stop; and the steps of one caller.
use go_max_tech_stack.Grpc.Runtime.{
  Runtime, RuntimeState, state_new, state_running, state_stopping, state_stopped, finish_graceful,
  close_done, finish_serve, force_stop, start_graceful, stop_never_started,
}
use go_max_tech_stack.Grpc.Runtime.Steps.{
  Caller, waits, forces, finishes, returned, World, Action, step, run, initial, serve_returns,
  graceful_returns, sees_graceful, sees_done, moved, see_graceful, see_done, begin_graceful, begins,
  closes, context_ends, end_context, starts_graceful,
}
use go_max_tech_stack.Grpc.Runtime.Sound.{IsCounted, Phase, either, is_stopped}
use go_max_tech_stack.Grpc.Runtime.Callers.{IsValid}
use go_max_tech_stack.Grpc.Runtime.Safety.{step-Next, reached-IsValid}
use go_max_tech_stack.Failure.{Failure, same}
use go_max_tech_stack.Prelude.Assoc.{lookup, lookup-insert}
use go_max_tech_stack.Prelude.{
  Option, arith, inl, inr, ltb, refl, true, ◌≡◌, List, [], false, if-==, some, ℕ, ◌∙◌, ◌∷◌, ap,
  none, Bool-cases, ◌≤◌,
}

positive : (n : ℕ) → ltb 0 n ≡ true → 1 ≤ n
positive n h = ground (arith, h)

-- Nothing is left to wait for.
abbrev pub IsDone : World → Type 0
IsDone w = (ltb 0 w.runtime.graceful_closed ≡ true) × (ltb 0 w.runtime.done_closed ≡ true)

graceful_ended :
    (w : World)
    → w.runtime.shutdown_once ≡ true
    → IsCounted w.runtime
    → let u = step w graceful_returns in
      (ltb 0 u.runtime.graceful_closed ≡ true)
      × (u.runtime.shutdown_once ≡ true)
      × (u.callers ≡ w.callers)
unfolding step
graceful_ended w h c =
    either
      (λ (u : World).
        (ltb 0 u.runtime.graceful_closed ≡ true)
        × (u.runtime.shutdown_once ≡ true)
        × (u.callers ≡ w.callers))
      w.runtime.graceful_runs {x = record w { runtime = finish_graceful w.runtime }} {y = w}
      (λ g. (ground arith, h, refl)) (λ g. (ground (arith, c.1, g, h), h, refl))

pub found-moved :
    (i : ℕ) (c : Caller) (w : World) (r : Runtime) → lookup i (moved i c w r).callers ≡ some c
found-moved i c w r = lookup-insert i i c w.callers ∙ if-== i (some c) (lookup i w.callers)

graceful_seen :
    (i : ℕ) (w : World) (c : Caller)
    → lookup i w.callers ≡ some c
    → step w (sees_graceful i) ≡ see_graceful i w c
unfolding step
graceful_seen i w c e = rw (step, e) refl

pub done_seen :
    (i : ℕ) (w : World) (result : Option Failure)
    → lookup i w.callers ≡ some (finishes result)
    → ltb 0 w.runtime.done_closed ≡ true
    → step w (sees_done i) ≡ moved i (returned result) w w.runtime
unfolding step
done_seen i w result e d = rw (step, e, see_done, d) refl

pub last_steps :
    (i : ℕ) (w : World) (c : Caller) (result : Option Failure)
    → (see_graceful i w c ≡ moved i (finishes result) w w.runtime)
    → lookup i w.callers ≡ some c
    → ltb 0 w.runtime.done_closed ≡ true
    → lookup i (run w (sees_graceful i ∷ sees_done i ∷ [])).callers ≡ some (returned result)
unfolding run
last_steps i w c result s e d =
    let u : World = moved i (finishes result) w w.runtime in
    let seen : step w (sees_graceful i) ≡ u = graceful_seen i w c e ∙ s in
    let last : step u (sees_done i) ≡ moved i (returned result) u u.runtime =
      done_seen i u result (found-moved i (finishes result) w w.runtime) d in
    ap (λ (v : World). lookup i v.callers) (ap (λ v. step v (sees_done i)) seen ∙ last)
    ∙ found-moved i (returned result) u u.runtime

-- GracefulStop and Serve have returned, after a call of Shutdown has told the server to stop.
abbrev pub IsOver : World → Type 0
IsOver w =
    IsValid w
    × (w.runtime.shutdown_once ≡ true)
    × (is_stopped w.runtime.state ≡ true)
    × (1 ≤ w.runtime.graceful_closed)

stopped-done :
    (s : RuntimeState) (r : Runtime)
    → is_stopped s ≡ true
    → r.shutdown_once ≡ true
    → Phase s r
    → r.done_once ≡ true
stopped-done state_new r q h p = cc
stopped-done state_running r q h p = cc
stopped-done state_stopping r q h p = cc
stopped-done state_stopped r q h p = elim p.1 [
  | inl never ↦ absurd (ground (arith, never.1, h))
  | inr once ↦ once.1
]

pub over-IsDone : (w : World) → IsOver w → IsDone w
over-IsDone w (v, h, q, g) =
    let told : w.runtime.done_once ≡ true = stopped-done w.runtime.state w.runtime q h v.0.1 in
    (ground (arith, g), ground (arith, v.0.0.0, told))

pub step-IsOver : (w : World) (a : Action) → IsOver w → IsOver (step w a)
step-IsOver w a (v, h, q, g) =
    let (v', l) = step-Next w a v in
    (v', ground (arith, l.2, h), ground (arith, l.0, q), omega (arith, l.3, g))

pub run-IsOver : (actions : List Action) (w : World) → IsOver w → IsOver (run w actions)
unfolding run
run-IsOver [] w o = o
run-IsOver (a ∷ rest) w o = run-IsOver rest (step w a) (step-IsOver w a o)

not_serving-stopped :
    (s : RuntimeState) (r : Runtime)
    → r.serving ≡ false
    → r.shutdown_once ≡ true
    → Phase s r
    → is_stopped s ≡ true
not_serving-stopped state_new r n h p = cc
not_serving-stopped state_running r n h p = cc
not_serving-stopped state_stopping r n h p = cc
not_serving-stopped state_stopped r n h p = refl

stopped_after :
    (e : Option Failure) (w : World)
    → Phase w.runtime.state w.runtime
    → w.runtime.shutdown_once ≡ true
    → is_stopped (step w (serve_returns e)).runtime.state ≡ true
unfolding step finish_serve close_done
stopped_after e w p h = elim (Bool-cases w.runtime.serving) [
  | inl s ↦ rw s (elim (Bool-cases w.runtime.done_once) [ inl d ↦ rw d refl | inr d ↦ rw d refl ])
  | inr s ↦ rw s (not_serving-stopped w.runtime.state w.runtime s h p)
]

pub begun_waits :
    (i : ℕ) (w : World)
    → lookup i w.callers ≡ some begins
    → lookup i (step w (starts_graceful i)).callers ≡ some waits
unfolding step begin_graceful
begun_waits i w l = rw (l, step) (found-moved i waits w (start_graceful w.runtime))

pub ended_forces :
    (i : ℕ) (f : Failure) (w : World)
    → lookup i w.callers ≡ some waits
    → lookup i (step w (context_ends i f)).callers ≡ some (forces f)
unfolding step end_context
ended_forces i f w l = rw (l, step) (found-moved i (forces f) w (force_stop w.runtime))

pub closed_returns :
    (i : ℕ) (w : World)
    → lookup i w.callers ≡ some closes
    → lookup i (step w (sees_done i)).callers ≡ some (returned none)
unfolding step see_done
closed_returns i w l = rw (l, step) (found-moved i (returned none) w (stop_never_started w.runtime))

-- The server's own two steps.
abbrev pub server_ends : Option Failure → List Action
server_ends e = graceful_returns ∷ serve_returns e ∷ []

pub server_ends-IsOver :
    (before : List Action) (e : Option Failure)
    → (run initial before).runtime.shutdown_once ≡ true
    → IsOver (run (run initial before) (server_ends e))
unfolding run
server_ends-IsOver before e h =
    let w : World = run initial before in
    let v : IsValid w = reached-IsValid before in
    let u : World = step w graceful_returns in
    let (g, h', same) = graceful_ended w h v.0.0 in
    let v' : IsValid u = (step-Next w graceful_returns v).0 in
    let (v'', l) = step-Next u (serve_returns e) v' in
    (
      v'',
      ground (arith, l.2, h'),
      stopped_after e u v'.0.1 h',
      omega (arith, l.3, positive u.runtime.graceful_closed g),
    )
