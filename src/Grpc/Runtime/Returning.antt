-- ===== src/Grpc/Runtime/Returning.antt =====
-- A call of Shutdown in internal/transport/grpcserver/runtime.go returns when the library's server has
-- done what it was told.
use go_max_tech_stack.Grpc.Runtime.Ending.{
  IsOver, over-IsDone, step-IsOver, run-IsOver, server_ends, server_ends-IsOver, last_steps,
  done_seen, found-moved, begun_waits, ended_forces, closed_returns,
}
use go_max_tech_stack.Grpc.Runtime.Steps.{
  Caller, closes, begins, waits, forces, finishes, returned, World, Action, step, run, initial,
  sees_graceful, sees_done, moved, see_graceful, starts_graceful, context_ends,
}
use go_max_tech_stack.Failure.{Failure}
use go_max_tech_stack.Prelude.Assoc.{lookup}
use go_max_tech_stack.Prelude.{List, Option, [], ap, ltb, none, refl, some, true, ℕ, ◌∙◌, ◌∷◌, ◌≡◌}

graceful_passes :
    (i : ℕ) (w : World)
    → ltb 0 w.runtime.graceful_closed ≡ true
    → see_graceful i w waits ≡ moved i (finishes none) w w.runtime
unfolding see_graceful
graceful_passes i w g = rw g refl

forced_passes :
    (i : ℕ) (w : World) (f : Failure)
    → ltb 0 w.runtime.graceful_closed ≡ true
    → see_graceful i w (forces f) ≡ moved i (finishes (some f)) w w.runtime
unfolding see_graceful
forced_passes i w f g = rw g refl

abbrev after : ℕ → World → List Action → Option Caller
after i w actions = lookup i (run w actions).callers

-- What the own steps of the caller `i`, from where it is, make it return. `f` is the error with which
-- its context may end.
abbrev pub Returns : ℕ → Failure → World → Caller → Type 0
Returns i f w begins =
    after i w (starts_graceful i ∷ sees_graceful i ∷ sees_done i ∷ []) ≡ some (returned none)
Returns i f w closes = after i w (sees_done i ∷ []) ≡ some (returned none)
Returns i f w waits =
    (after i w (sees_graceful i ∷ sees_done i ∷ []) ≡ some (returned none))
    × (after i w (context_ends i f ∷ sees_graceful i ∷ sees_done i ∷ []) ≡ some (returned (some f)))
Returns i f w (forces e) = after i w (sees_graceful i ∷ sees_done i ∷ []) ≡ some (returned (some e))
Returns i f w (finishes result) = after i w (sees_done i ∷ []) ≡ some (returned result)
Returns i f w (returned result) = after i w [] ≡ some (returned result)

waiting-Returns :
    (i : ℕ) (w : World)
    → IsOver w
    → lookup i w.callers ≡ some waits
    → after i w (sees_graceful i ∷ sees_done i ∷ []) ≡ some (returned none)
waiting-Returns i w o l =
    let d = over-IsDone w o in last_steps i w waits none (graceful_passes i w d.0) l d.1

forcing-Returns :
    (i : ℕ) (w : World) (e : Failure)
    → IsOver w
    → lookup i w.callers ≡ some (forces e)
    → after i w (sees_graceful i ∷ sees_done i ∷ []) ≡ some (returned (some e))
forcing-Returns i w e o l =
    let d = over-IsDone w o in last_steps i w (forces e) (some e) (forced_passes i w e d.0) l d.1

over-Returns :
    (i : ℕ) (f : Failure) (w : World) (c : Caller)
    → IsOver w
    → lookup i w.callers ≡ some c
    → Returns i f w c
unfolding run
over-Returns i f w begins o l =
    let u : World = step w (starts_graceful i) in
    waiting-Returns i u (step-IsOver w (starts_graceful i) o) (begun_waits i w l)
over-Returns i f w closes o l = closed_returns i w l
over-Returns i f w waits o l = (
  waiting-Returns i w o l,
  forcing-Returns i (step w (context_ends i f)) f (step-IsOver w (context_ends i f) o)
      (ended_forces i f w l),
)
over-Returns i f w (forces e) o l = forcing-Returns i w e o l
over-Returns i f w (finishes result) o l =
    ap (λ (v : World). lookup i v.callers) (done_seen i w result l (over-IsDone w o).1)
    ∙ found-moved i (returned result) w w.runtime
over-Returns i f w (returned result) o l = l

-- Once a call of Shutdown has told the server to stop, and GracefulStop and then Serve have returned,
-- and whatever the others have done before and since: a call of Shutdown that has not returned does so
-- by its own next steps, taken without another action between them. One that waits returns no error,
-- or that of its context if that ends first; one whose context has ended returns its error.
pub shutdown-Returns :
    (before since : List Action) (i : ℕ) (e : Option Failure) (f : Failure) (c : Caller)
    → (run initial before).runtime.shutdown_once ≡ true
    → lookup i (run (run (run initial before) (server_ends e)) since).callers ≡ some c
    → Returns i f (run (run (run initial before) (server_ends e)) since) c
shutdown-Returns before since i e f c h l =
    over-Returns i f (run (run (run initial before) (server_ends e)) since) c
      (run-IsOver since (run (run initial before) (server_ends e)) (server_ends-IsOver before e h))
      l
