-- ===== src/Grpc/Runtime/Steps.antt =====
-- The interleavings of internal/transport/grpcserver/runtime.go: any number of callers of Start and of
-- Shutdown, the goroutine that serves and the one that stops gracefully. Each lock is one step, and
-- so is each receipt from a channel; an action that cannot happen changes nothing.
use go_max_tech_stack.Grpc.Runtime.{
  Runtime, new_runtime, start, finish_serve, Begun, already_stopped, never_started,
  needs_graceful_stop, begin_shutdown, stop_never_started, start_graceful, force_stop,
  finish_graceful,
}
use go_max_tech_stack.Failure.{Failure}
use go_max_tech_stack.Prelude.Assoc.{lookup, insert}
use go_max_tech_stack.Prelude.{List, Option, [], if◌then◌else◌, ltb, none, some, ℕ, ◌∷◌}

-- Where a caller of Shutdown is.
pub data Caller : Type 0 where
  -- After beginShutdown has left the lock of a server that never served.
  closes : Caller
  -- Before shutdownOnce, on a server that serves or is stopping.
  begins : Caller
  -- At the select.
  waits : Caller
  -- Its context has ended with this error, and the server was told to stop.
  forces : Failure → Caller
  -- At `<-r.done`, with what it returns then.
  finishes : Option Failure → Caller
  returned : Option Failure → Caller

pub record World : Type 0 where
  pub runtime : Runtime
  pub callers : List (ℕ × Caller)

pub data Action : Type 0 where
  starts : Action
  serve_returns : Option Failure → Action
  graceful_returns : Action
  -- A new caller of Shutdown, and the steps of a caller.
  calls : ℕ → Action
  starts_graceful : ℕ → Action
  sees_graceful : ℕ → Action
  context_ends : ℕ → Failure → Action
  sees_done : ℕ → Action

-- The caller `i` is now there, and the server like that.
abbrev pub moved : ℕ → Caller → World → Runtime → World
moved i c w r = record w { runtime = r; callers = insert i c w.callers }

unfoldable pub call_begun : ℕ → World → Runtime × Begun → World
call_begun i w (r, already_stopped) = moved i (returned none) w r
call_begun i w (r, never_started) = moved i closes w r
call_begun i w (r, needs_graceful_stop) = moved i begins w r

unfoldable pub begin_graceful : ℕ → World → Caller → World
unfolding start_graceful
begin_graceful i w begins = moved i waits w (start_graceful w.runtime)
begin_graceful i w closes = w
begin_graceful i w waits = w
begin_graceful i w (forces e) = w
begin_graceful i w (finishes result) = w
begin_graceful i w (returned result) = w

unfoldable pub see_graceful : ℕ → World → Caller → World
see_graceful i w waits =
    if ltb 0 w.runtime.graceful_closed then moved i (finishes none) w w.runtime else w
see_graceful i w (forces e) =
    if ltb 0 w.runtime.graceful_closed then moved i (finishes (some e)) w w.runtime else w
see_graceful i w closes = w
see_graceful i w (finishes result) = w
see_graceful i w (returned result) = w
see_graceful i w begins = w

unfoldable pub end_context : ℕ → Failure → World → Caller → World
unfolding force_stop
end_context i e w waits = moved i (forces e) w (force_stop w.runtime)
end_context i e w closes = w
end_context i e w (forces f) = w
end_context i e w (finishes result) = w
end_context i e w (returned result) = w
end_context i e w begins = w

unfoldable pub see_done : ℕ → World → Caller → World
unfolding stop_never_started
see_done i w (finishes result) =
    if ltb 0 w.runtime.done_closed then moved i (returned result) w w.runtime else w
see_done i w closes = moved i (returned none) w (stop_never_started w.runtime)
see_done i w waits = w
see_done i w (forces e) = w
see_done i w (returned result) = w
see_done i w begins = w

unfoldable pub step : World → Action → World
unfolding start finish_serve finish_graceful begin_shutdown call_begun begin_graceful see_graceful
    end_context see_done lookup insert
step w starts = record w { runtime = (start w.runtime).0 }
step w (serve_returns e) =
    if w.runtime.serving then record w { runtime = (finish_serve e w.runtime).0 } else w
step w graceful_returns =
    if w.runtime.graceful_runs then record w { runtime = finish_graceful w.runtime } else w
step w (calls i) = elim (lookup i w.callers) [
  | none ↦ call_begun i w (begin_shutdown w.runtime)
  | some c ↦ w
]
step w (starts_graceful i) = elim (lookup i w.callers) [ none ↦ w | some c ↦ begin_graceful i w c ]
step w (sees_graceful i) = elim (lookup i w.callers) [ none ↦ w | some c ↦ see_graceful i w c ]
step w (context_ends i e) = elim (lookup i w.callers) [ none ↦ w | some c ↦ end_context i e w c ]
step w (sees_done i) = elim (lookup i w.callers) [ none ↦ w | some c ↦ see_done i w c ]

unfoldable pub run : World → List Action → World
unfolding step
run w [] = w
run w (a ∷ rest) = run (step w a) rest

abbrev pub initial : World
initial = record { runtime = new_runtime; callers = [] }
