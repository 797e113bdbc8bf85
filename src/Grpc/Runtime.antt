-- ===== src/Grpc/Runtime.antt =====
-- internal/transport/grpcserver/runtime.go: the life of the gRPC server. `Runtime` holds the fields
-- that its methods change; a `sync.Once` is whether it has run, a channel is how often it was closed,
-- which must not be twice. What the code starts is kept as well: the goroutines that serve, and the one
-- that runs GracefulStop. A pointer that may be nil is an Option. The library's server is what the
-- steps choose: when Serve and GracefulStop return, and with what.
-- The calls run as interleaved steps in `Grpc.Runtime.Steps`.
use go_max_tech_stack.Failure.{
  Failure, sentinel, is, grpc_server_not_running, grpc_server_already_started,
  grpc_server_runtime_required, grpc_server_stopped,
}
use go_max_tech_stack.Prelude.{
  ◌&&◌, ◌+◌, Bool, Option, false, if◌then◌else◌, ltb, none, not, some, true, ℕ,
}
pub mod Steps
pub mod Sound
pub mod Callers
pub mod Calls
pub mod Safety
pub mod Ending
pub mod Returning
mod Examples

pub data RuntimeState : Type 0 where
  state_new state_running state_stopping state_stopped : RuntimeState

pub record Runtime : Type 0 where
  pub state : RuntimeState
  pub err : Option Failure
  pub done_closed : ℕ
  pub done_once : Bool
  pub shutdown_once : Bool
  pub force_stop_once : Bool
  pub graceful_closed : ℕ
  -- The goroutines: how many were started to serve, and which run.
  pub served : ℕ
  pub serving : Bool
  pub graceful_runs : Bool
  -- Calls of `server.Stop`, and whether the listener was closed by hand.
  pub stops : ℕ
  pub listener_closed : Bool

-- What NewRuntimeWithConfig returns.
abbrev pub new_runtime : Runtime
new_runtime = record {
  state = state_new;
  err = none;
  done_closed = 0;
  done_once = false;
  shutdown_once = false;
  force_stop_once = false;
  graceful_closed = 0;
  served = 0;
  serving = false;
  graceful_runs = false;
  stops = 0;
  listener_closed = false;
}

abbrev pub is_running : RuntimeState → Bool
is_running state_running = true
is_running state_new = false
is_running state_stopping = false
is_running state_stopped = false

-- `r.doneOnce.Do(func() { close(r.done) })`.
unfoldable pub close_done : Runtime → Runtime
close_done r =
    if r.done_once then r else record r { done_once = true; done_closed = r.done_closed + 1 }

-- Start, up to the goroutine that it starts; its error.
unfoldable pub start_in : RuntimeState → Runtime → Runtime × Option Failure
start_in state_new r =
    (record r { state = state_running; served = r.served + 1; serving = true }, none)
start_in state_running r = (r, some (sentinel grpc_server_already_started))
start_in state_stopping r = (r, some (sentinel grpc_server_already_started))
start_in state_stopped r = (r, some (sentinel grpc_server_already_started))

unfoldable pub start : Runtime → Runtime × Option Failure
unfolding start_in
start r = start_in r.state r

unfoldable pub start_nil : Option Runtime → Option Failure
unfolding start
start_nil none = some (sentinel grpc_server_runtime_required)
start_nil (some r) = (start r).1

-- `err != nil && r.state == runtimeStateRunning && !errors.Is(err, grpc.ErrServerStopped)`.
unfoldable pub is_fatal : RuntimeState → Option Failure → Bool
is_fatal state none = false
is_fatal state (some e) = is_running state && not (is e grpc_server_stopped)

-- finishServe; the goroutine of Start ends with it.
unfoldable pub finish_serve : Option Failure → Runtime → Runtime × Bool
unfolding is_fatal close_done
finish_serve e r =
    let fatal = is_fatal r.state e in
    let told = if fatal then e else r.err in
    (close_done (record r { err = told; state = state_stopped; serving = false }), fatal)

-- What Shutdown does after beginShutdown: nothing, or close a server that never served, or wait.
pub data Begun : Type 0 where
  already_stopped never_started needs_graceful_stop : Begun

-- beginShutdown under its lock.
unfoldable pub begin_shutdown_in : RuntimeState → Runtime → Runtime × Begun
begin_shutdown_in state_new r = (record r { state = state_stopped }, never_started)
begin_shutdown_in state_running r = (record r { state = state_stopping }, needs_graceful_stop)
begin_shutdown_in state_stopping r = (r, needs_graceful_stop)
begin_shutdown_in state_stopped r = (r, already_stopped)

unfoldable pub begin_shutdown : Runtime → Runtime × Begun
unfolding begin_shutdown_in
begin_shutdown r = begin_shutdown_in r.state r

-- What beginShutdown does to a new server after it has left the lock.
unfoldable pub stop_never_started : Runtime → Runtime
unfolding close_done
stop_never_started r = close_done (record r { stops = r.stops + 1; listener_closed = true })

-- `r.shutdownOnce.Do(...)`, which starts the goroutine that runs GracefulStop.
unfoldable pub start_graceful : Runtime → Runtime
start_graceful r =
    if r.shutdown_once then r else record r { shutdown_once = true; graceful_runs = true }

-- `r.forceStopOnce.Do(r.server.Stop)`.
unfoldable pub force_stop : Runtime → Runtime
force_stop r =
    if r.force_stop_once then r else record r { force_stop_once = true; stops = r.stops + 1 }

-- The end of that goroutine: `close(r.gracefulDone)`.
unfoldable pub finish_graceful : Runtime → Runtime
finish_graceful r = record r { graceful_runs = false; graceful_closed = r.graceful_closed + 1 }

unfoldable pub ready : Option Runtime → Option Failure
ready none = some (sentinel grpc_server_not_running)
ready (some r) = if is_running r.state then none else some (sentinel grpc_server_not_running)

-- Whether the channel of Done is closed.
unfoldable pub done : Option Runtime → Bool
done none = true
done (some r) = ltb 0 r.done_closed

unfoldable pub runtime_err : Option Runtime → Option Failure
runtime_err none = some (sentinel grpc_server_runtime_required)
runtime_err (some r) = r.err
