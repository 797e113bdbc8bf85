-- ===== src/ApiServer.antt =====
-- How internal/api/server.go stops its components: cleanup, and the outcome that logShutdownSummary
-- reports. What a component does when it is told to stop is a parameter: the errors that
-- http.Server.Shutdown and Close, the gRPC runtime, the worker pool and the hub return. Each function
-- returns the calls that it makes, in order, beside its error. The HTTP and the HTTPS server stop at
-- the same time, and the error of either may be received first. The context of a component has the
-- deadline of the whole. The wait for the goroutines that serve, the log and the texts of errors are
-- left out. `Startup` is the first part of Run, `Outcomes` says what cleanup reports.
use go_max_tech_stack.Failure.{Failure, is, http_server_closed, context_deadline_exceeded, wrapped}
use go_max_tech_stack.Prelude.{
  ◌&&◌, ◌++◌, Bool, List, Option, String, [], false, if◌then◌else◌, none, some, true, ◌||◌, ◌∷◌,
  ◌==◌, ℕ,
}
pub mod Outcomes
pub mod Verdict
pub mod Startup
mod Examples

pub data ShutdownOutcome : Type 0 where
  outcome_graceful outcome_forced outcome_timed_out outcome_failed : ShutdownOutcome

abbrev pub outcome_tag : ShutdownOutcome → ℕ
outcome_tag outcome_graceful = 0
outcome_tag outcome_forced = 1
outcome_tag outcome_timed_out = 2
outcome_tag outcome_failed = 3

abbrev pub outcome_eq : ShutdownOutcome → ShutdownOutcome → Bool
outcome_eq o p = outcome_tag o == outcome_tag p

-- The errors of a shutdown: componentShutdownError, errors.Join, and any other error, in which there is
-- no componentShutdownError.
mutual
  pub data ShutdownError : Type 0 where
    component : String → ShutdownOutcome → Failure → ShutdownError
    joined : ShutdownErrors → ShutdownError
    other : Failure → ShutdownError

  pub data ShutdownErrors : Type 0 where
    nil : ShutdownErrors
    cons : ShutdownError → ShutdownErrors → ShutdownErrors

abbrev pub one : ShutdownError → ShutdownErrors
one e = cons e nil

unfoldable pub append_errors : ShutdownErrors → ShutdownErrors → ShutdownErrors
append_errors nil fs = fs
append_errors (cons e es) fs = cons e (append_errors es fs)

-- `errors.As(err, &componentErr)`: the outcome of the first component in the tree.
unfoldable mutual
  pub as_component : ShutdownError → Option ShutdownOutcome
  as_component (component name o e) = some o
  as_component (joined es) = first_component es
  as_component (other e) = none

  pub first_component : ShutdownErrors → Option ShutdownOutcome
  first_component nil = none
  first_component (cons e es) = elim (as_component e) [
    | some o ↦ some o
    | none ↦ first_component es
  ]

abbrev pub is_outcome : Option ShutdownOutcome → ShutdownOutcome → Bool
is_outcome none o = false
is_outcome (some p) o = outcome_eq p o

-- hasShutdownOutcome of an error, and of the children that an error unwraps to.
unfoldable mutual
  unfolding as_component

  pub has_shutdown_outcome : ShutdownError → ShutdownOutcome → Bool
  has_shutdown_outcome (component name p e) o = is_outcome (some p) o
  has_shutdown_outcome (joined es) o = is_outcome (as_component (joined es)) o || has_among es o
  has_shutdown_outcome (other e) o = false

  pub has_among : ShutdownErrors → ShutdownOutcome → Bool
  has_among nil o = false
  has_among (cons e es) o = has_shutdown_outcome e o || has_among es o

abbrev pub has_in : Option ShutdownError → ShutdownOutcome → Bool
has_in none o = false
has_in (some e) o = has_shutdown_outcome e o

abbrev pub is_nil {ℓ} : {A : Type ℓ} → Option A → Bool
is_nil none = true
is_nil (some e) = false

unfoldable pub overall_shutdown_outcome : Option Failure → Option ShutdownError → ShutdownOutcome
unfolding has_shutdown_outcome
overall_shutdown_outcome run_err cleanup_err =
    if is_nil run_err && is_nil cleanup_err
    then outcome_graceful
    else if has_in cleanup_err outcome_forced
    then outcome_forced
    else if has_in cleanup_err outcome_timed_out
    then outcome_timed_out
    else outcome_failed

pub data Call : Type 0 where
  sets_not_ready stops_accepting : Call
  shuts_down closes_server : String → Call
  shuts_down_grpc stops_pool closes_hub : Call

-- What Shutdown and Close of an http.Server return.
pub record HttpServer : Type 0 where
  pub shutdown : Option Failure
  pub close : Option Failure

-- `closeErr != nil && !errors.Is(closeErr, http.ErrServerClosed)`.
unfoldable pub close_failure : Option Failure → Option Failure
close_failure none = none
close_failure (some e) = if is e http_server_closed then none else some e

-- The error of a server that was closed after Shutdown had failed with this outcome.
unfoldable pub closed_error : String → ShutdownOutcome → Failure → Option Failure → ShutdownError
closed_error name o e none = component name o e
closed_error name o e (some f) =
    joined (cons (component name o e) (one (component name outcome_failed f)))

-- The end of a server whose Close and Shutdown return these.
unfoldable pub shutdown_of : String → Option Failure → Option Failure → List Call × ShutdownErrors
unfolding close_failure closed_error
shutdown_of name close none = (shuts_down name ∷ [], nil)
shutdown_of name close (some e) = if is e http_server_closed then (shuts_down name ∷ [], nil) else (
  shuts_down name ∷ closes_server name ∷ [],
  one (
      closed_error name (if is e context_deadline_exceeded then outcome_forced else outcome_failed)
        e (close_failure close)),
)

unfoldable pub shutdown_server : String → HttpServer → List Call × ShutdownErrors
unfolding shutdown_of
shutdown_server name srv = shutdown_of name srv.close srv.shutdown

-- The flag is whether the error of HTTPS is received first.
unfoldable pub shutdown_http_servers :
    Bool → HttpServer → Option HttpServer → List Call × ShutdownErrors
unfolding shutdown_server append_errors
shutdown_http_servers swapped http none = shutdown_server "http" http
shutdown_http_servers swapped http (some https) =
    let (calls, es) = shutdown_server "http" http in
    let (more, fs) = shutdown_server "https" https in
    (calls ++ more, if swapped then append_errors fs es else append_errors es fs)

-- shutdownGRPC and shutdownWorkerPool: the error of a component that has failed.
unfoldable pub stop_error : String → ShutdownOutcome → Option Failure → ShutdownErrors
stop_error name late none = nil
stop_error name late (some e) =
    one (component name (if is e context_deadline_exceeded then late else outcome_failed) e)

-- The components, by the errors that they return; gRPC and the hub may be missing.
pub record Components : Type 0 where
  pub http : HttpServer
  pub https : Option HttpServer
  pub grpc : Option (Option Failure)
  pub pool : Option Failure
  pub hub : Option (Option Failure)

unfoldable pub shutdown_grpc : Option (Option Failure) → List Call × ShutdownErrors
unfolding stop_error
shutdown_grpc none = ([], nil)
shutdown_grpc (some result) = (shuts_down_grpc ∷ [], stop_error "grpc" outcome_forced result)

unfoldable pub shutdown_worker_pool : Option Failure → List Call × ShutdownErrors
unfolding stop_error
shutdown_worker_pool result = (stops_pool ∷ [], stop_error "workerpool" outcome_timed_out result)

unfoldable pub close_hub : Option (Option Failure) → List Call × ShutdownErrors
close_hub none = ([], nil)
close_hub (some none) = (closes_hub ∷ [], nil)
close_hub (some (some e)) = (closes_hub ∷ [], one (other e))

abbrev pub join_errors : ShutdownErrors → Option ShutdownError
join_errors nil = none
join_errors (cons e es) = some (joined (cons e es))

unfoldable pub cleanup : Bool → Components → List Call × Option ShutdownError
unfolding shutdown_http_servers shutdown_grpc shutdown_worker_pool close_hub append_errors
cleanup swapped c =
    let (a, es) = shutdown_http_servers swapped c.http c.https in
    let (b, fs) = shutdown_grpc c.grpc in
    let (d, gs) = shutdown_worker_pool c.pool in
    let (e, hs) = close_hub c.hub in
    (
      sets_not_ready ∷ stops_accepting ∷ (a ++ (b ++ (d ++ e))),
      join_errors (append_errors es (append_errors fs (append_errors gs hs))),
    )

-- What ends the select of Run: the context, a server that fails, or the gRPC server with its error.
pub data Trigger : Type 0 where
  context_ended : Trigger
  server_failed : String → Failure → Trigger
  grpc_ended : Option Failure → Trigger

unfoldable pub run_error : Trigger → Option Failure
run_error context_ended = none
run_error (server_failed name e) = some (wrapped "server failed" e)
run_error (grpc_ended none) = none
run_error (grpc_ended (some e)) = some (wrapped "grpc server failed" e)

-- The outcome that the end of Run reports.
unfoldable pub reported_outcome : Trigger → Bool → Components → ShutdownOutcome
unfolding run_error cleanup overall_shutdown_outcome
reported_outcome trigger swapped c =
    overall_shutdown_outcome (run_error trigger) (cleanup swapped c).1
