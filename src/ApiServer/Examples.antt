-- ===== src/ApiServer/Examples.antt =====
-- Ends and starts of the service.
use go_max_tech_stack.ApiServer.{
  outcome_forced, outcome_failed, Components, cleanup, sets_not_ready, stops_accepting, shuts_down,
  closes_server, shuts_down_grpc, stops_pool, closes_hub, context_ended, grpc_ended,
  reported_outcome, run_error, is_nil,
}
use go_max_tech_stack.ApiServer.Outcomes.{verdict}
use go_max_tech_stack.ApiServer.Verdict.{reported_outcome_exact}
use go_max_tech_stack.ApiServer.Startup.{
  Attempts, start_up, start_up_settles, IsServing, IsReleased, disabled_grpc_fails, passed,
}
use go_max_tech_stack.Failure.{
  sentinel, opaque, context_deadline_exceeded, http_server_closed, is, grpc_server_runtime_required,
}
use go_max_tech_stack.Prelude.{[], false, none, refl, some, true, ◌∷◌, ◌≡◌, ◌⊎◌}

-- HTTPS is cut off, and the pool is late.
abbrev hurried : Components
hurried = record {
  http = record { shutdown = none; close = none };
  https = some (record {
    shutdown = some (sentinel context_deadline_exceeded);
    close = some (sentinel http_server_closed);
  });
  grpc = some none;
  pool = some (sentinel context_deadline_exceeded);
  hub = some none;
}

-- Every component is told, whatever fails before it; the hub is closed last.
hurried_calls :
    (cleanup true hurried).0
    ≡ sets_not_ready
      ∷ stops_accepting
      ∷ shuts_down "http"
      ∷ shuts_down "https"
      ∷ closes_server "https"
      ∷ shuts_down_grpc
      ∷ stops_pool
      ∷ closes_hub
      ∷ []
unfolding cleanup is
hurried_calls = refl

hurried_forced : reported_outcome context_ended true hurried ≡ outcome_forced
unfolding reported_outcome is
hurried_forced = refl

broken_grpc :
    reported_outcome
      (grpc_ended (some (opaque "broken")))
      false
      (record hurried { https = none; pool = none })
    ≡ outcome_failed
unfolding reported_outcome is
broken_grpc = refl

reported_outcome_exact_example :
    reported_outcome context_ended true hurried ≡ verdict hurried (is_nil (run_error context_ended))
reported_outcome_exact_example = reported_outcome_exact context_ended true hurried

abbrev no_certificate : Attempts
no_certificate = record {
  tls_enable = true;
  listen = none;
  load_key_pair = some (opaque "no such file");
  listen_tls = none;
  start_pool = none;
  grpc = none;
}

start_up_settles_example :
    IsServing true none (start_up no_certificate) ⊎ IsReleased (start_up no_certificate)
start_up_settles_example = start_up_settles no_certificate

abbrev by_default : Attempts
by_default = record {
  tls_enable = false;
  listen = none;
  load_key_pair = none;
  listen_tls = none;
  start_pool = none;
  grpc = none;
}

-- Without gRPC the service stops with the error of a runtime that is nil.
default_fails :
    (start_up (record by_default { grpc = passed none })).1
    ≡ some (sentinel grpc_server_runtime_required)
unfolding start_up passed
default_fails = refl

disabled_grpc_fails_example : IsReleased (start_up (record by_default { grpc = passed none }))
disabled_grpc_fails_example = disabled_grpc_fails by_default
