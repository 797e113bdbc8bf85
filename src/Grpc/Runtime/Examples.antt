-- ===== src/Grpc/Runtime/Examples.antt =====
-- A gRPC server that is told to stop twice, the second time without patience.
use go_max_tech_stack.Grpc.Runtime.{start, ready, done, runtime_err}
use go_max_tech_stack.Grpc.Runtime.Steps.{
  Action, starts, serve_returns, graceful_returns, calls, starts_graceful, context_ends,
  sees_graceful, sees_done, run, initial, World, waits,
}
use go_max_tech_stack.Grpc.Runtime.Sound.{is_stopped}
use go_max_tech_stack.Grpc.Runtime.Safety.{run_closes_once, returned_stopped, stopping_is_orderly}
use go_max_tech_stack.Grpc.Runtime.Returning.{shutdown-Returns, Returns}
use go_max_tech_stack.Grpc.Runtime.Ending.{server_ends}
use go_max_tech_stack.Failure.{
  sentinel, context_deadline_exceeded, opaque, grpc_server_already_started, grpc_server_not_running,
  is,
}
use go_max_tech_stack.Prelude.{◌++◌, List, [], false, none, refl, some, true, ◌∷◌, ◌≡◌, ◌≤◌}

abbrev stopping : List Action
stopping = starts ∷ calls 1 ∷ calls 2 ∷ starts_graceful 2 ∷ starts_graceful 1 ∷ []

abbrev hurried : List Action
hurried = stopping ++ (context_ends 2 (sentinel context_deadline_exceeded) ∷ [])

abbrev all_returned : List Action
all_returned =
    hurried
    ++ (serve_returns (some (opaque "closed"))
        ∷ graceful_returns
        ∷ sees_graceful 1
        ∷ sees_done 1
        ∷ [])

-- Serve fails by itself: the error is kept, and Ready says so.
failed_by_itself :
    let r = (run initial (starts ∷ serve_returns (some (opaque "broken")) ∷ [])).runtime in
    (runtime_err (some r) ≡ some (opaque "broken"))
    × (ready (some r) ≡ some (sentinel grpc_server_not_running))
    × (done (some r) ≡ true)
unfolding run runtime_err ready done is
failed_by_itself = (refl, refl, refl)

-- It does not start again.
not_again :
    (start (run initial (starts ∷ serve_returns none ∷ starts ∷ [])).runtime).1
    ≡ some (sentinel grpc_server_already_started)
unfolding run start
not_again = refl

run_closes_once_example :
    let r = (run initial all_returned).runtime in
    (r.served ≤ 1) × (r.done_closed ≤ 1) × (r.graceful_closed ≤ 1)
run_closes_once_example = run_closes_once all_returned

returned_stopped_example :
    let r = (run initial all_returned).runtime in (is_stopped r.state ≡ true) × (r.serving ≡ false)
unfolding run
returned_stopped_example = returned_stopped all_returned 1 none refl

stopping_is_orderly_example :
    (run (run initial stopping) (serve_returns (some (opaque "closed")) ∷ [])).runtime.err ≡ none
unfolding run
stopping_is_orderly_example =
    stopping_is_orderly stopping (serve_returns (some (opaque "closed")) ∷ []) refl

abbrev over : World
over = run (run initial stopping) (server_ends none)

shutdown-Returns_example :
    Returns 1 (sentinel context_deadline_exceeded) (run over (starts ∷ calls 9 ∷ [])) waits
unfolding run
shutdown-Returns_example =
    shutdown-Returns stopping (starts ∷ calls 9 ∷ []) 1 none (sentinel context_deadline_exceeded)
      waits refl refl
