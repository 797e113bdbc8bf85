-- ===== src/Grpc/Runtime/Calls.antt =====
-- Each step of a caller of Shutdown keeps what holds of the gRPC server and of all the callers, in
-- internal/transport/grpcserver/runtime.go.
use go_max_tech_stack.Grpc.Runtime.{
  Runtime, RuntimeState, state_new, state_running, state_stopping, state_stopped, begin_shutdown_in,
  force_stop, start_graceful, stop_never_started,
}
use go_max_tech_stack.Grpc.Runtime.Steps.{
  Caller, closes, begins, waits, forces, finishes, returned, World, begin_graceful, call_begun,
  end_context, see_done, see_graceful,
}
use go_max_tech_stack.Grpc.Runtime.Sound.{
  IsSound, is_early, is_stopped, at_state, begin_shutdown_in-IsSound, either, force_stop-IsSound,
  start_graceful-IsSound, stop_never_started-IsSound,
}
use go_max_tech_stack.Grpc.Runtime.Callers.{
  IsValid, IsPlaced, Later, Later-refl, begin_shutdown_in-Later, moved-Next, Next, stays,
}
use go_max_tech_stack.Failure.{Failure}
use go_max_tech_stack.Prelude.{◌+◌, ap, arith, inl, ltb, none, refl, some, true, ℕ, ◌∙◌, ◌≡◌}

pub begun-Next :
    (s : RuntimeState) (i : ℕ) (w : World)
    → w.runtime.state ≡ s
    → IsValid w
    → Next w (call_begun i w (begin_shutdown_in s w.runtime))
unfolding call_begun begin_shutdown_in
begun-Next state_new i w e v =
    let r : Runtime = record w.runtime { state = state_stopped } in
    moved-Next i closes w r (begin_shutdown_in-IsSound state_new w.runtime e v.0)
      (begin_shutdown_in-Later state_new w.runtime e) refl v
begun-Next state_running i w e v =
    let r : Runtime = record w.runtime { state = state_stopping } in
    moved-Next i begins w r (begin_shutdown_in-IsSound state_running w.runtime e v.0)
      (begin_shutdown_in-Later state_running w.runtime e)
      (refl, (at_state state_running w.runtime e v.0).0) v
begun-Next state_stopping i w e v =
    moved-Next i begins w w.runtime v.0 (Later-refl w.runtime)
      (ap is_early e, (at_state state_stopping w.runtime e v.0).0) v
begun-Next state_stopped i w e v =
    moved-Next i (returned none) w w.runtime v.0 (Later-refl w.runtime) (ap is_stopped e) v

start_graceful-Later : (r : Runtime) → Later r (start_graceful r)
unfolding start_graceful
start_graceful-Later r =
    let l : Later r r = Later-refl r in
    either (λ t. Later r t) r.shutdown_once {x = r}
      {y = record r { shutdown_once = true; graceful_runs = true }} (λ e. l)
      (λ e. (l.0, l.1, inl e, omega arith))

start_graceful-once : (r : Runtime) → (start_graceful r).shutdown_once ≡ true
unfolding start_graceful
start_graceful-once r =
    either (λ (t : Runtime). t.shutdown_once ≡ true) r.shutdown_once {x = r}
      {y = record r { shutdown_once = true; graceful_runs = true }} (λ e. e) (λ e. refl)

pub begin_graceful-Next :
    (i : ℕ) (w : World) (c : Caller)
    → IsPlaced w.runtime c
    → IsValid w
    → Next w (begin_graceful i w c)
unfolding begin_graceful
begin_graceful-Next i w begins p v =
    moved-Next i waits w (start_graceful w.runtime) (start_graceful-IsSound w.runtime p v.0)
      (start_graceful-Later w.runtime) (start_graceful-once w.runtime) v
begin_graceful-Next i w closes p v = stays w v
begin_graceful-Next i w waits p v = stays w v
begin_graceful-Next i w (forces e) p v = stays w v
begin_graceful-Next i w (finishes result) p v = stays w v
begin_graceful-Next i w (returned result) p v = stays w v

pub see_graceful-Next : (i : ℕ) (w : World) (c : Caller) → IsValid w → Next w (see_graceful i w c)
unfolding see_graceful
see_graceful-Next i w waits v =
    either (Next w) (ltb 0 w.runtime.graceful_closed)
      (λ e.
        moved-Next i (finishes none) w w.runtime v.0 (Later-refl w.runtime) (ground (arith, e)) v)
      (λ e. stays w v)
see_graceful-Next i w (forces f) v =
    either (Next w) (ltb 0 w.runtime.graceful_closed)
      (λ e.
        moved-Next i (finishes (some f)) w w.runtime v.0 (Later-refl w.runtime) (ground (arith, e))
          v)
      (λ e. stays w v)
see_graceful-Next i w closes v = stays w v
see_graceful-Next i w begins v = stays w v
see_graceful-Next i w (finishes result) v = stays w v
see_graceful-Next i w (returned result) v = stays w v

force_stop-Later : (r : Runtime) → Later r (force_stop r)
unfolding force_stop
force_stop-Later r =
    let l : Later r r = Later-refl r in
    either (λ t. Later r t) r.force_stop_once {x = r}
      {y = record r { force_stop_once = true; stops = r.stops + 1 }} (λ e. l) (λ e. l)

force_stop-once : (r : Runtime) → (force_stop r).shutdown_once ≡ r.shutdown_once
unfolding force_stop
force_stop-once r =
    either (λ (t : Runtime). t.shutdown_once ≡ r.shutdown_once) r.force_stop_once {x = r}
      {y = record r { force_stop_once = true; stops = r.stops + 1 }} (λ e. refl) (λ e. refl)

pub end_context-Next :
    (i : ℕ) (f : Failure) (w : World) (c : Caller)
    → IsPlaced w.runtime c
    → IsValid w
    → Next w (end_context i f w c)
unfolding end_context
end_context-Next i f w waits p v =
    moved-Next i (forces f) w (force_stop w.runtime) (force_stop-IsSound w.runtime v.0)
      (force_stop-Later w.runtime) (force_stop-once w.runtime ∙ p) v
end_context-Next i f w closes p v = stays w v
end_context-Next i f w begins p v = stays w v
end_context-Next i f w (forces e) p v = stays w v
end_context-Next i f w (finishes result) p v = stays w v
end_context-Next i f w (returned result) p v = stays w v

-- The channel `done` is closed only by who has stopped the server.
pub done_stopped :
    (s : RuntimeState) (r : Runtime)
    → r.state ≡ s
    → IsSound r
    → ltb 0 r.done_closed ≡ true
    → is_stopped s ≡ true
done_stopped state_stopped r e h d = refl
done_stopped state_new r e h d = absurd (ground (arith, h.0.0, (at_state state_new r e h).3, d))
done_stopped state_running r e h d =
    absurd (ground (arith, h.0.0, (at_state state_running r e h).3, d))
done_stopped state_stopping r e h d =
    absurd (ground (arith, h.0.0, (at_state state_stopping r e h).3, d))

stop_never_started-Later :
    (r : Runtime) → is_stopped r.state ≡ true → Later r (stop_never_started r)
unfolding stop_never_started
stop_never_started-Later r h =
    let l : Later r r = Later-refl r in either (λ t. Later r t) r.done_once (λ e. l) (λ e. l)

stop_never_started-stopped :
    (r : Runtime) → is_stopped r.state ≡ true → is_stopped (stop_never_started r).state ≡ true
unfolding stop_never_started
stop_never_started-stopped r h =
    either (λ (t : Runtime). is_stopped t.state ≡ true) r.done_once (λ e. h) (λ e. h)

pub see_done-Next :
    (i : ℕ) (w : World) (c : Caller) → IsPlaced w.runtime c → IsValid w → Next w (see_done i w c)
unfolding see_done
see_done-Next i w (finishes result) p v =
    either (Next w) (ltb 0 w.runtime.done_closed)
      (λ e.
        moved-Next i (returned result) w w.runtime v.0 (Later-refl w.runtime)
          (done_stopped w.runtime.state w.runtime refl v.0 e) v)
      (λ e. stays w v)
see_done-Next i w closes p v =
    moved-Next i (returned none) w (stop_never_started w.runtime)
      (stop_never_started-IsSound w.runtime p v.0) (stop_never_started-Later w.runtime p)
      (stop_never_started-stopped w.runtime p) v
see_done-Next i w begins p v = stays w v
see_done-Next i w waits p v = stays w v
see_done-Next i w (forces e) p v = stays w v
see_done-Next i w (returned result) p v = stays w v
