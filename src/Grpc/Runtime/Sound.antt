-- ===== src/Grpc/Runtime/Sound.antt =====
-- What every interleaving keeps of the gRPC server of internal/transport/grpcserver/runtime.go.
use go_max_tech_stack.Grpc.Runtime.{
  Runtime, RuntimeState, state_new, state_running, state_stopping, state_stopped, start_in,
  finish_serve, begin_shutdown_in, finish_graceful, begin_shutdown, force_stop, start,
  start_graceful, stop_never_started,
}
use go_max_tech_stack.Failure.{Failure}
use go_max_tech_stack.Prelude.{
  ◌+◌, Bool, Option, arith, false, inl, inr, none, refl, subst, true, ℕ, ◌≡◌, ◌⊎◌, if◌then◌else◌,
}

abbrev pub count : Bool → ℕ
count true = 1
count false = 0

abbrev pub is_early : RuntimeState → Bool
is_early state_new = true
is_early state_running = true
is_early state_stopping = false
is_early state_stopped = false

abbrev pub is_stopped : RuntimeState → Bool
is_stopped state_new = false
is_stopped state_running = false
is_stopped state_stopping = false
is_stopped state_stopped = true

-- Each channel was closed as often as its sync.Once has run.
abbrev pub IsCounted : Runtime → Type 0
IsCounted r =
    (r.done_closed ≡ count r.done_once)
    × (r.graceful_closed + count r.graceful_runs ≡ count r.shutdown_once)

-- What a state of the server tells of the rest.
abbrev pub Phase : RuntimeState → Runtime → Type 0
Phase state_new r =
    (r.served ≡ 0)
    × (r.serving ≡ false)
    × (r.err ≡ none)
    × (r.done_once ≡ false)
    × (r.shutdown_once ≡ false)
Phase state_running r =
    (r.served ≡ 1)
    × (r.serving ≡ true)
    × (r.err ≡ none)
    × (r.done_once ≡ false)
    × (r.shutdown_once ≡ false)
Phase state_stopping r =
    (r.served ≡ 1) × (r.serving ≡ true) × (r.err ≡ none) × (r.done_once ≡ false)
Phase state_stopped r =
    (r.serving ≡ false)
    × (((r.served ≡ 0) × (r.shutdown_once ≡ false)) ⊎ ((r.served ≡ 1) × (r.done_once ≡ true)))

abbrev pub IsSound : Runtime → Type 0
IsSound r = IsCounted r × Phase r.state r

pub either {ℓ κ} :
    {A : Type ℓ} (P : A → Type κ) (b : Bool) {x y : A}
    → (b ≡ true → P x)
    → (b ≡ false → P y)
    → P (if b then x else y)
either P true h k = h refl
either P false h k = k refl

pub at_state : (s : RuntimeState) (r : Runtime) → r.state ≡ s → IsSound r → Phase s r
at_state s r e h = subst (λ t. Phase t r) e h.1

start_in-IsSound :
    (s : RuntimeState) (r : Runtime) → r.state ≡ s → IsSound r → IsSound (start_in s r).0
unfolding start_in
start_in-IsSound state_new r e h =
    let p = at_state state_new r e h in (h.0, (ground (arith, p), refl, p.2, p.3, p.4))
start_in-IsSound state_running r e h = h
start_in-IsSound state_stopping r e h = h
start_in-IsSound state_stopped r e h = h

pub begin_shutdown_in-IsSound :
    (s : RuntimeState) (r : Runtime) → r.state ≡ s → IsSound r → IsSound (begin_shutdown_in s r).0
unfolding begin_shutdown_in
begin_shutdown_in-IsSound state_new r e h =
    let p = at_state state_new r e h in (h.0, (p.1, inl (p.0, p.4)))
begin_shutdown_in-IsSound state_running r e h =
    let p = at_state state_running r e h in (h.0, (p.0, p.1, p.2, p.3))
begin_shutdown_in-IsSound state_stopping r e h = h
begin_shutdown_in-IsSound state_stopped r e h = h

-- Serve returns: the server has served once.
serving-Phase :
    (s : RuntimeState) (r : Runtime)
    → Phase s r
    → r.serving ≡ true
    → (r.served ≡ 1) × (r.done_once ≡ false)
serving-Phase state_new r p h = cc
serving-Phase state_running r p h = (p.0, p.3)
serving-Phase state_stopping r p h = (p.0, p.3)
serving-Phase state_stopped r p h = cc

pub finish_serve-IsSound :
    (e : Option Failure) (r : Runtime) → r.serving ≡ true → IsSound r → IsSound (finish_serve e r).0
unfolding finish_serve
finish_serve-IsSound e r s h =
    let p = serving-Phase r.state r h.1 s in
    rw p.1 ((ground (arith, h, p), h.0.1), (refl, inr (p.0, refl)))

finish_graceful-Phase : (s : RuntimeState) (r : Runtime) → Phase s r → Phase s (finish_graceful r)
unfolding finish_graceful
finish_graceful-Phase state_new r p = p
finish_graceful-Phase state_running r p = p
finish_graceful-Phase state_stopping r p = p
finish_graceful-Phase state_stopped r p = p

pub finish_graceful-IsSound :
    (r : Runtime) → r.graceful_runs ≡ true → IsSound r → IsSound (finish_graceful r)
unfolding finish_graceful
finish_graceful-IsSound r g h =
    ((h.0.0, ground (arith, h.0.1, g)), finish_graceful-Phase r.state r h.1)

-- A server that serves or has served, and was told to stop.
abbrev pub IsBegun : Runtime → Type 0
IsBegun r = (is_early r.state ≡ false) × (r.served ≡ 1)

start_graceful-Phase :
    (s : RuntimeState) (r : Runtime)
    → is_early s ≡ false
    → r.served ≡ 1
    → Phase s r
    → Phase s (record r { shutdown_once = true; graceful_runs = true })
start_graceful-Phase state_new r b o p = cc
start_graceful-Phase state_running r b o p = cc
start_graceful-Phase state_stopping r b o p = p
start_graceful-Phase state_stopped r b o p = (
  p.0,
  elim p.1 [ inl (zeroth, never) ↦ absurd (omega (arith, zeroth, o)) | inr once ↦ inr once ],
)

pub start_graceful-IsSound : (r : Runtime) → IsBegun r → IsSound r → IsSound (start_graceful r)
unfolding start_graceful
start_graceful-IsSound r b h =
    either IsSound r.shutdown_once {x = r}
      {y = record r { shutdown_once = true; graceful_runs = true }} (λ e. h)
      (λ e. ((h.0.0, ground (arith, h.0.1, e)), start_graceful-Phase r.state r b.0 b.1 h.1))

force_stop-Phase :
    (s : RuntimeState) (r : Runtime)
    → Phase s r
    → Phase s (record r { force_stop_once = true; stops = r.stops + 1 })
force_stop-Phase state_new r p = p
force_stop-Phase state_running r p = p
force_stop-Phase state_stopping r p = p
force_stop-Phase state_stopped r p = p

pub force_stop-IsSound : (r : Runtime) → IsSound r → IsSound (force_stop r)
unfolding force_stop
force_stop-IsSound r h =
    either IsSound r.force_stop_once {x = r}
      {y = record r { force_stop_once = true; stops = r.stops + 1 }} (λ e. h)
      (λ e. (h.0, force_stop-Phase r.state r h.1))

stopped-Phase :
    (s : RuntimeState) (r : Runtime)
    → is_stopped s ≡ true
    → Phase s r
    → Phase s (record r {
      stops = r.stops + 1;
      listener_closed = true;
      done_once = true;
      done_closed = r.done_closed + 1;
    })
stopped-Phase state_new r b p = cc
stopped-Phase state_running r b p = cc
stopped-Phase state_stopping r b p = cc
stopped-Phase state_stopped r b p =
    (p.0, elim p.1 [ inl never ↦ inl never | inr once ↦ inr (once.0, refl) ])

again-Phase :
    (s : RuntimeState) (r : Runtime)
    → Phase s r
    → Phase s (record r { stops = r.stops + 1; listener_closed = true })
again-Phase state_new r p = p
again-Phase state_running r p = p
again-Phase state_stopping r p = p
again-Phase state_stopped r p = p

pub stop_never_started-IsSound :
    (r : Runtime) → is_stopped r.state ≡ true → IsSound r → IsSound (stop_never_started r)
unfolding stop_never_started
stop_never_started-IsSound r b h =
    let stopped : Runtime = record r { stops = r.stops + 1; listener_closed = true } in
    either IsSound r.done_once {x = stopped}
      {y = record stopped { done_once = true; done_closed = r.done_closed + 1 }}
      (λ e. (h.0, again-Phase r.state r h.1))
      (λ e. ((ground (arith, h.0.0, e), h.0.1), stopped-Phase r.state r b h.1))

pub start-IsSound : (r : Runtime) → IsSound r → IsSound (start r).0
unfolding start
start-IsSound r h = start_in-IsSound r.state r refl h

pub begin_shutdown-IsSound : (r : Runtime) → IsSound r → IsSound (begin_shutdown r).0
unfolding begin_shutdown
begin_shutdown-IsSound r h = begin_shutdown_in-IsSound r.state r refl h
