-- ===== src/Grpc/Runtime/Callers.antt =====
-- Where the callers of Shutdown of internal/transport/grpcserver/runtime.go can be, whatever the others
-- do.
use go_max_tech_stack.Grpc.Runtime.{
  Runtime, RuntimeState, state_new, state_running, state_stopping, state_stopped, begin_shutdown_in,
  finish_serve, start_in, finish_graceful, is_fatal,
}
use go_max_tech_stack.Grpc.Runtime.Steps.{
  Caller, closes, begins, waits, forces, finishes, returned, World, moved,
}
use go_max_tech_stack.Grpc.Runtime.Sound.{IsSound, IsBegun, is_early, is_stopped, either}
use go_max_tech_stack.Failure.{Failure}
use go_max_tech_stack.Prelude.Assoc.{lookup, Entries, Entries-insert, Entries-map, Entries-lookup}
use go_max_tech_stack.Prelude.{
  Bool-cases, Option, ap, arith, false, inl, inr, refl, some, true, ℕ, ◌≡◌, ◌≤◌, ◌⊎◌, if◌then◌else◌,
  none,
}

abbrev pub IsPlaced : Runtime → Caller → Type 0
IsPlaced r closes = is_stopped r.state ≡ true
IsPlaced r begins = IsBegun r
IsPlaced r waits = r.shutdown_once ≡ true
IsPlaced r (forces e) = r.shutdown_once ≡ true
IsPlaced r (finishes result) = 1 ≤ r.graceful_closed
IsPlaced r (returned result) = is_stopped r.state ≡ true

-- What is never taken back; and once the server is told to stop, its error stays.
abbrev pub Later : Runtime → Runtime → Type 0
Later r r' =
    ((is_stopped r.state ≡ false) ⊎ (is_stopped r'.state ≡ true))
    × ((is_early r.state ≡ true)
        ⊎ ((is_early r'.state ≡ false) × (r'.served ≡ r.served) × (r'.err ≡ r.err)))
    × ((r.shutdown_once ≡ false) ⊎ (r'.shutdown_once ≡ true))
    × (r.graceful_closed ≤ r'.graceful_closed)

Later-IsPlaced : (r r' : Runtime) (c : Caller) → Later r r' → IsPlaced r c → IsPlaced r' c
Later-IsPlaced r r' closes l p = ground (arith, l, p)
Later-IsPlaced r r' begins l p = ground (arith, l, p)
Later-IsPlaced r r' waits l p = ground (arith, l, p)
Later-IsPlaced r r' (forces e) l p = ground (arith, l, p)
Later-IsPlaced r r' (finishes result) l p = omega (arith, l, p)
Later-IsPlaced r r' (returned result) l p = ground (arith, l, p)

abbrev pub IsValid : World → Type 0
IsValid w = IsSound w.runtime × Entries (λ i c. IsPlaced w.runtime c) w.callers

pub IsPlaced-Later :
    (w : World) (r : Runtime)
    → Later w.runtime r
    → IsValid w
    → Entries (λ i c. IsPlaced r c) w.callers
IsPlaced-Later w r l v = Entries-map w.callers (λ i c p. Later-IsPlaced w.runtime r c l p) v.1

-- A world that may come next.
abbrev pub Next : World → World → Type 0
Next w w' = IsValid w' × Later w.runtime w'.runtime

pub moved-Next :
    (i : ℕ) (c : Caller) (w : World) (r : Runtime)
    → IsSound r
    → Later w.runtime r
    → IsPlaced r c
    → IsValid w
    → Next w (moved i c w r)
moved-Next i c w r s l p v =
    ((s, Entries-insert (λ j d. IsPlaced r d) i c w.callers p (IsPlaced-Later w r l v)), l)

pub placed :
    (i : ℕ) (c : Caller) (w : World)
    → lookup i w.callers ≡ some c
    → IsValid w
    → IsPlaced w.runtime c
placed i c w e v = Entries-lookup (λ j d. IsPlaced w.runtime d) i c w.callers v.1 e

pub Later-refl : (r : Runtime) → Later r r
Later-refl r = (
  elim (Bool-cases (is_stopped r.state)) [ inl e ↦ inr e | inr e ↦ inl e ],
  elim (Bool-cases (is_early r.state)) [ inl e ↦ inl e | inr e ↦ inr (e, refl, refl) ],
  elim (Bool-cases r.shutdown_once) [ inl e ↦ inr e | inr e ↦ inl e ],
  omega arith,
)

pub start_in-Later : (s : RuntimeState) (r : Runtime) → r.state ≡ s → Later r (start_in s r).0
unfolding start_in
start_in-Later state_new r e = (
  inl (ap is_stopped e),
  inl (ap is_early e),
  elim (Bool-cases r.shutdown_once) [ inl f ↦ inr f | inr f ↦ inl f ],
  omega arith,
)
start_in-Later state_running r e = Later-refl r
start_in-Later state_stopping r e = Later-refl r
start_in-Later state_stopped r e = Later-refl r

pub begin_shutdown_in-Later :
    (s : RuntimeState) (r : Runtime) → r.state ≡ s → Later r (begin_shutdown_in s r).0
unfolding begin_shutdown_in
begin_shutdown_in-Later state_new r e = (
  inl (ap is_stopped e),
  inl (ap is_early e),
  elim (Bool-cases r.shutdown_once) [ inl f ↦ inr f | inr f ↦ inl f ],
  omega arith,
)
begin_shutdown_in-Later state_running r e = (
  inl (ap is_stopped e),
  inl (ap is_early e),
  elim (Bool-cases r.shutdown_once) [ inl f ↦ inr f | inr f ↦ inl f ],
  omega arith,
)
begin_shutdown_in-Later state_stopping r e = Later-refl r
begin_shutdown_in-Later state_stopped r e = Later-refl r

early_fatal : (s : RuntimeState) (e : Option Failure) → is_early s ≡ false → is_fatal s e ≡ false
unfolding is_fatal
early_fatal state_new e h = cc
early_fatal state_running e h = cc
early_fatal state_stopping none h = refl
early_fatal state_stopping (some f) h = refl
early_fatal state_stopped none h = refl
early_fatal state_stopped (some f) h = refl

-- Serve has returned, and the server is stopped.
pub finish_serve-Later : (e : Option Failure) (r : Runtime) → Later r (finish_serve e r).0
unfolding finish_serve
finish_serve-Later e r =
    let l : Later r r = Later-refl r in
    let told : Option Failure = if is_fatal r.state e then e else r.err in
    let kept : (is_early r.state ≡ true) ⊎ (told ≡ r.err) = elim (Bool-cases (is_early r.state)) [
      | inl h ↦ inl h
      | inr h ↦ inr (rw (early_fatal r.state e h) refl)
    ] in
    let later : (is_early r.state ≡ true)
        ⊎ ((is_early state_stopped ≡ false) × (r.served ≡ r.served) × (told ≡ r.err)) =
      elim kept [ inl h ↦ inl h | inr h ↦ inr (refl, refl, h) ] in
    either (λ t. Later r t) r.done_once (λ h. (inr refl, later, l.2, omega arith))
      (λ h. (inr refl, later, l.2, omega arith))

pub finish_graceful-Later : (r : Runtime) → Later r (finish_graceful r)
unfolding finish_graceful
finish_graceful-Later r = let l : Later r r = Later-refl r in (l.0, l.1, l.2, omega arith)

pub stays : (w : World) → IsValid w → Next w w
stays w v = (v, Later-refl w.runtime)
