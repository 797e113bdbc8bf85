-- ===== src/Router/Layers.antt =====
-- The layers of internal/middleware/bulkhead.go and rate_limiter.go around a handler.
use go_max_tech_stack.Middleware.{
  Handler, Overlap, BulkheadState, Limiter, RateLimited, bulkhead, rate_limiter, put_token,
  take_token, count_in, process,
}
use go_max_tech_stack.Security.Access.{Request}
use go_max_tech_stack.Failure.Result.{Result-cases}
use go_max_tech_stack.Failure.{Failure, sentinel, bulkhead_rejected}
use go_max_tech_stack.Failure.Result.{Result, err}
use go_max_tech_stack.Prelude.{Option-cases, inl, inr, refl, ◌≡◌, ◌⊎◌}
use go_max_tech_stack.HttpErrors.{answer}

-- Two layers pass on what the handler does, or refuse and leave its state alone.
abbrev pub Passes : {T : Type 0} → T → T × Result (Unit {0}) → T → Result (Unit {0}) → Type 0
Passes t inner t' answer =
    ((t' ≡ inner.0) × (answer ≡ inner.1)) ⊎ ((e : Failure) × (t' ≡ t) × (answer ≡ err e))

pub bulkhead-Passes :
    {T : Type 0} (others : Overlap) (handler : Handler T) (r : Request) (b : BulkheadState) (t : T)
    → let ((b', t'), answer) = bulkhead others handler r (b, t) in Passes t (handler r t) t' answer
unfolding bulkhead
bulkhead-Passes others handler r b t = elim (Option-cases (put_token b.semaphore)) [
  | inl q ↦ rw (q, bulkhead) (inr (sentinel bulkhead_rejected, refl, refl))
  | inr (entered, q) ↦
      let u = others.before_count_in (record b { semaphore = entered }) in
      let v = others.in_handler (record u { counters = count_in u.counters }) in
      elim (Option-cases (take_token v.semaphore)) [
        | inl n ↦ rw (q, bulkhead) (rw (n, bulkhead) (inl (refl, refl)))
        | inr (w, n) ↦ rw (q, bulkhead) (rw (n, bulkhead) (inl (refl, refl)))
      ]
]

pub rate_limiter-Passes :
    {L T : Type 0} (limiter : Limiter L) (handler : Handler T) (r : Request) (api : RateLimited L)
    (t : T)
    → let ((api', t'), answer) = rate_limiter limiter handler r (api, t) in
      Passes t (handler r t) t' answer
unfolding rate_limiter
rate_limiter-Passes limiter handler r api t = elim (Result-cases (process limiter api).1) [
  | inr (e, q) ↦ rw (q, rate_limiter) (inr (e, refl, refl))
  | inl (u, q) ↦ rw (q, rate_limiter) (inl (refl, refl))
]
