-- ===== src/Stream/History.antt =====
-- Histories of the hub of internal/stream/stream.go: the calls of any number of goroutines, in any
-- order. `Close` is two steps, and its second may come any time after its first.
use go_max_tech_stack.Stream.{
  ◌>>=◌, Hub, Outcome, close_drain, close_mark, done, publish, receive, release, subscribe,
}
use go_max_tech_stack.Stream.Invariant.{IsValid}
use go_max_tech_stack.Prelude.{List, [], false, if◌then◌else◌, true, ℕ, ◌∷◌, ◌≡◌}

pub data Phase : Type 0 where
  serving closing drained : Phase

pub record System (E : Type 0) : Type 0 where
  pub hub : Hub E
  pub phase : Phase

pub data Call (E : Type 0) : Type 0 where
  subscribes : ℕ → Call E
  publishes : ℕ → E → Call E
  -- The body of the closure that `Subscribe` returned.
  leaves : ℕ → ℕ → Call E
  reads : ℕ → Call E
  -- The compare-and-swap of `Close`, and its work under the lock.
  marks : Call E
  drains : Call E

module _ {E : Type 0} where
  abbrev pub with_hub : Phase → Hub E → System E
  with_hub p h = record { hub = h; phase = p }

  -- The goroutine whose compare-and-swap came first is the one that drains, once.
  unfoldable pub drain_in : Phase → Hub E → Outcome (System E)
  drain_in closing h = close_drain h >>= λ h'. done (with_hub drained h')
  drain_in serving h = done (with_hub serving h)
  drain_in drained h = done (with_hub drained h)

  unfoldable pub mark_in : Phase → Hub E → System E
  mark_in p h = let (h', first) = close_mark h in with_hub (if first then closing else p) h'

  unfoldable pub step : Call E → System E → Outcome (System E)
  unfolding drain_in mark_in
  step (subscribes job_id) s = subscribe job_id s.hub >>= λ out. done (with_hub s.phase out.0)
  step (publishes job_id ev) s = publish job_id ev s.hub >>= λ h. done (with_hub s.phase h)
  step (leaves job_id id) s = done (with_hub s.phase (release job_id id s.hub))
  step (reads ref) s = done (with_hub s.phase (receive ref s.hub).0)
  step marks s = done (mark_in s.phase s.hub)
  step drains s = drain_in s.phase s.hub

  unfoldable pub run : List (Call E) → System E → Outcome (System E)
  unfolding step
  run [] s = done s
  run (c ∷ cs) s = step c s >>= λ s'. run cs s'

-- A phase and the hub's flag: the flag is set once `Close` has begun, and after its end the map
-- is empty.
abbrev pub Fits : {E : Type 0} → Phase → Hub E → Type 0
Fits serving h = h.closed ≡ false
Fits closing h = h.closed ≡ true
Fits drained h = (h.closed ≡ true) × (h.subs ≡ [])

pub record IsSafe {E : Type 0} (s : System E) : Type 0 where
  pub valid : IsValid s.hub
  pub fitting : Fits s.phase s.hub
