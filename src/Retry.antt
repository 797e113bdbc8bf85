-- ===== src/Retry.antt =====
-- internal/outbound/profile_retry.go: the client of profiles that tries again, with its backoff.
-- A time.Duration is kept as the bit pattern of its int64. `Client` is the rest of the program: what
-- the wrapped client, the context, the timer and the source of random numbers answer in a state `W`.
-- Logging is left out.
-- `Retry.Backoff` is about the delays, `Retry.Bounded` about the loop.
use go_max_tech_stack.Failure.{
  Failure, is, profile_error_by, profile_canceled, profile_timeout, profile_network,
  profile_upstream_5xx, context_canceled,
}
use go_max_tech_stack.Failure.Result.{Result, ok, err}
use go_max_tech_stack.Prelude.{
  ◌&&◌, ◌*◌, ◌+◌, ◌==◌, Bool, Option, if◌then◌else◌, ltb, negsuc, none, not, pos, rounds, some, suc,
  u64, zero, ◌||◌, ℕ, ℤ, ◌-◌, false, true,
}
pub mod Backoff
pub mod Bounded
mod Examples

-- `d <= 0`.
abbrev pub not_positive : ℕ → Bool
not_positive d = d == 0 || not (ltb d 9223372036854775808)

-- `d > m`, for an `m` that is not negative.
abbrev pub exceeds : ℕ → ℕ → Bool
exceeds d m = ltb d 9223372036854775808 && ltb m d

unfoldable pub is_retryable_profile_error : Failure → Bool
unfolding is
is_retryable_profile_error e =
    is e profile_timeout || is e profile_network || is e profile_upstream_5xx

unfoldable pub ctx_to_profile_error : Failure → Failure
unfolding is
ctx_to_profile_error e =
    if is e context_canceled
    then profile_error_by profile_canceled 0 e
    else profile_error_by profile_timeout 0 e

-- The loop that doubles the delay; its rounds are `attempt - 1`.
unfoldable pub doubled : ℕ → ℕ → ℕ
doubled zero delay = delay
doubled (suc rounds) delay =
    let on = doubled rounds (u64 (delay * 2)) in if not_positive delay then 0 else on

-- The delay before the jitter.
unfoldable pub delay_bound : ℕ → ℕ → ℕ → ℕ
unfolding doubled
delay_bound base max rounds =
    let delay = doubled rounds base in
    let capped = if not (max == 0) && exceeds delay max then max else delay in
    if not_positive capped then 0 else capped

pub record RetryingProfileClient : Type 0 where
  pub max_attempts : ℕ
  pub base_delay : ℕ
  pub max_delay : ℕ

abbrev or_zero : ℤ → ℕ
or_zero (pos n) = n
or_zero (negsuc n) = 0

abbrev at_least_one : ℤ → ℕ
at_least_one (pos zero) = 1
at_least_one (pos (suc n)) = suc n
at_least_one (negsuc n) = 1

unfoldable pub new_retrying_profile_client : ℤ → ℤ → ℤ → RetryingProfileClient
new_retrying_profile_client max_attempts base_delay max_delay = record {
  max_attempts = at_least_one max_attempts;
  base_delay = or_zero base_delay;
  max_delay = or_zero max_delay;
}

pub record Client (W P : Type 0) : Type 0 where
  pub fetch : W → W × Result P
  pub ctx_err : W → Option Failure
  pub has_time : W → ℕ → Bool
  -- A number below the first argument.
  pub int63n : ℕ → W → W × ℕ
  pub sleep : ℕ → W → W × Option Failure

pub data Outcome (P : Type 0) : Type 0 where
  returned : Result P → Outcome P
  -- rand.Int63n panics on an argument that is not positive.
  panicked : Outcome P

module _ {W P : Type 0} (env : Client W P) (c : RetryingProfileClient) where
  -- `none` is a panic.
  unfoldable pub backoff_with_jitter : ℕ → W → W × Option ℕ
  unfolding delay_bound
  backoff_with_jitter rounds w =
      let delay = delay_bound c.base_delay c.max_delay rounds in
      if delay == 0
      then (w, some 0)
      else if not_positive (u64 (delay + 1))
      then (w, none)
      else let (w', n) = env.int63n (u64 (delay + 1)) w in (w', some n)

  -- The wait after a failed attempt; the second result is what the loop returns early.
  unfoldable pub pause : ℕ → Failure → W → W × Option (Outcome P)
  unfolding backoff_with_jitter ctx_to_profile_error
  pause rounds e w =
      let (w', delay) = backoff_with_jitter rounds w in
      elim delay [
        | none ↦ (w', some panicked)
        | some zero ↦ (w', none)
        | some (suc n) ↦
            if not (env.has_time w' (suc n))
            then (w', some (returned (err e)))
            else let (w'', interrupted) = env.sleep (suc n) w' in
              elim interrupted [
                | none ↦ (w'', none)
                | some e' ↦ (w'', some (returned (err (ctx_to_profile_error e'))))
              ]
      ]

  -- One attempt with `left` more behind it, after `rounds` before.
  unfoldable pub attempt_from : ℕ → ℕ → W → W × Outcome P
  unfolding is_retryable_profile_error ctx_to_profile_error
  attempt_from zero rounds w = elim (env.ctx_err w) [
    | some e ↦ (w, returned (err (ctx_to_profile_error e)))
    | none ↦ let (w', out) = env.fetch w in (w', returned out)
  ]
  attempt_from (suc left) rounds w = elim (env.ctx_err w) [
    | some e ↦ (w, returned (err (ctx_to_profile_error e)))
    | none ↦
        let (w', out) = env.fetch w in
        elim out [
          | ok p ↦ (w', returned (ok p))
          | err e ↦ elim (is_retryable_profile_error e) [
            | false ↦ (w', returned (err e))
            | true ↦
                let (w'', early) = pause rounds e w' in
                elim early [ some end ↦ (w'', end) | none ↦ attempt_from left (suc rounds) w'' ]
          ]
        ]
  ]

  -- `max_attempts` is at least one.
  unfoldable pub fetch_profile : W → W × Outcome P
  unfolding attempt_from
  fetch_profile w = attempt_from (c.max_attempts - 1) 0 w
