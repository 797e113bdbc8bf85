-- ===== src/Retry/Bounded.antt =====
-- The loop of internal/outbound/profile_retry.go is bounded.
use native.Mathlib.Nat.{suc-mul}
use go_max_tech_stack.Retry.{
  Client, RetryingProfileClient, Outcome, returned, panicked, pause, backoff_with_jitter,
  attempt_from, fetch_profile, is_retryable_profile_error, delay_bound, not_positive,
  ctx_to_profile_error,
}
use go_max_tech_stack.Retry.Backoff.{delay_bound-capped}
use go_max_tech_stack.Failure.{Failure}
use go_max_tech_stack.Failure.Result.{Result, err}
use go_max_tech_stack.Failure.Result.{Result-cases}
use go_max_tech_stack.Prelude.{
  ◌+◌, ◌<◌, ◌==◌, Bool-cases, Option, arith, false, inl, inr, refl, rounds, some, u64, ℕ, ◌≡◌, ◌≤◌,
  if◌then◌else◌, none, not, suc, zero, ◌⊎◌, ◌*◌, Option-cases, ◌∙◌, ◌-◌,
}

-- Two counts of a state, the attempts and the nanoseconds slept, that only `fetch` and `sleep` raise;
-- and a source of random numbers that keeps its range.
pub record Counts {W P : Type 0} (env : Client W P) : Type 0 where
  pub attempts : W → ℕ
  pub slept : W → ℕ
  pub fetch_counts :
      (w : W) → (attempts (env.fetch w).0 ≡ attempts w + 1) × (slept (env.fetch w).0 ≡ slept w)
  pub draw_counts :
      (n : ℕ) (w : W)
      → (attempts (env.int63n n w).0 ≡ attempts w) × (slept (env.int63n n w).0 ≡ slept w)
  pub sleep_counts :
      (n : ℕ) (w : W)
      → (attempts (env.sleep n w).0 ≡ attempts w) × (slept (env.sleep n w).0 ≤ slept w + n)
  pub draw_below : (n : ℕ) (w : W) → 0 < n → (env.int63n n w).1 < n

module _ {W P : Type 0} (env : Client W P) (counts : Counts env) (c : RetryingProfileClient)
    (cap : 0 < c.max_delay) (low : c.max_delay < 9223372036854775807) where
  open counts use {attempts, slept}

  record Drawn (w w' : W) (delay : Option ℕ) : Type 0 where
    tries : attempts w' ≡ attempts w
    rest : slept w' ≡ slept w
    wait : (n : ℕ) × (delay ≡ some n) × (n ≤ c.max_delay)

  backoff_with_jitter-Drawn :
      (rounds : ℕ) (w : W) → let out = backoff_with_jitter env c rounds w in Drawn w out.0 out.1
  unfolding backoff_with_jitter
  backoff_with_jitter-Drawn rounds w =
      let delay = delay_bound c.base_delay c.max_delay rounds in
      let most : delay ≤ c.max_delay =
        delay_bound-capped c.base_delay c.max_delay rounds cap (omega (arith, low)) in
      elim (Bool-cases (delay == 0)) [
        | inl z ↦ rw z record { tries = refl; rest = refl; wait = (0, refl, omega arith) }
        | inr z ↦
            let whole : u64 (delay + 1) ≡ delay + 1 = omega (arith, most, low) in
            let fine : not_positive (delay + 1) ≡ false = ground (arith, most, low) in
            rw (z, whole, fine)
              record {
                tries = (counts.draw_counts (delay + 1) w).0;
                rest = (counts.draw_counts (delay + 1) w).1;
                wait =
                    (_, refl, omega (arith, counts.draw_below (delay + 1) w (omega arith), most));
              }
      ]

  abbrev Early : Option (Outcome P) → Type 0
  Early out = (out ≡ none) ⊎ ((r : Result P) × (out ≡ some (returned r)))

  record Paused (w w' : W) (out : Option (Outcome P)) : Type 0 where
    tries : attempts w' ≡ attempts w
    rest : slept w' ≤ slept w + c.max_delay
    early : Early out

  pause-Paused :
      (rounds : ℕ) (e : Failure) (w : W) → let out = pause env c rounds e w in Paused w out.0 out.1
  unfolding pause
  pause-Paused rounds e w =
      let drawn = backoff_with_jitter-Drawn rounds w in
      waiting (backoff_with_jitter env c rounds w) drawn
    where
      waiting :
          (drew : W × Option ℕ)
          → Drawn w drew.0 drew.1
          → let out : W × Option (Outcome P) = elim drew.1 [
            | none ↦ (drew.0, some panicked)
            | some zero ↦ (drew.0, none)
            | some (suc n) ↦
                if not (env.has_time drew.0 (suc n))
                then (drew.0, some (returned (err e)))
                else let (w'', interrupted) = env.sleep (suc n) drew.0 in
                  elim interrupted [
                    | none ↦ (w'', none)
                    | some e' ↦ (w'', some (returned (err (ctx_to_profile_error e'))))
                  ]
          ] in
            Paused w out.0 out.1
      waiting (w', none) d = cc (d.wait.1)
      waiting (w', some zero) d = record {
        tries = d.tries;
        rest = omega (arith, d.rest);
        early = inl refl;
      }
      waiting (w', some (suc n)) d =
          let within : suc n ≤ c.max_delay = ground (arith, d.wait.1, d.wait.2) in
          let counted = counts.sleep_counts (suc n) w' in
          let total : slept (env.sleep (suc n) w').0 ≤ slept w + c.max_delay =
            omega (arith, counted.1, d.rest, within) in
          elim (Bool-cases (env.has_time w' (suc n))) [
            | inr t ↦
                rw t record {
                  tries = d.tries;
                  rest = omega (arith, d.rest);
                  early = inr (err e, refl);
                }
            | inl t ↦ elim (Option-cases (env.sleep (suc n) w').1) [
              | inl i ↦
                  rw (t, i) record { tries = counted.0 ∙ d.tries; rest = total; early = inl refl }
              | inr (e', i) ↦
                  rw (t, i)
                    record { tries = counted.0 ∙ d.tries; rest = total; early = inr (_, refl) }
            ]
          ]

  record Ended (left : ℕ) (w w' : W) (out : Outcome P) : Type 0 where
    tries : attempts w' ≤ attempts w + (left + 1)
    rest : slept w' ≤ slept w + left * c.max_delay
    result : (r : Result P) × (out ≡ returned r)

  attempt_from-Ended :
      (left rounds : ℕ) (w : W)
      → let out = attempt_from env c left rounds w in Ended left w out.0 out.1
  unfolding attempt_from
  attempt_from-Ended zero rounds w = elim (Option-cases (env.ctx_err w)) [
    | inr (e, q) ↦
        rw (q, attempt_from) record { tries = omega arith; rest = omega arith; result = (_, refl) }
    | inl q ↦
        let counted = counts.fetch_counts w in
        rw (q, attempt_from)
          record {
            tries = omega (arith, counted.0);
            rest = omega (arith, counted.1);
            result = (_, refl);
          }
  ]
  attempt_from-Ended (suc left) rounds w = elim (Option-cases (env.ctx_err w)) [
    | inr (e, q) ↦
        rw (q, attempt_from) record { tries = omega arith; rest = omega arith; result = (_, refl) }
    | inl q ↦
        let counted = counts.fetch_counts w in
        elim (Result-cases (env.fetch w).1) [
          | inl (p, f) ↦
              rw (q, attempt_from)
                (rw f record {
                  tries = omega (arith, counted.0);
                  rest = omega (arith, counted.1);
                  result = (_, refl);
                })
          | inr (e, f) ↦ elim (Bool-cases (is_retryable_profile_error e)) [
            | inr b ↦
                rw (q, attempt_from)
                  (rw (f, b)
                    record {
                      tries = omega (arith, counted.0);
                      rest = omega (arith, counted.1);
                      result = (_, refl);
                    })
            | inl b ↦
                let paused = pause-Paused rounds e (env.fetch w).0 in
                elim paused.early [
                  | inr (r, out) ↦
                      rw (q, attempt_from)
                        (rw (f, b)
                          (rw out record {
                            tries = omega (arith, counted.0, paused.tries);
                            rest = omega (arith, counted.1, paused.rest, suc-mul left c.max_delay);
                            result = (r, refl);
                          }))
                  | inl out ↦
                      rw (q, attempt_from)
                        (rw (f, b)
                          (rw out (
                            let on =
                              attempt_from-Ended left (suc rounds)
                                (pause env c rounds e (env.fetch w).0).0 in
                            record {
                              tries = omega (arith, counted.0, paused.tries, on.tries);
                              rest = omega (
                                arith,
                                counted.1,
                                paused.rest,
                                on.rest,
                                suc-mul left c.max_delay,
                              );
                              result = on.result;
                            })))
                ]
          ]
        ]
  ]

  -- A fetch always returns: it asks the wrapped client at most `max_attempts` times, sleeps in total
  -- at most the cap for each attempt but the first, and never panics, as long as the cap is positive
  -- and below the largest int64.
  pub fetch_profile_bounded :
      (w : W)
      → 0 < c.max_attempts
      → let (w', out) = fetch_profile env c w in
        (attempts w' ≤ attempts w + c.max_attempts)
        × (slept w' ≤ slept w + (c.max_attempts - 1) * c.max_delay)
        × ((r : Result P) × (out ≡ returned r))
  unfolding fetch_profile
  fetch_profile_bounded w p =
      let ended = attempt_from-Ended (c.max_attempts - 1) 0 w in
      (omega (arith, ended.tries, p), ended.rest, ended.result)
