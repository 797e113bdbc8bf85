-- ===== src/Retry/Examples.antt =====
-- A profile service that is down, and the theorems at it.
use go_max_tech_stack.Retry.{
  Client, RetryingProfileClient, returned, new_retrying_profile_client, fetch_profile, attempt_from,
  pause, backoff_with_jitter, delay_bound, doubled, is_retryable_profile_error,
}
use go_max_tech_stack.Retry.Bounded.{Counts, fetch_profile_bounded}
use go_max_tech_stack.Failure.{sentinel, profile_network, is}
use go_max_tech_stack.Failure.Result.{Result, err}
use go_max_tech_stack.Prelude.{◌*◌, ◌+◌, ◌-◌, arith, none, pos, refl, true, ℕ, ◌≡◌, ◌≤◌}

record Seen : Type 0 where
  tried : ℕ
  waited : ℕ

abbrev down : Client Seen ℕ
down = record {
  fetch = λ w. (record w { tried = w.tried + 1 }, err (sentinel profile_network));
  ctx_err = λ w. none;
  has_time = λ w n. true;
  int63n = λ n w. (w, n - 1);
  sleep = λ n w. (record w { waited = w.waited + n }, none);
}

down-Counts : Counts down
down-Counts = record {
  attempts = λ w. w.tried;
  slept = λ w. w.waited;
  fetch_counts = λ w. (refl, refl);
  draw_counts = λ n w. (refl, refl);
  sleep_counts = λ n w. (refl, omega arith);
  draw_below = λ n w p. omega (arith, p);
}

abbrev thrice : RetryingProfileClient
thrice = record { max_attempts = 3; base_delay = 50000000; max_delay = 80000000 }

thrice_made : new_retrying_profile_client (pos 3) (pos 50000000) (pos 80000000) ≡ thrice
unfolding new_retrying_profile_client
thrice_made = refl

abbrev fresh : Seen
fresh = record { tried = 0; waited = 0 }

fetch_profile_bounded_example :
    let (w', out) = fetch_profile down thrice fresh in
    (down-Counts.attempts w' ≤ down-Counts.attempts fresh + 3)
    × (down-Counts.slept w' ≤ down-Counts.slept fresh + 2 * 80000000)
    × ((r : Result ℕ) × (out ≡ returned r))
fetch_profile_bounded_example =
    fetch_profile_bounded down down-Counts thrice (omega arith) (omega arith) fresh (omega arith)

-- Three attempts, with 50 and then 80 milliseconds between them.
down_run :
    fetch_profile down thrice fresh
    ≡ (record { tried = 3; waited = 130000000 }, returned (err (sentinel profile_network)))
unfolding fetch_profile attempt_from pause backoff_with_jitter delay_bound doubled
    is_retryable_profile_error is
down_run = refl
