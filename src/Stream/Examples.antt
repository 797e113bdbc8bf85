-- ===== src/Stream/Examples.antt =====
-- Runs of the hub over numbers as events, and its theorems at them.
use go_max_tech_stack.Prelude.{List, Option, [], arith, false, none, refl, some, true, ℕ, ◌∷◌, ◌≡◌}
use go_max_tech_stack.Stream.{
  Channel, Hub, Outcome, blocks, close_drain, done, offer_all, panics, publish, receive, release,
  subscribe, close_channel, close_jobs, close_mark, close_subs, offer,
}
use go_max_tech_stack.Stream.Invariant.{IsValid}
use go_max_tech_stack.Stream.Delivery.{publish_delivers, Delivered}
use go_max_tech_stack.Prelude.Assoc.{insert, lookup, remove, weight}
use go_max_tech_stack.Stream.History.{
  Call, IsSafe, System, drains, leaves, marks, publishes, reads, run, serving, subscribes, with_hub,
}
use go_max_tech_stack.Stream.Safety.{run_returns}

-- One subscriber of job 4, with room for one more event.
abbrev listening : Hub ℕ
listening = record {
  subs = (4, (1, record { id = 1; job_id = 4; ch = 0 }) ∷ []) ∷ [];
  history = (4, 10 ∷ []) ∷ [];
  next_id = 1;
  subscriber_buffer = 2;
  subscribers = 1;
  events_total = 1;
  drops_total = 0;
  closed = false;
  chans = (0, record { buffer = 10 ∷ []; cap = 2; closed = false }) ∷ [];
  next_ref = 1;
  vars = record { subscribers = 1; events_total = 1; drops_total = 0 };
}

listening-IsValid : IsValid listening
unfolding weight lookup
listening-IsValid = record {
  positive = omega arith;
  known = (
    (
      record {
        own_id = refl;
        own_job = refl;
        given_id = omega arith;
        given_ref = omega arith;
        open_chan = record {
          channel = record { buffer = 10 ∷ []; cap = 2; closed = false };
          found = refl;
          opened = record { is_open = refl; sized = refl; fits = omega arith };
        };
      },
      tt,
    ),
    tt,
  );
  single = λ ref. ground arith;
  counted = refl;
  bounded = omega arith;
  small = omega arith;
  trimmed = (omega arith, tt);
  metered = refl;
}

-- The second event fills the buffer, the third is dropped, and the history keeps the newest two.
abbrev noisy : List (Call ℕ)
noisy =
    publishes 4 11
    ∷ publishes 4 12
    ∷ subscribes 4
    ∷ leaves 4 1
    ∷ marks
    ∷ publishes 4 13
    ∷ drains
    ∷ reads 1
    ∷ []

abbrev after : Outcome (System ℕ) → Option (List (ℕ × Channel ℕ) × ℕ × ℕ)
after (done s) = some (s.hub.chans, s.hub.drops_total, s.hub.subscribers)
after panics = none
after blocks = none

noisy-run :
    after (run noisy (with_hub serving listening))
    ≡ some (
      (0, record { buffer = 10 ∷ 11 ∷ []; cap = 2; closed = false })
          ∷ (1, record { buffer = 12 ∷ []; cap = 2; closed = true })
          ∷ [],
      1,
      0,
    )
unfolding run publish subscribe release receive offer_all offer close_mark close_drain close_jobs
    close_subs close_channel lookup insert remove
noisy-run = refl

run_returns_example :
    (s' : System ℕ) × (run noisy (with_hub serving listening) ≡ done s') × IsSafe s'
run_returns_example =
    run_returns noisy (with_hub serving listening)
      (record { valid = listening-IsValid; fitting = refl }) (omega arith)

publish_delivers_example :
    (h' : Hub ℕ) × (publish 4 11 listening ≡ done h') × Delivered 4 11 listening h'
publish_delivers_example = publish_delivers 4 11 listening listening-IsValid refl
