-- ===== src/Middleware/Slots.antt =====
-- Requests that overlap in the bulkhead of internal/middleware/bulkhead.go, each in its four steps:
-- it puts a token, is counted, takes its token back, and is counted out. The steps of different
-- requests come in any order. The process has one bulkhead, as cmd/api/main.go makes it.
use go_max_tech_stack.Middleware.{
  BulkheadState, new_bulkhead, put_token, take_token, count_in, count_out, count_rejection,
}
use go_max_tech_stack.Prelude.{
  ◌+◌, Bool-cases, List, Option, [], inl, inr, ltb, none, refl, some, suc, zero, ℕ, ◌∷◌, ◌≡◌, ◌≤◌,
  arith, u64, ◌⊎◌,
}

pub data Visit : Type 0 where
  arrives is_counted releases is_counted_out : Visit

-- The requests that hold a token and are not counted yet, that run, and that have given back their
-- token and are still counted.
pub record Gate : Type 0 where
  pub state : BulkheadState
  pub entering : ℕ
  pub running : ℕ
  pub leaving : ℕ

-- A step that no request can take changes nothing; `none` is a release that blocks.
unfoldable pub visit : Visit → Gate → Option Gate
unfolding put_token take_token count_in count_out count_rejection
visit arrives g = elim (put_token g.state.semaphore) [
  | none ↦
      some (record g { state = record g.state { counters = count_rejection g.state.counters } })
  | some b ↦ some (record g { state = record g.state { semaphore = b }; entering = g.entering + 1 })
]
visit is_counted g = elim g.entering [
  | zero ↦ some g
  | suc n ↦ some (record g {
    state = record g.state { counters = count_in g.state.counters };
    entering = n;
    running = g.running + 1;
  })
]
visit releases g = elim g.running [
  | zero ↦ some g
  | suc n ↦ elim (take_token g.state.semaphore) [
    | none ↦ none
    | some b ↦ some (record g {
      state = record g.state { semaphore = b };
      running = n;
      leaving = g.leaving + 1;
    })
  ]
]
visit is_counted_out g = elim g.leaving [
  | zero ↦ some g
  | suc n ↦
      some
        (record g { state = record g.state { counters = count_out g.state.counters }; leaving = n })
]

unfoldable pub visits : List Visit → Gate → Option Gate
visits [] g = some g
visits (v ∷ vs) g = elim (visit v g) [ none ↦ none | some g' ↦ visits vs g' ]

abbrev pub opened : ℕ → Gate
opened max_parallel = record {
  state = record {
    semaphore = new_bulkhead max_parallel;
    counters = record { in_flight = 0; rejections_total = 0 };
  };
  entering = 0;
  running = 0;
  leaving = 0;
}

pub record IsCounted (max_parallel : ℕ) (g : Gate) : Type 0 where
  pub tokens : g.state.semaphore.sem ≡ g.entering + g.running
  pub counted : g.state.counters.in_flight ≡ u64 (g.running + g.leaving)
  pub within : g.entering + g.running ≤ max_parallel
  pub same : g.state.semaphore.max_parallel ≡ max_parallel

Keeps : ℕ → Visit → Gate → Type 0
Keeps max_parallel v g = (g' : Gate) × (visit v g ≡ some g') × IsCounted max_parallel g'

ℕ-cases : (n : ℕ) → (n ≡ 0) ⊎ ((m : ℕ) × (n ≡ suc m))
ℕ-cases zero = inl refl
ℕ-cases (suc n) = inr (n, refl)

module _ (max_parallel : ℕ) (g : Gate) (i : IsCounted max_parallel g) where
  arrives-IsCounted : Keeps max_parallel arrives g
  unfolding visit put_token count_rejection Keeps
  arrives-IsCounted = elim (Bool-cases (ltb g.state.semaphore.sem g.state.semaphore.max_parallel)) [
    | inl b ↦ (
      record g {
        state = record g.state {
          semaphore = record g.state.semaphore { sem = g.state.semaphore.sem + 1 };
        };
        entering = g.entering + 1;
      },
      rw (b, visit) refl,
      record {
        tokens = omega (arith, i.tokens);
        counted = i.counted;
        within = ground (arith, b, i.tokens, i.same);
        same = i.same;
      },
    )
    | inr b ↦ (
      record g { state = record g.state { counters = count_rejection g.state.counters } },
      rw (b, visit) refl,
      record { tokens = i.tokens; counted = i.counted; within = i.within; same = i.same },
    )
  ]

  is_counted-IsCounted : Keeps max_parallel is_counted g
  unfolding visit count_in Keeps
  is_counted-IsCounted = elim (ℕ-cases g.entering) [
    | inl z ↦ (g, simp (z, visit), i)
    | inr (n, z) ↦ (
      record g {
        state = record g.state { counters = count_in g.state.counters };
        entering = n;
        running = g.running + 1;
      },
      rw (z, visit) refl,
      record {
        tokens = omega (arith, i.tokens, z);
        counted = omega (arith, i.counted);
        within = omega (arith, i.within, z);
        same = i.same;
      },
    )
  ]

  releases-IsCounted : Keeps max_parallel releases g
  unfolding visit take_token Keeps
  releases-IsCounted = elim (ℕ-cases g.running) [
    | inl z ↦ (g, simp (z, visit), i)
    | inr (n, z) ↦
        let token : g.state.semaphore.sem ≡ suc (g.entering + n) = omega (arith, i.tokens, z) in
        (
          record g {
            state = record g.state {
              semaphore = record g.state.semaphore { sem = g.entering + n };
            };
            running = n;
            leaving = g.leaving + 1;
          },
          rw (z, visit) (rw (token, visit) refl),
          record {
            tokens = refl;
            counted = omega (arith, i.counted, z);
            within = omega (arith, i.within, z);
            same = i.same;
          },
        )
  ]

  is_counted_out-IsCounted : Keeps max_parallel is_counted_out g
  unfolding visit count_out Keeps
  is_counted_out-IsCounted = elim (ℕ-cases g.leaving) [
    | inl z ↦ (g, simp (z, visit), i)
    | inr (n, z) ↦ (
      record g { state = record g.state { counters = count_out g.state.counters }; leaving = n },
      rw (z, visit) refl,
      record {
        tokens = i.tokens;
        counted = omega (arith, i.counted, z);
        within = i.within;
        same = i.same;
      },
    )
  ]

visit-IsCounted :
    (max_parallel : ℕ) (v : Visit) (g : Gate) → IsCounted max_parallel g → Keeps max_parallel v g
visit-IsCounted m arrives g i = arrives-IsCounted m g i
visit-IsCounted m is_counted g i = is_counted-IsCounted m g i
visit-IsCounted m releases g i = releases-IsCounted m g i
visit-IsCounted m is_counted_out g i = is_counted_out-IsCounted m g i

visits-IsCounted :
    (max_parallel : ℕ) (vs : List Visit) (g : Gate)
    → IsCounted max_parallel g
    → (g' : Gate) × (visits vs g ≡ some g') × IsCounted max_parallel g'
unfolding visits Keeps
visits-IsCounted m [] g i = (g, refl, i)
visits-IsCounted m (v ∷ vs) g i =
    let (g', q, i') = visit-IsCounted m v g i in
    let (g'', q', i'') = visits-IsCounted m vs g' i' in (g'', rw (q, visits) q', i'')

-- Whatever the order of the steps of overlapping requests, no release blocks; a token is held for
-- each request between its send and its receive, and these are never more than the bulkhead was made
-- for. The counter in_flight is, modulo 2^64, the number of requests between their two counts: those
-- that run, and those that have given back their token already, which the bulkhead does not bound.
pub bulkhead_bounded :
    (max_parallel : ℕ) (vs : List Visit)
    → (g : Gate) × (visits vs (opened max_parallel) ≡ some g)
      × (g.state.semaphore.sem ≡ g.entering + g.running)
      × (g.entering + g.running ≤ max_parallel)
      × (g.state.counters.in_flight ≡ u64 (g.running + g.leaving))
unfolding new_bulkhead
bulkhead_bounded max_parallel vs =
    let (g, q, i) =
      visits-IsCounted max_parallel vs (opened max_parallel)
        (record { tokens = refl; counted = refl; within = omega arith; same = refl }) in
    (g, q, i.tokens, i.within, i.counted)
