-- ===== src/Middleware.antt =====
-- internal/middleware: bulkhead.go and rate_limiter.go, around a handler with the state `T`. A handler
-- that panics leaves the slot as one that returns, since the release is deferred. The limiter of
-- golang.org/x/time/rate is the parameter `Limiter`: its answer to `Reserve`, and `Cancel`.
-- `Middleware.Slots` is about requests that overlap.
use go_max_tech_stack.Security.Access.{Request}
use go_max_tech_stack.Failure.{Failure, sentinel, bulkhead_rejected, rate_limit}
use go_max_tech_stack.Failure.Result.{Result, ok, err}
use go_max_tech_stack.Prelude.{
  ◌+◌, ◌==◌, Bool, Option, dec64, if◌then◌else◌, ltb, none, not, some, suc, u64, zero, ℕ,
}
use go_max_tech_stack.Queue.Fifo.{admitted}
use go_max_tech_stack.HttpErrors.{answer}
pub mod Slots
pub mod Cors
pub mod Origins
mod Examples

abbrev pub Handler : Type 0 → Type 0
Handler T = Request → T → T × Result (Unit {0})

-- `sem` counts the tokens in the channel.
pub record Bulkhead : Type 0 where
  pub sem : ℕ
  pub max_parallel : ℕ

-- The package's own counters, which belong to no bulkhead.
pub record BulkheadCounters : Type 0 where
  pub in_flight : ℕ
  pub rejections_total : ℕ

pub record BulkheadState : Type 0 where
  pub semaphore : Bulkhead
  pub counters : BulkheadCounters

unfoldable pub new_bulkhead : ℕ → Bulkhead
new_bulkhead max_parallel = record { sem = 0; max_parallel = max_parallel }

-- The send of the `select`, which is never waited for: `none` is its default.
unfoldable pub put_token : Bulkhead → Option Bulkhead
put_token b = if ltb b.sem b.max_parallel then some (record b { sem = b.sem + 1 }) else none

-- The deferred receive; `none` blocks for ever.
unfoldable pub take_token : Bulkhead → Option Bulkhead
take_token b = elim b.sem [ zero ↦ none | suc n ↦ some (record b { sem = n }) ]

unfoldable pub count_rejection : BulkheadCounters → BulkheadCounters
count_rejection c = record c { rejections_total = c.rejections_total + 1 }

-- `inFlight.Add(1)` and `inFlight.Add(-1)`.
unfoldable pub count_in : BulkheadCounters → BulkheadCounters
count_in c = record c { in_flight = u64 (c.in_flight + 1) }

unfoldable pub count_out : BulkheadCounters → BulkheadCounters
count_out c = record c { in_flight = dec64 c.in_flight }

-- What overlapping requests do between the steps of one: the token and the count are two steps when
-- it enters, and two when it leaves.
pub record Overlap : Type 0 where
  pub before_count_in : BulkheadState → BulkheadState
  pub in_handler : BulkheadState → BulkheadState
  pub before_count_out : BulkheadState → BulkheadState

unfoldable pub bulkhead : {T : Type 0} → Overlap → Handler T → Handler (BulkheadState × T)
unfolding put_token take_token count_rejection count_in count_out
bulkhead others handler r (b, t) = elim (put_token b.semaphore) [
  | none ↦
      ((record b { counters = count_rejection b.counters }, t), err (sentinel bulkhead_rejected))
  | some entered ↦
      let u = others.before_count_in (record b { semaphore = entered }) in
      let (t', answer) = handler r t in
      let v = others.in_handler (record u { counters = count_in u.counters }) in
      elim (take_token v.semaphore) [
        | none ↦ ((v, t'), answer)
        | some left ↦
            let w = others.before_count_out (record v { semaphore = left }) in
            ((record w { counters = count_out w.counters }, t'), answer)
      ]
]

-- A reservation: whether it can be granted at all, and the nanoseconds to wait for it, which
-- `Delay` documents to be never negative.
pub record Reservation : Type 0 where
  pub is_ok : Bool
  pub delay : ℕ

pub record Limiter (L : Type 0) : Type 0 where
  pub reserve : L → L × Reservation
  pub cancel : Reservation → L → L

pub record RateLimited (L : Type 0) : Type 0 where
  pub limiter : L
  pub total : ℕ

unfoldable pub process :
    {L : Type 0} → Limiter L → RateLimited L → RateLimited L × Result (Unit {0})
process limiter api =
    let (l, res) = limiter.reserve api.limiter in
    if not res.is_ok
    then (record { limiter = l; total = api.total + 1 }, err (rate_limit 0))
    else if res.delay == 0
    then (record { limiter = l; total = api.total }, ok tt)
    else (
      record { limiter = limiter.cancel res l; total = api.total + 1 },
      err (rate_limit res.delay),
    )

unfoldable pub rate_limiter : {L T : Type 0} → Limiter L → Handler T → Handler (RateLimited L × T)
unfolding process
rate_limiter limiter handler r (api, t) =
    let (api', admitted) = process limiter api in
    elim admitted [
      | err e ↦ ((api', t), err e)
      | ok u ↦ let (t', answer) = handler r t in ((api', t'), answer)
    ]
