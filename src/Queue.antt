-- ===== src/Queue.antt =====
-- internal/queue: the bounded queue between the HTTP handlers and the worker pool.
-- `Enqueue` holds the read lock and `StopAccepting` the write lock from first to last, so each is
-- one step. The context's error is read before and under the lock, and its `Done` channel is a
-- case of the `select`: `Context` is what these three reads find, and Go's choice between two
-- ready cases. `rejections` is the counter `queue_rejections_total`.
-- `Queue.Fifo` states what the queue promises.
use go_max_tech_stack.Prelude.{
  ◌&&◌, ◌+◌, ◌++◌, Bool, List, Option, [], false, if◌then◌else◌, length, ltb, none, some, true, u64,
  ℕ, ◌∷◌,
}
use go_max_tech_stack.Entity.User.{CreateUserInput}
use go_max_tech_stack.Failure.{Failure, queue_full, queue_stopped, sentinel}
use go_max_tech_stack.Failure.Result.{Result, err, ok}
pub mod Fifo
mod Examples

pub record WorkItem : Type 0 where
  pub job_id : ℕ
  pub payload : CreateUserInput

pub record Queue : Type 0 where
  pub ch : List WorkItem
  pub capacity : ℕ
  pub stopped : Bool
  pub rejections : ℕ

pub record Context : Type 0 where
  pub err_before : Option Failure
  pub err_locked : Option Failure
  pub err_select : Option Failure
  pub choose_send : Bool

unfoldable pub new : ℕ → Queue
new capacity = record { ch = []; capacity = capacity; stopped = false; rejections = 0 }

unfoldable pub stop_accepting : Queue → Queue
stop_accepting q = record q { stopped = true }

-- A send on the buffered channel is ready while the buffer has room.
abbrev pub has_room : Queue → Bool
has_room q = ltb (length q.ch) q.capacity

abbrev sent : WorkItem → Queue → Queue × Result (Unit {0})
sent item q = (record q { ch = q.ch ++ (item ∷ []) }, ok tt)

-- The `select`: a ready send, a finished context, or the default.
unfoldable pub select_send : Context → WorkItem → Queue → Queue × Result (Unit {0})
select_send ctx item q = elim ctx.err_select [
  | none ↦
      if has_room q
      then sent item q
      else (record q { rejections = u64 (q.rejections + 1) }, err (sentinel queue_full))
  | some e ↦ if has_room q && ctx.choose_send then sent item q else (q, err e)
]

unfoldable pub enqueue : Context → WorkItem → Queue → Queue × Result (Unit {0})
unfolding select_send
enqueue ctx item q = elim ctx.err_before [
  | some e ↦ (q, err e)
  | none ↦
      if q.stopped
      then (q, err (sentinel queue_stopped))
      else elim ctx.err_locked [ some e ↦ (q, err e) | none ↦ select_send ctx item q ]
]

-- A worker's receive from `Chan`: the oldest item, or nothing yet.
unfoldable pub receive : Queue → Queue × Option WorkItem
receive q = elim q.ch [ [] ↦ (q, none) | item ∷ rest ↦ (record q { ch = rest }, some item) ]
