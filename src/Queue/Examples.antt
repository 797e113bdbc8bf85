-- ===== src/Queue/Examples.antt =====
-- Runs of the queue, and its theorems at them.
use go_max_tech_stack.Queue.{new, stop_accepting, enqueue, WorkItem, Context, receive}
use go_max_tech_stack.Prelude.{◌++◌, List, [], none, pos, refl, true, ℕ, ◌∷◌, ◌≡◌}
use go_max_tech_stack.Entity.User.{CreateUserInput}
use go_max_tech_stack.Queue.Fifo.{
  Event, admitted, enqueues, handed, receives, run, run-fifo, step, stop_accepting_barrier, stops,
}

abbrev payload : CreateUserInput
payload = record { name = "ann"; age = pos 30; email = "ann@example.com" }

abbrev work : ℕ → WorkItem
work id = record { job_id = id; payload = payload }

abbrev background : Context
background = record { err_before = none; err_locked = none; err_select = none; choose_send = true }

abbrev busy : List Event
busy =
    enqueues background (work 1)
    ∷ enqueues background (work 2)
    ∷ enqueues background (work 3)
    ∷ receives
    ∷ stops
    ∷ enqueues background (work 4)
    ∷ receives
    ∷ receives
    ∷ []

-- The third does not fit, the fourth comes too late.
busy_hands_out : handed (new 2) busy ≡ work 1 ∷ work 2 ∷ []
unfolding handed step new enqueue receive stop_accepting
busy_hands_out = refl

run-fifo_example :
    handed (new 2) busy ++ (run (new 2) busy).ch ≡ (new 2).ch ++ admitted (new 2) busy
run-fifo_example = run-fifo (new 2) busy

stop_accepting_barrier_example :
    let closed = stop_accepting (new 2) in
    (admitted closed busy ≡ []) × (handed closed busy ++ (run closed busy).ch ≡ (new 2).ch)
stop_accepting_barrier_example = stop_accepting_barrier (new 2) busy
