-- ===== src/Queue/Fifo.antt =====
-- What internal/queue promises: a first-in first-out buffer that never passes its capacity, whose
-- admission ends for good with `StopAccepting`.
use go_max_tech_stack.Prelude.{
  ◌++◌, List, [], ap, append-nil, append_assoc, arith, false, if◌then◌else◌, length, length-append,
  none, refl, some, sym, true, ◌∙◌, ◌∷◌, ◌≡◌, ◌≤◌, ◌&&◌, ◌+◌, not, u64, ◌⊎◌,
}
use go_max_tech_stack.Queue.{Context, Queue, WorkItem, enqueue, has_room, receive, stop_accepting}
use go_max_tech_stack.Failure.{Failure, queue_full, queue_stopped, same, sentinel}
use go_max_tech_stack.Failure.Result.{err, ok}

pub data Event : Type 0 where
  enqueues : Context → WorkItem → Event
  receives : Event
  stops : Event

unfoldable pub step : Queue → Event → Queue
step q (enqueues ctx item) = (enqueue ctx item q).0
step q receives = (receive q).0
step q stops = stop_accepting q

unfoldable pub run : Queue → List Event → Queue
run q [] = q
run q (e ∷ es) = run (step q e) es

-- The items that a history admits, and those that it hands out, each in order.
abbrev admitted_by : Queue → Event → List WorkItem
admitted_by q (enqueues ctx item) = elim (enqueue ctx item q).1 [ ok _ ↦ item ∷ [] | err e ↦ [] ]
admitted_by q receives = []
admitted_by q stops = []

abbrev handed_by : Queue → Event → List WorkItem
handed_by q (enqueues ctx item) = []
handed_by q receives = elim (receive q).1 [ none ↦ [] | some item ↦ item ∷ [] ]
handed_by q stops = []

unfoldable pub admitted : Queue → List Event → List WorkItem
admitted q [] = []
admitted q (e ∷ es) = admitted_by q e ++ admitted (step q e) es

unfoldable pub handed : Queue → List Event → List WorkItem
handed q [] = []
handed q (e ∷ es) = handed_by q e ++ handed (step q e) es

step-fifo : (q : Queue) (e : Event) → handed_by q e ++ (step q e).ch ≡ q.ch ++ admitted_by q e
unfolding step enqueue receive stop_accepting
step-fifo q (enqueues ctx item) = ground (arith, append-nil q.ch)
step-fifo q receives = ground (arith, append-nil q.ch)
step-fifo q stops = sym (append-nil q.ch)

-- First in, first out: what a history hands out, followed by what is left in the queue, is what
-- the queue held, followed by what the history admitted, in the same order. Nothing is lost,
-- duplicated or reordered.
pub run-fifo : (q : Queue) (es : List Event) → handed q es ++ (run q es).ch ≡ q.ch ++ admitted q es
unfolding run handed admitted
run-fifo q [] = sym (append-nil q.ch)
run-fifo q (e ∷ es) =
    append_assoc (handed_by q e) (handed (step q e) es) (run (step q e) es).ch
    ∙ ap (◌++◌ (handed_by q e)) (run-fifo (step q e) es)
    ∙ sym (append_assoc (handed_by q e) (step q e).ch (admitted (step q e) es))
    ∙ ap (λ l. l ++ admitted (step q e) es) (step-fifo q e)
    ∙ append_assoc q.ch (admitted_by q e) (admitted (step q e) es)

abbrev pub Fits : Queue → Type 0
Fits q = length q.ch ≤ q.capacity

step-Fits : (q : Queue) (e : Event) → Fits q → Fits (step q e) × ((step q e).capacity ≡ q.capacity)
unfolding step enqueue receive stop_accepting
step-Fits q (enqueues ctx item) h = ground (arith, length-append q.ch (item ∷ []))
step-Fits q receives h = ground arith
step-Fits q stops h = (h, refl)

-- No history takes a queue past its capacity, and none changes the capacity. The queue must start
-- within it.
run-Fits : (q : Queue) (es : List Event) → Fits q → length (run q es).ch ≤ q.capacity
unfolding run
run-Fits q [] h = h
run-Fits q (e ∷ es) h =
    let (fits, same) = step-Fits q e h in omega (arith, run-Fits (step q e) es fits, same)

step_stopped :
    (q : Queue) (e : Event)
    → q.stopped ≡ true
    → ((step q e).stopped ≡ true) × (admitted_by q e ≡ [])
unfolding step enqueue receive stop_accepting
step_stopped q (enqueues ctx item) h = ground arith
step_stopped q receives h = ground arith
step_stopped q stops h = (refl, refl)

admitted_stopped : (q : Queue) (es : List Event) → q.stopped ≡ true → admitted q es ≡ []
unfolding admitted
admitted_stopped q [] h = refl
admitted_stopped q (e ∷ es) h =
    let (still, nothing) = step_stopped q e h in rw nothing (admitted_stopped (step q e) es still)

-- The admission barrier: once `StopAccepting` has returned, no later history admits an item, and
-- what the history hands out with what is left is exactly what had been accepted before.
pub stop_accepting_barrier :
    (q : Queue) (es : List Event)
    → let closed = stop_accepting q in
      (admitted closed es ≡ []) × (handed closed es ++ (run closed es).ch ≡ q.ch)
unfolding stop_accepting
stop_accepting_barrier q es =
    let closed : Queue = record q { stopped = true } in
    let none_in = admitted_stopped closed es refl in
    (none_in, run-fifo closed es ∙ ap (◌++◌ q.ch) none_in ∙ append-nil q.ch)

-- `Enqueue` either succeeds, on a queue that is open and has room, and appends the item and
-- nothing else; or it fails, and leaves the buffer as it was.
pub enqueue_answers :
    (ctx : Context) (item : WorkItem) (q : Queue)
    → let (q', answer) = enqueue ctx item q in
      ((answer ≡ ok tt) × (q.stopped ≡ false) × (has_room q ≡ true) × (q'.ch ≡ q.ch ++ (item ∷ [])))
      ⊎ ((e : Failure) × (answer ≡ err e) × (q'.ch ≡ q.ch))
unfolding enqueue
enqueue_answers ctx item q = ground arith

-- With a context that stays alive, `Enqueue` fails exactly as stopped, if the queue is stopped, or
-- else as full, if it has no room, and only the latter is counted as a rejection.
enqueue_live :
    (ctx : Context) (item : WorkItem) (q : Queue)
    → ctx.err_before ≡ none
    → ctx.err_locked ≡ none
    → ctx.err_select ≡ none
    → ((enqueue ctx item q).1 ≡ (
        if q.stopped
        then err (sentinel queue_stopped)
        else if has_room q
        then ok tt
        else err (sentinel queue_full)))
      × ((enqueue ctx item q).0.rejections
          ≡ (if not q.stopped && not (has_room q) then u64 (q.rejections + 1) else q.rejections))
unfolding enqueue
enqueue_live ctx item q a b c = (ground arith, ground arith)
