-- ===== src/Handlers/Creation.antt =====
-- What an asynchronous creation of internal/routes/users_handler.go leaves behind, over the memory
-- repository of jobs, and how it goes on in internal/workerpool/workerpool.go.
use go_max_tech_stack.Handlers.{
  Site, Response, response, location, queued_job, job_body, create_async, publish_queued_job,
  delete_job_after_failed_enqueue, Meanwhile,
}
use go_max_tech_stack.JobService.{memory_repository}
use go_max_tech_stack.JobRepo.{JobRepo, save, delete}
use go_max_tech_stack.JobRepo.Invariant.{IsValid, save-IsValid, IsNew}
use go_max_tech_stack.UserService.{UserRepository, create_user}
use go_max_tech_stack.Queue.{Context, WorkItem, enqueue, receive, Queue}
use go_max_tech_stack.Queue.Fifo.{enqueue_answers, admitted}
use go_max_tech_stack.Event.{event, nothing}
use go_max_tech_stack.Entity.Job.{Job, queued, running}
use go_max_tech_stack.Entity.User.{CreateUserInput}
use go_max_tech_stack.Security.{Principal}
use go_max_tech_stack.WorkerPool.Item.{Others, process_item}
use go_max_tech_stack.WorkerPool.Ending.{
  Leaves, ending, last_event, process_item_ends, lookup-insert_self,
}
use go_max_tech_stack.Prelude.Assoc.{lookup, remove, Distinct, lookup-remove_self, lookup-remove_ne}
use go_max_tech_stack.Failure.{Failure}
use go_max_tech_stack.Failure.Result.{Result, ok, err}
use go_max_tech_stack.Prelude.{
  ◌++◌, [], inl, inr, none, refl, some, ℕ, ◌∷◌, ◌≡◌, ◌⊎◌, false, ◌∙◌, arith, ap, ◌==◌, ==_iff,
  Bool-cases, List, if◌then◌else◌, subst, ◌+◌, sym,
}
use go_max_tech_stack.HttpErrors.{answer}
use go_max_tech_stack.Middleware.Slots.{opened}
use go_max_tech_stack.WorkerPool.Steps.{published}
use go_max_tech_stack.JobService
use go_max_tech_stack.JobRepo

-- Others leave the job alone: whatever they do to the rest, what is stored under its id stays.
pub record LeavesAlone {U : Type 0} (id : ℕ) (act : Site JobRepo U → Site JobRepo U) : Type 0 where
  pub job : (s : Site JobRepo U) → lookup id (act s).world.jobs.jobs ≡ lookup id s.world.jobs.jobs
  pub distinct :
      (s : Site JobRepo U) → Distinct s.world.jobs.jobs → Distinct (act s).world.jobs.jobs

pub record Spares {U : Type 0} (id : ℕ) (others : Meanwhile JobRepo U) : Type 0 where
  pub publish : LeavesAlone id others.before_publish
  pub enqueue : LeavesAlone id others.before_enqueue
  pub delete : LeavesAlone id others.before_delete

delete-found :
    (id : ℕ) (r : JobRepo) (job : Job)
    → lookup id r.jobs ≡ some job
    → JobRepo.delete id r ≡ (record r { jobs = remove id r.jobs }, ok tt)
unfolding JobRepo.delete
delete-found id r job e = rw (e, JobRepo.delete) refl

lookup-remove :
    (id : ℕ) (m : List (ℕ × Job))
    → Distinct m
    → (k : ℕ) → lookup k (remove id m) ≡ (if id == k then none else lookup k m)
lookup-remove id m d k = elim (Bool-cases (id == k)) [
  | inl b ↦
      rw b
        (subst (λ j. lookup j (remove id m) ≡ none) ((==_iff id k).0 b) (lookup-remove_self id m d))
  | inr b ↦ rw b (lookup-remove_ne id k m (λ e. ground (arith, b, (==_iff id k).1 e)))
]

module _ {U : Type 0} (users : UserRepository U) (others : Meanwhile JobRepo U) (ctx : Context)
    (p : Principal) (input : CreateUserInput) where
  abbrev pub stored : Site JobRepo U → Job
  stored s = record (queued_job p) { id = s.world.jobs.next_id }

  abbrev pub item_of : Site JobRepo U → WorkItem
  item_of s = record { job_id = s.world.jobs.next_id; payload = input }

  -- After the save and what others do then, and what the queue meets: after the event, and what others
  -- do then.
  abbrev pub saved : Site JobRepo U → Site JobRepo U
  saved s =
      others.before_publish
        (record s { world = record s.world { jobs = (save (queued_job p) s.world.jobs).0 } })

  abbrev pub announced : Site JobRepo U → Site JobRepo U
  announced s = record (saved s) {
    world = publish_queued_job memory_repository users s.world.jobs.next_id (saved s).world;
  }

  abbrev pub offered : Site JobRepo U → Site JobRepo U
  offered s = others.before_enqueue (announced s)

  abbrev pub admission : Site JobRepo U → Queue × Result (Unit {0})
  admission s = enqueue ctx (item_of s) (offered s).queue

  abbrev pub refused : Site JobRepo U → Site JobRepo U
  refused s = others.before_delete (record (offered s) { queue = (admission s).0 })

  -- The creation went through.
  pub record Accepted (s s' : Site JobRepo U) (answer : Result Response) : Type 0 where
    pub told :
        answer
        ≡ ok (response 202 (location "/api/v1/jobs/" s.world.jobs.next_id) (job_body (stored s)))
    pub world : s'.world ≡ (offered s).world
    pub job : lookup s.world.jobs.next_id s'.world.jobs.jobs ≡ some (stored s)
    pub queued : s'.queue.ch ≡ (offered s).queue.ch ++ (item_of s ∷ [])

  -- It was rolled back, and `e` is the queue's error: of what the others left, all but this job is
  -- there.
  pub record RolledBack (e : Failure) (s s' : Site JobRepo U) (answer : Result Response)
      : Type 0 where
    pub told : answer ≡ err e
    pub gone :
        (k : ℕ)
        → lookup k s'.world.jobs.jobs
          ≡ (if s.world.jobs.next_id == k then none else lookup k (refused s).world.jobs.jobs)
    pub unqueued : (admission s).0.ch ≡ (offered s).queue.ch
    pub queue : s'.queue ≡ (refused s).queue
    pub events_stay : s'.world.published ≡ (refused s).world.published
    pub counts_stay : s'.world.observer ≡ (refused s).world.observer
    pub users_stay : s'.world.users ≡ (refused s).world.users

  module _ (s : Site JobRepo U) (v : IsValid s.world.jobs) (n : IsNew s.world.jobs (queued_job p))
      (spares : Spares s.world.jobs.next_id others) where
    abbrev first : Site JobRepo U
    first = record s { world = record s.world { jobs = (save (queued_job p) s.world.jobs).0 } }

    first-stored : lookup s.world.jobs.next_id first.world.jobs.jobs ≡ some (stored s)
    unfolding JobRepo.save
    first-stored = lookup-insert_self s.world.jobs.next_id (stored s) s.world.jobs

    announced-jobs : (announced s).world.jobs ≡ (saved s).world.jobs
    unfolding publish_queued_job
    announced-jobs = refl

    offered-stored : lookup s.world.jobs.next_id (offered s).world.jobs.jobs ≡ some (stored s)
    offered-stored =
        spares.enqueue.job (announced s)
        ∙ (ap (λ (r : JobRepo). lookup s.world.jobs.next_id r.jobs) announced-jobs
            ∙ (spares.publish.job first ∙ first-stored))

    refused-stored : lookup s.world.jobs.next_id (refused s).world.jobs.jobs ≡ some (stored s)
    refused-stored =
        spares.delete.job (record (offered s) { queue = (admission s).0 }) ∙ offered-stored

    refused-Distinct : Distinct (refused s).world.jobs.jobs
    refused-Distinct =
        spares.delete.distinct (record (offered s) { queue = (admission s).0 })
          (spares.enqueue.distinct (announced s) (
            subst (λ (r : JobRepo). Distinct r.jobs) (sym announced-jobs)
              (spares.publish.distinct first
                (save-IsValid s.world.jobs (queued_job p) n v).distinct)))

  -- Over the memory repository, with others acting after the save, after the event and before the
  -- deletion, but leaving this job alone: if the queue admits the item, the creation answers the new
  -- queued job of the caller, which is stored, and the item is the queue's last. If it refuses, the
  -- creation answers the queue's error, the queue has no item more, and the job is deleted and no
  -- other; but its event, published before the queue was asked, and its count stay. The repository is
  -- valid and has room for the job.
  pub create_async_settles :
      (s : Site JobRepo U)
      → IsValid s.world.jobs
      → IsNew s.world.jobs (queued_job p)
      → Spares s.world.jobs.next_id others
      → let (s', answer) = create_async memory_repository users others ctx p input s in
        ((((admission s).1 ≡ ok tt) × Accepted s s' answer)
          ⊎ ((e : Failure) × ((admission s).1 ≡ err e) × RolledBack e s s' answer))
        × ((announced s).world.published
            ≡ (saved s).world.published ++ (event queued s.world.jobs.next_id nothing ∷ []))
        × ((announced s).world.observer.queued ≡ (saved s).world.observer.queued + 1)
  unfolding create_async JobService.save JobRepo.save publish_queued_job
      delete_job_after_failed_enqueue JobService.delete
  create_async_settles s v n spares = elim (enqueue_answers ctx (item_of s) (offered s).queue) [
    | inl (e, opened, room, q) ↦
        rw (e, create_async)
          (
            inl (
              refl,
              record { told = refl; world = refl; job = offered-stored s v n spares; queued = q },
            ),
            refl,
            refl,
          )
    | inr (f, e, q) ↦
        let removed =
          delete-found s.world.jobs.next_id (refused s).world.jobs (stored s)
            (refused-stored s v n spares) in
        rw (e, create_async)
          (rw (removed, create_async)
            (
              inr (
                f,
                refl,
                record {
                  told = refl;
                  gone =
                      lookup-remove s.world.jobs.next_id (refused s).world.jobs.jobs
                        (refused-Distinct s v n spares);
                  unqueued = q;
                  queue = refl;
                  events_stay = refl;
                  counts_stay = refl;
                  users_stay = refl;
                },
              ),
              refl,
              refl,
            ))
  ]

  -- From the request to the end, over the memory repository: if the queue that the creation meets
  -- is empty and admits the item, then the next receive from it hands out this item, and the worker
  -- that works on it, its context not ended, brings the job to its end, succeeded with the created
  -- user or failed with the problem of the creation's error. The worker publishes the events of its
  -- start and of its end, in this order, after what was there; the queued event was published
  -- before the queue was asked. Others may act on everything at each step of the handler and before
  -- the worker starts, and on the repositories at each step of the worker, but leave this job
  -- alone: none deletes, repairs or moves it. The repository is valid at first and has room for the
  -- job.
  pub accepted_job_ends :
      (later : Site JobRepo U → Site JobRepo U) (at_work : Others JobRepo U) (s : Site JobRepo U)
      → IsValid s.world.jobs
      → IsNew s.world.jobs (queued_job p)
      → Spares s.world.jobs.next_id others
      → LeavesAlone s.world.jobs.next_id later
      → (leaves : Leaves s.world.jobs.next_id at_work) → (offered s).queue.ch ≡ []
      → (admission s).1 ≡ ok tt
      → let s' = (create_async memory_repository users others ctx p input s).0 in
        let id = s.world.jobs.next_id in
        let w = (later s').world in
        let created = create_user users at_work.in_create input w.users in
        let end = (process_item memory_repository users at_work false (item_of s) w).0 in
        ((receive s'.queue).1 ≡ some (item_of s))
        × (lookup id end.jobs.jobs ≡ some (ending users at_work id leaves created.1 (stored s)))
        × (end.users ≡ created.0)
        × (end.published
            ≡ w.published
              ++ (event running id nothing ∷ last_event users at_work id leaves created.1 ∷ []))
        × ((announced s).world.published
            ≡ (saved s).world.published ++ (event queued id nothing ∷ []))
  accepted_job_ends later at_work s v n spares alone leaves q admitted =
      let s' = (create_async memory_repository users others ctx p input s).0 in
      let handed_over : s'.queue.ch ≡ (offered s).queue.ch ++ (item_of s ∷ [])
          → (receive s'.queue).1 ≡ some (item_of s) =
        λ e. unfold receive in rw (e ∙ ap (λ l. l ++ (item_of s ∷ [])) q, receive) refl in
      let (settled, published, counted) = create_async_settles s v n spares in
      elim settled [
        | inr (e, refusal, back) ↦ ground (arith, admitted, refusal)
        | inl (sent, a) ↦
            let ends =
              process_item_ends users at_work s.world.jobs.next_id leaves input (later s').world
                (stored s) (alone.job s' ∙ a.job) refl in
            (handed_over a.queued, ends.0, ends.2, ends.1, published)
      ]
