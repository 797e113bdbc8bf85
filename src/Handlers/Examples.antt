-- ===== src/Handlers/Examples.antt =====
-- A service with one job and two users, and the theorems at requests to it. `plain` finds the media
-- type in a header without parameters.
use go_max_tech_stack.Handlers.{
  no_body, Site, create_async, queued_job, job_body, response, user_body, Meanwhile,
}
use go_max_tech_stack.Handlers.Creation.{
  create_async_settles, accepted_job_ends, Spares, LeavesAlone, admission, announced, saved,
  offered, Accepted, RolledBack,
}
use go_max_tech_stack.Handlers.Reading.{
  Tells, answers-MayRead, get_user_fresh, MayRead, Exported, Negotiated, TellsUser,
}
use go_max_tech_stack.Handlers.Lookup.{get_user, get_user_v2, export_user, get_job, cached, dto}
use go_max_tech_stack.JobService.{memory_repository}
use go_max_tech_stack.JobRepo.{JobRepo}
use go_max_tech_stack.JobRepo.Examples.{one_job, one_job-IsValid}
use go_max_tech_stack.JobRepo.Invariant.{IsNew}
use go_max_tech_stack.UserRepo.Examples.{exact, two_users}
use go_max_tech_stack.UserRepo.{UserRepo}
use go_max_tech_stack.UserService.{memory_users, create_user}
use go_max_tech_stack.Queue.{Context, enqueue, new, select_send, receive}
use go_max_tech_stack.Security.{can_read_user, Principal, user}
use go_max_tech_stack.Entity.Job.{Job, queued, running}
use go_max_tech_stack.Entity.User.{CreateUserInput, User}
use go_max_tech_stack.WorkerPool.Item.{Others, process_item}
use go_max_tech_stack.WorkerPool.Ending.{Leaves, ending, last_event}
use go_max_tech_stack.Event.{event, nothing}
use go_max_tech_stack.Failure.{Failure}
use go_max_tech_stack.Failure.Result.{ok, err}
use go_max_tech_stack.Text.{Text}
use go_max_tech_stack.Prelude.Assoc.{lookup}
use go_max_tech_stack.Prelude.{
  Option, [], arith, false, none, pos, refl, some, true, ◌∷◌, ◌≡◌, ◌⊎◌, ◌++◌,
}
use go_max_tech_stack.Etag.{user_etag}
use go_max_tech_stack.HttpErrors.{answer}
use go_max_tech_stack.JobService
use go_max_tech_stack.UserService
use go_max_tech_stack.UserRepo

abbrev site : Site JobRepo UserRepo
site = record {
  world = record {
    jobs = one_job;
    users = two_users;
    published = [];
    observer = record { queued = 0; running = 0; succeeded = 0; failed = 0 };
  };
  queue = new 1;
}

abbrev calm : Context
calm = record { err_before = none; err_locked = none; err_select = none; choose_send = true }

abbrev owner : Principal
owner = record { user_id = 7; role = user }

abbrev eve : CreateUserInput
eve = record { name = "Eve"; age = pos 20; email = "eve@x.org" }

owner-IsNew : IsNew one_job (queued_job owner)
owner-IsNew = record {
  no_id = refl;
  queued_status = refl;
  no_result = refl;
  no_error = refl;
  room = omega arith;
}

-- An event of another job is published meanwhile.
abbrev busy : Site JobRepo UserRepo → Site JobRepo UserRepo
busy s = record s {
  world = record s.world { published = s.world.published ++ (event running 1 nothing ∷ []) };
}

busy-LeavesAlone : LeavesAlone 2 busy
busy-LeavesAlone = record { job = λ s. refl; distinct = λ s d. d }

abbrev crowd : Meanwhile JobRepo UserRepo
crowd = record { before_publish = busy; before_enqueue = busy; before_delete = busy }

crowd-Spares : Spares 2 crowd
crowd-Spares = record {
  publish = busy-LeavesAlone;
  enqueue = busy-LeavesAlone;
  delete = busy-LeavesAlone;
}

create_async_settles_example :
    let (s', answer) =
      create_async memory_repository (memory_users exact) crowd calm owner eve site in
    let asked = admission (memory_users exact) crowd calm owner eve site in
    (((asked.1 ≡ ok tt) × Accepted (memory_users exact) crowd calm owner eve site s' answer)
      ⊎ ((e : Failure) × (asked.1 ≡ err e)
          × RolledBack (memory_users exact) crowd calm owner eve e site s' answer))
    × ((announced (memory_users exact) crowd calm owner eve site).world.published
        ≡ (saved (memory_users exact) crowd calm owner eve site).world.published
          ++ (event queued 2 nothing ∷ []))
    × ((announced (memory_users exact) crowd calm owner eve site).world.observer.queued ≡ 1)
create_async_settles_example =
    create_async_settles (memory_users exact) crowd calm owner eve site one_job-IsValid owner-IsNew
      crowd-Spares

abbrev undisturbed : Others JobRepo UserRepo
undisturbed = record { in_start = λ r. r; in_create = λ u. u; before_end = λ r. r; in_end = λ r. r }

undisturbed-Leaves : Leaves 2 undisturbed
undisturbed-Leaves = record { at_start = λ r. refl; before_end = λ r. refl; at_end = λ r. refl }

queue_empty : (offered (memory_users exact) crowd calm owner eve site).queue.ch ≡ []
unfolding new
queue_empty = refl

eve_admitted : (admission (memory_users exact) crowd calm owner eve site).1 ≡ ok tt
unfolding enqueue select_send new
eve_admitted = refl

accepted_job_ends_example :
    let s' = (create_async memory_repository (memory_users exact) crowd calm owner eve site).0 in
    let w = (busy s').world in
    let created = create_user (memory_users exact) (λ u. u) eve w.users in
    let end =
      (process_item memory_repository
        (memory_users exact)
        undisturbed
        false
        (record { job_id = 2; payload = eve })
        w).0 in
    ((receive s'.queue).1 ≡ some (record { job_id = 2; payload = eve }))
    × (lookup 2 end.jobs.jobs
        ≡ some (
            ending
              (memory_users exact)
              undisturbed
              2
              undisturbed-Leaves
              created.1
              (record (queued_job owner) { id = 2 })))
    × (end.users ≡ created.0)
    × (end.published
        ≡ w.published
          ++ (event running 2 nothing
              ∷ last_event (memory_users exact) undisturbed 2 undisturbed-Leaves created.1
              ∷ []))
    × ((announced (memory_users exact) crowd calm owner eve site).world.published
        ≡ (saved (memory_users exact) crowd calm owner eve site).world.published
          ++ (event queued 2 nothing ∷ []))
accepted_job_ends_example =
    accepted_job_ends (memory_users exact) crowd calm owner eve busy undisturbed site
      one_job-IsValid owner-IsNew crowd-Spares busy-LeavesAlone undisturbed-Leaves queue_empty
      eve_admitted

abbrev plain : Text → Option Text
plain = some

answers-MayRead_example :
    let users = memory_users exact in
    let me = some owner in
    let read = get_user users plain me [] [] 1 two_users in
    let read_v2 = get_user_v2 users me 1 two_users in
    let export = export_user users me 1 two_users in
    TellsUser users memory_repository me 1 two_users read (Negotiated users memory_repository read)
    × TellsUser users memory_repository me 1 two_users read_v2
        (λ u. read_v2 ≡ ok (response 200 [] (user_body (dto u))))
    × TellsUser users memory_repository me 1 two_users export
        (Exported users memory_repository export)
    × Tells users memory_repository (get_job memory_repository me 1 one_job) (
        (job : Job) × (JobService.get_by_id memory_repository 1 one_job ≡ ok job)
        × (get_job memory_repository me 1 one_job ≡ ok (response 200 [] (job_body job)))
        × MayRead me job.owner_user_id)
answers-MayRead_example =
    answers-MayRead (memory_users exact) memory_repository plain (some owner) [] [] 1 two_users
      one_job

abbrev ann_stored : User
ann_stored = record { id = 1; name = "Ann"; age = pos 30; email = "ann@x.org"; version = 1 }

ann_found : UserService.get_by_id (memory_users exact) 1 two_users ≡ ok ann_stored
unfolding UserService.get_by_id UserRepo.get_by_id lookup
ann_found = refl

abbrev ann_herself : Principal
ann_herself = record { user_id = 1; role = user }

ann_may : can_read_user ann_herself 1 ≡ true
unfolding can_read_user
ann_may = refl

get_user_fresh_example :
    get_user
      (memory_users exact)
      plain
      (some ann_herself)
      (user_etag (pos 1) (pos 1))
      []
      1
      two_users
    ≡ ok (response 304 (cached ann_stored) no_body)
get_user_fresh_example =
    get_user_fresh (memory_users exact) plain ann_herself [] 1 1 two_users ann_stored ann_may
      ann_found (omega arith) (omega arith) (omega arith)
