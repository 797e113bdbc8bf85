-- ===== src/Handlers.antt =====
-- internal/routes: users_handler.go, users_handler_v2.go and the look-up of job_handler.go. A handler
-- takes a request and the state of the service, and answers with a response or an error. What the
-- request carries is read already: `parsed` is what ParseJSON makes of its body, `content_type` and
-- `if_none_match` are headers, `context` is what the queue reads of its context. A response keeps the
-- headers that the handler itself sets, and the value that is printed as its body. Other goroutines
-- may act where the services hold no lock: `Meanwhile` is what they do in an asynchronous creation,
-- `between` what they do to the users in the other.
-- `Handlers.Lookup` holds the handlers that read; `Handlers.Creation` is about the creation of users,
-- `Handlers.Reading` about who may read what.
use go_max_tech_stack.JobService
use go_max_tech_stack.JobService.{JobRepository}
use go_max_tech_stack.UserService.{UserRepository, create_user}
use go_max_tech_stack.Queue.{Queue, Context, enqueue}
use go_max_tech_stack.WorkerPool.Item.{World}
use go_max_tech_stack.Event.{event, nothing}
use go_max_tech_stack.Entity.Job.{Job, queued, failed, running, succeeded}
use go_max_tech_stack.Entity.User.{
  CreateUserInput, CreateUserInputV2, UserDto, UserDtoV2, map_create_v2_to_v1, map_user_dto_to_v2,
}
use go_max_tech_stack.Validation.{
  ErrorDetail, validate_create_user_input, validate_create_user_input_v2,
}
use go_max_tech_stack.Security.{Principal}
use go_max_tech_stack.Negotiation.{require_json_content_type, MediaType}
use go_max_tech_stack.Failure.{InvalidParam, validation, unauthorized, missing, joined}
use go_max_tech_stack.Failure.Result.{Result, ok, err}
use go_max_tech_stack.Text.{Text, codes}
use go_max_tech_stack.Decimal.{format_int}
use go_max_tech_stack.Prelude.{
  ◌+◌, ◌++◌, List, Option, String, [], if◌then◌else◌, int64, map, none, some, str_eq, ℕ, ℤ, ◌∷◌,
}
use go_max_tech_stack.Queue.Fifo.{admitted}
use go_max_tech_stack.WorkerPool.Steps.{published}
use go_max_tech_stack.UserService
pub mod Lookup
pub mod Creation
pub mod Reading
mod Examples

pub record UserExport : Type 0 where
  pub id : ℕ
  pub name : String
  pub email : String
  pub age : ℤ

pub data Body : Type 0 where
  no_body : Body
  job_body : Job → Body
  user_body : UserDto → Body
  negotiated_body : MediaType → UserDto → Body
  user_v2_body : UserDtoV2 → Body
  users_body : List UserDto → Body
  users_v2_body : List UserDtoV2 → Body
  export_body : UserExport → Body

pub record Response : Type 0 where
  pub status : ℕ
  pub headers : List (String × Text)
  pub body : Body

pub record Incoming (A : Type 0) : Type 0 where
  pub content_type : Text
  pub async : String
  pub parsed : Result A
  pub principal : Option Principal
  pub context : Context

-- The handlers share the repositories, the queue, the hub and the counters.
pub record Site (R U : Type 0) : Type 0 where
  pub world : World R U
  pub queue : Queue

unfoldable pub to_invalid_params : List ErrorDetail → List InvalidParam
to_invalid_params = map (λ (d : ErrorDetail). record { name = d.field; reason = d.rule })

abbrev pub location : String → ℕ → List (String × Text)
location path id = ("Location", codes path ++ format_int (int64 id)) ∷ []

abbrev pub response : ℕ → List (String × Text) → Body → Response
response status headers body = record { status = status; headers = headers; body = body }

-- What other goroutines do between the steps of an asynchronous creation.
pub record Meanwhile (R U : Type 0) : Type 0 where
  pub before_publish : Site R U → Site R U
  pub before_enqueue : Site R U → Site R U
  pub before_delete : Site R U → Site R U

abbrev pub queued_job : Principal → Job
queued_job p = record {
  id = 0;
  status = queued;
  result = none;
  error = none;
  owner_user_id = p.user_id;
}

module _ {R U : Type 0} (jobs : JobRepository R) (users : UserRepository U) where
  unfoldable pub publish_queued_job : ℕ → World R U → World R U
  publish_queued_job id w = record w {
    published = w.published ++ (event queued id nothing ∷ []);
    observer = record {
      queued = w.observer.queued + 1;
      running = w.observer.running;
      succeeded = w.observer.succeeded;
      failed = w.observer.failed;
    };
  }

  unfoldable pub delete_job_after_failed_enqueue : ℕ → R → R × Result (Unit {0})
  unfolding JobService.delete
  delete_job_after_failed_enqueue = JobService.delete jobs

  -- The job is saved, published and enqueued; if the queue refuses it, it is deleted again. No lock
  -- is held from one of these to the next.
  unfoldable pub create_async :
      Meanwhile R U → Context → Principal → CreateUserInput → Site R U → Site R U × Result Response
  create_async others ctx p input s =
      let (jobs', saved) = JobService.save jobs (queued_job p) s.world.jobs in
      let stored = record s { world = record s.world { jobs = jobs' } } in
      elim saved [
        | err e ↦ (stored, err e)
        | ok job ↦
            let t = others.before_publish stored in
            let u =
              others.before_enqueue (record t { world = publish_queued_job job.id t.world }) in
            let (q, admitted) = enqueue ctx (record { job_id = job.id; payload = input }) u.queue in
            let v = record u { queue = q } in
            elim admitted [
              | ok _ ↦ (v, ok (response 202 (location "/api/v1/jobs/" job.id) (job_body job)))
              | err e ↦
                  let w = others.before_delete v in
                  let (jobs'', deleted) = delete_job_after_failed_enqueue job.id w.world.jobs in
                  (
                    record w { world = record w.world { jobs = jobs'' } },
                    err (elim deleted [ ok _ ↦ e | err e' ↦ joined e e' ]),
                  )
            ]
      ]

  unfoldable pub create_sync : (U → U) → CreateUserInput → Site R U → Site R U × Result UserDto
  create_sync between input s =
      let (users', created) = create_user users between input s.world.users in
      (record s { world = record s.world { users = users' } }, created)

  module _ (lower : ℕ → ℕ) (media : Text → Option Text) (others : Meanwhile R U)
      (between_users : U → U) where
    unfoldable pub create : Incoming CreateUserInput → Site R U → Site R U × Result Response
    create r s = elim (require_json_content_type media r.content_type) [
      | err e ↦ (s, err e)
      | ok u ↦ elim r.parsed [
        | err e ↦ (s, err e)
        | ok input ↦ elim (validate_create_user_input lower input) [
          | d ∷ details ↦ (s, err (validation (to_invalid_params (d ∷ details))))
          | [] ↦
              if str_eq r.async "1"
              then elim r.principal [
                | none ↦ (s, err (unauthorized missing))
                | some p ↦ create_async others r.context p input s
              ]
              else let (s', created) = create_sync between_users input s in
                elim created [
                  | err e ↦ (s', err e)
                  | ok user ↦
                      (s', ok (response 201 (location "/api/v1/users/" user.id) (user_body user)))
                ]
        ]
      ]
    ]

    unfoldable pub create_v2 : Incoming CreateUserInputV2 → Site R U → Site R U × Result Response
    create_v2 r s = elim (require_json_content_type media r.content_type) [
      | err e ↦ (s, err e)
      | ok u ↦ elim r.parsed [
        | err e ↦ (s, err e)
        | ok input ↦ elim (validate_create_user_input_v2 lower input) [
          | d ∷ details ↦ (s, err (validation (to_invalid_params (d ∷ details))))
          | [] ↦
              if str_eq r.async "1"
              then elim r.principal [
                | none ↦ (s, err (unauthorized missing))
                | some p ↦ create_async others r.context p (map_create_v2_to_v1 input) s
              ]
              else let (s', created) = create_sync between_users (map_create_v2_to_v1 input) s in
                elim created [
                  | err e ↦ (s', err e)
                  | ok user ↦ (
                    s',
                    ok (
                        response 201 (location "/api/v2/users/" user.id)
                          (user_v2_body (map_user_dto_to_v2 user))),
                  )
                ]
        ]
      ]
    ]
